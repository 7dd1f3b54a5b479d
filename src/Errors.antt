-- ===== src/Errors.antt =====
-- The error values of base/Utilities.h, and the errno values that the program tells apart.
use musketeer.Prelude.{ℕ, Bool, true, false}

-- `enum ErrorType`
pub data ErrorType : Type 0 where
  no_error ignorable_error read_error read_peer_closed read_timedout write_error : ErrorType
  write_timedout accept_error connect_error connect_timedout connect_retry_overlimit : ErrorType
  connections_overlimit connections_runout disk_error : ErrorType

pub ErrorType-discrete : Discrete ErrorType
ErrorType-discrete = hlevel

-- `success` is 0, all others are positive. EWOULDBLOCK is EAGAIN, as on Linux.
pub data Errno : Type 0 where
  success einprogress eagain ealready eintr econnaborted eproto eperm emfile enfile : Errno
  ebadf efault enotsock eopnotsupp einval eisconn eaddrinuse eaddrnotavail econnrefused : Errno
  enetunreach eacces eafnosupport : Errno
  other : ℕ → Errno

-- `typedef std::pair<ErrorType, int> Error`
pub record Error : Type 0 where
  pub first : ErrorType
  pub second : Errno

abbrev pub error : ErrorType → Errno → Error
error t n = record { first = t; second = n }

-- `n > 0`
abbrev pub is_positive : Errno → Bool
is_positive success = false
is_positive _ = true

abbrev pub is_no_error : ErrorType → Bool
is_no_error no_error = true
is_no_error _ = false

-- What a system call returns: -1 with an errno, or a count.
pub data SysResult : Type 0 where
  failed : Errno → SysResult
  done : ℕ → SysResult

-- `ErrnoIgnorable`
unfoldable pub errno_ignorable : Errno → Bool
errno_ignorable einprogress = true
errno_ignorable eagain = true
errno_ignorable ealready = true
errno_ignorable eintr = true
errno_ignorable _ = false
