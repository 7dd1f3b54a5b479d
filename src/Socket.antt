-- ===== src/Socket.antt =====
-- net/Socket.h and net/Socket.cpp: a descriptor, and what `Connect` and `Accept` make of an errno.
-- What a system call returns is an argument.
pub mod Outcomes
mod Tests
use musketeer.Prelude.{
  ℕ, Bool, true, false, Option, none, some, Outcome, ok, fault, ◌>>=◌, ◌>>◌, assert, aborted,
}
use musketeer.Prelude.Int.{ℤ, pos, negsuc}
use musketeer.InetAddr.{InetAddr}
use musketeer.Errors.{
  Errno, success, einprogress, eagain, ealready, eintr, econnaborted, eproto, eperm, emfile, enfile,
  ebadf, efault, enotsock, eopnotsupp, einval, eisconn, eaddrinuse, eaddrnotavail, econnrefused,
  enetunreach, eacces, eafnosupport, other, Error, error, ErrorType, no_error, ignorable_error,
  connections_runout, accept_error, connect_error, SysResult, failed, done,
}

-- `fd`, with `none` for -1.
pub record Socket : Type 0 where
  pub fd : Option ℕ

abbrev pub is_valid : Option ℕ → Bool
is_valid none = false
is_valid (some n) = true

-- `Valid`
unfoldable pub valid : Socket → Bool
valid s = is_valid s.fd

-- `Socket::New`, after `socket()`.
unfoldable pub new_socket : SysResult → Socket
new_socket (failed e) = record { fd = none }
new_socket (done n) = record { fd = some n }

-- `Socket::Close`: the descriptors handed to `::close`, and the socket left.
pub close : Socket → Outcome (Option ℕ × Socket)
unfolding valid
close s = do assert (valid s); ok (s.fd, record { fd = none })

-- `~Socket`: what it hands to `::close`.
unfoldable pub destroy : Socket → Option ℕ
destroy s = s.fd

-- `Socket(Socket&&)`: the new socket, and the one moved from.
unfoldable pub move_from : Socket → Socket × Socket
move_from s = (record { fd = s.fd }, record { fd = none })

-- `operator=(Socket&&)`: the target and the source; `same` where they are one object.
pub move_assign : Bool → Socket → Socket → Socket × Socket
move_assign true s source = (s, s)
move_assign false s source = (record { fd = source.fd }, record { fd = none })

-- `Socket::Listen`, after `::listen`.
unfoldable pub listen : Socket → SysResult → Outcome Socket
unfolding valid
listen s (failed e) = do assert (valid s); fault aborted
listen s (done n) = do assert (valid s); ok s

-- `BindAddr`, `ShutdownRead`, `ShutdownWrite`: whether the call succeeded.
unfoldable pub call_succeeds : Socket → SysResult → Outcome Bool
unfolding valid
call_succeeds s (failed e) = do assert (valid s); ok false
call_succeeds s (done n) = do assert (valid s); ok true

-- `SetTcpnodelay`, `SetReuseaddr` and the other options: what the kernel says is only logged.
unfoldable pub set_option : Socket → SysResult → Outcome Socket
unfolding valid
set_option s res = do assert (valid s); ok s

-- `GetLocalAddr`, `GetRemoteAddr`, with the address that the kernel gives.
unfoldable pub get_addr : Socket → InetAddr → Outcome InetAddr
unfolding valid
get_addr s addr = do assert (valid s); ok addr

-- The `switch` of `Accept`.
pub accept_error_of : Errno → Error
accept_error_of eagain = error ignorable_error eagain
accept_error_of econnaborted = error ignorable_error econnaborted
accept_error_of eintr = error ignorable_error eintr
accept_error_of eproto = error ignorable_error eproto
accept_error_of eperm = error ignorable_error eperm
accept_error_of emfile = error connections_runout emfile
accept_error_of enfile = error connections_runout enfile
accept_error_of e = error accept_error e

accepted : SysResult → Socket × Error
unfolding accept_error_of
accepted (failed e) = (record { fd = none }, accept_error_of e)
accepted (done n) = (record { fd = some n }, error no_error success)

unfoldable pub accept : Socket → SysResult → Outcome (Socket × Error)
unfolding valid accepted
accept s res = do assert (valid s); ok (accepted res)

-- `(ret == 0) ? 0 : errno`
pub saved_errno : SysResult → Errno
saved_errno (done n) = success
saved_errno (failed e) = e

-- The `switch` of `Connect`: 1 is started, 0 is retriable, -1 is given up.
pub connect_result : Errno → ℤ × Error
connect_result success = (pos 1, error no_error success)
connect_result einprogress = (pos 1, error no_error einprogress)
connect_result eintr = (pos 1, error no_error eintr)
connect_result eisconn = (pos 1, error no_error eisconn)
connect_result eagain = (pos 0, error ignorable_error eagain)
connect_result eaddrinuse = (pos 0, error ignorable_error eaddrinuse)
connect_result eaddrnotavail = (pos 0, error ignorable_error eaddrnotavail)
connect_result econnrefused = (pos 0, error ignorable_error econnrefused)
connect_result enetunreach = (pos 0, error ignorable_error enetunreach)
connect_result e = (negsuc 0, error connect_error e)

unfoldable pub connect : SysResult → ℤ × Error
unfolding saved_errno connect_result
connect res = connect_result (saved_errno res)
