-- ===== src/TcpConnection/Samples.antt =====
-- net/TcpConnection.cpp: a connection on descriptor 5.
use musketeer.Prelude.{refl, inl, inr, true, false, [], ◌∷◌, some, arith, ◌+◌}
use musketeer.Prelude.Int.{pos}
use musketeer.Prelude.Assoc.{lookup}
use musketeer.InetAddr.{to_numeric}
use musketeer.Errors.{success}
use musketeer.Buffer.{Buffer}
use musketeer.Buffer.Alloc.{Allocator}
use musketeer.Buffer.Bounds.{IsValid}
use musketeer.Channel.{set}
use musketeer.Pool.{Conn, group_index}
use musketeer.Socket.{valid}
use musketeer.Timers.{init}
use musketeer.TcpConnection.{TcpConnection, established}
use musketeer.TcpConnection.Closing.{Live}

abbrev pub far : Conn
far = record { index = 10; remote_addr = record { s_addr = 1; sin_port = 2 } }

-- Five bytes in ten.
abbrev pub five : Buffer
five = record {
  vec = record { size = 10; cap = 10; mem = λ i. i + 1 };
  capacity = 10;
  avail_start = 3;
  avail_end = 8;
}

-- The same storage with nothing in it.
abbrev pub drained : Buffer
drained = record five { avail_start = 0; avail_end = 0 }

pub five-IsValid : IsValid five
five-IsValid = omega arith

pub drained-IsValid : IsValid drained
drained-IsValid = omega arith

-- Waiting to read, with ten bytes to write.
abbrev pub reader : TcpConnection
reader = record {
  connfd = record { fd = some 5 };
  channel = record {
    cycle = record { all_channels = (5, 1) ∷ []; ctl = []; stop = false };
    chan = record {
      status = set;
      fd = 5;
      events = 0x0f;
      revents = 0;
      closed = false;
      read_callback = true;
      write_callback = true;
      error_callback = true;
    };
    id = 1;
  };
  active = true;
  status = established;
  saved_errno = success;
  read_available_callback = true;
  write_finished_callback = true;
  write_buf_chain = five ∷ five ∷ [];
  read_buf = five;
  read_timer = 0;
  write_timer = 1;
  queue = init 2;
  pool = record {
    connections_number = pos 1;
    connections = (65538, (10, far) ∷ []) ∷ [];
    active = λ i. true;
  };
  self = far;
  calls = [];
}

pub reader-Live : Live reader
unfolding lookup valid group_index to_numeric
reader-Live = record {
  channel_inv = record { interest = inr (inl refl); watched = refl; mapped = refl };
  registered = λ e. cc;
  open_fd = refl;
  pooled = refl;
}

-- The library that allocates what is asked for.
abbrev pub exact : Allocator
exact = record { grown = λ s c n. n; shrunk = λ s c. s; fresh = λ i. 0 }
