-- ===== src/Listener/Samples.antt =====
-- net/Listener.cpp: a listener on descriptor 3.
use musketeer.Prelude.{◌≡◌, refl, inl, inr, true, false, [], ◌∷◌, some}
use musketeer.Prelude.Int.{pos}
use musketeer.Prelude.Assoc.{lookup}
use musketeer.InetAddr.{InetAddr, to_numeric}
use musketeer.Buffer.Alloc.{Allocator}
use musketeer.Channel.{set}
use musketeer.Pool.{group_index, get_conn_number}
use musketeer.Timers.{init}
use musketeer.Listener.{Listener}
use musketeer.Listener.Starting.{Listening}
use musketeer.Listener.Accepting.{Room}

abbrev pub exact : Allocator
exact = record { grown = λ s c n. n; shrunk = λ s c. s; fresh = λ i. 0 }

abbrev pub far : InetAddr
far = record { s_addr = 1; sin_port = 2 }

abbrev pub server : Listener
server = record {
  listenfd = record { fd = some 3 };
  chan = record {
    status = set;
    fd = 3;
    events = 0x0f;
    revents = 0;
    closed = false;
    read_callback = true;
    write_callback = false;
    error_callback = false;
  };
  chan_id = 1;
  connected_callback = true;
  limit = 10;
  pool = record { connections_number = pos 0; connections = []; active = λ i. true };
  cycle = record { all_channels = (3, 1) ∷ []; ctl = []; stop = false };
  queue = init 2;
  addresses = 100;
  made = [];
  calls = [];
  closed = [];
}

pub server-Listening : Listening server
unfolding lookup
server-Listening = record {
  inv = record { interest = inr (inl refl); watched = refl; mapped = refl };
  reading = refl;
  status = refl;
  read_callback = refl;
  open_fd = refl;
  answered = refl;
}

pub server-Room : Room far 5 server
unfolding lookup group_index to_numeric
server-Room = record { unmapped = refl; placeable = refl }

pub no_connections : get_conn_number server.pool ≡ 0
unfolding get_conn_number
no_connections = refl
