-- ===== src/TcpConnection/Tests.antt =====
-- A concrete connection on descriptor 5.
use musketeer.Prelude.{◌≡◌, refl, inl, inr, true, false, [], ◌∷◌, arith, ok, Returns, Returns-value}
use musketeer.Prelude.Assoc.{lookup}
use musketeer.InetAddr.{to_numeric}
use musketeer.Errors.{
  failed, done, ebadf, errno_ignorable, error, no_error, connect_error, write_error, success,
}
use musketeer.Buffer.Append.{Appends}
use musketeer.Channel.{removed}
use musketeer.Channel.Events.{has, crevent, cwevent}
use musketeer.Pool.{group_index}
use musketeer.Socket.{valid}
use musketeer.Utilities.{read_bytes, read_failed}
use musketeer.Utilities.Chain.{chain_contents, total}
use musketeer.TcpConnection.{
  TcpConnection, established, closed, read_available, write_finished, close, handle_read,
  handle_error, handle_read_timedout, set_read_callback, send, get_write_buffer,
}
use musketeer.TcpConnection.Soundness.{Sound}
use musketeer.TcpConnection.Events.{Calls, closes, perform, perform_all, perform_all-Sound}
use musketeer.TcpConnection.Closing.{Live, Closed, close-Closed, close_twice, handle_error_lem}
use musketeer.TcpConnection.Reading.{
  Reads, AtEnd, TimesOut, handle_read_data, handle_read_end, handle_read_fails,
  handle_read_timedout_lem,
}
use musketeer.TcpConnection.Waiting.{set_read_callback_lem}
use musketeer.TcpConnection.Chains.{Fits}
use musketeer.TcpConnection.Draining.{Drained, write_all, write_all-Drained}
use musketeer.TcpConnection.Sending.{Pending, Writes, send_all, send_drained, send_fails}
use musketeer.TcpConnection.Buffers.{Chosen, get_write_buffer-Chosen}
use musketeer.TcpConnection.Samples.{
  exact, five, five-IsValid, drained, drained-IsValid, reader, reader-Live,
}

reader-Reads : Reads reader
reader-Reads = record {
  live = reader-Live;
  is_open = refl;
  reading = refl;
  buffer = five-IsValid;
  callback = refl;
}

chain-Fits : Fits (five ∷ five ∷ [])
chain-Fits = record {
  valid = (five-IsValid, (five-IsValid, tt));
  few = omega arith;
  small = omega arith;
}

reader-Writes : Writes reader
reader-Writes = record {
  live = reader-Live;
  is_open = refl;
  chain = chain-Fits;
  some_buffer = omega arith;
  quiet = refl;
}

close-Closed_example : Returns (Closed reader) (close reader)
close-Closed_example = close-Closed reader reader-Live refl

handle_error_lem_example :
    Returns
      (λ c'. (c'.saved_errno ≡ ebadf) × (c'.status ≡ closed) × (c'.calls ≡ []))
      (handle_error ebadf reader)
handle_error_lem_example = handle_error_lem reader ebadf reader-Live refl

handle_read_data_example :
    Returns
      (λ c'.
        Appends five (6 ∷ 7 ∷ []) c'.read_buf
        × (c'.status ≡ established)
        × (has c'.channel.chan.events crevent ≡ false)
        × (c'.calls ≡ read_available (error no_error success) ∷ []))
      (handle_read (read_bytes (6 ∷ 7 ∷ [])) reader)
handle_read_data_example = handle_read_data reader 6 (7 ∷ []) reader-Reads (omega arith)

handle_read_end_example : Returns (AtEnd reader) (handle_read (read_bytes []) reader)
handle_read_end_example = handle_read_end reader reader-Reads (omega arith)

handle_read_fails_example :
    Returns
      (λ c'.
        (c'.status ≡ closed)
        × (c'.write_buf_chain ≡ [])
        × (c'.calls ≡ read_available (error connect_error ebadf) ∷ []))
      (handle_read (read_failed ebadf) reader)
unfolding errno_ignorable
handle_read_fails_example = handle_read_fails reader ebadf reader-Reads (omega arith) refl

handle_read_timedout_lem_example : Returns (TimesOut reader) (handle_read_timedout reader)
handle_read_timedout_lem_example = handle_read_timedout_lem reader reader-Reads refl

send_all_example :
    Returns
      (λ c'.
        (chain_contents c'.write_buf_chain ≡ [])
        × (c'.status ≡ established)
        × (c'.channel ≡ reader.channel)
        × (c'.calls ≡ write_finished (error no_error success) ∷ []))
      (send (λ k. k) 500 (done (total (five ∷ five ∷ []))) reader)
send_all_example = send_all (λ k. k) 500 reader reader-Writes (omega arith)

-- The same, waiting to write too.
abbrev sender : TcpConnection
sender = record reader {
  channel = record (reader.channel) { chan = record (reader.channel.chan) { events = 0xff } };
}

sender-Live : Live sender
unfolding lookup valid group_index to_numeric
sender-Live = record {
  channel_inv = record { interest = inr (inr (inr refl)); watched = refl; mapped = refl };
  registered = λ e. cc;
  open_fd = refl;
  pooled = refl;
}

sender-Pending : Pending sender
sender-Pending = record {
  live = sender-Live;
  is_open = refl;
  chain = chain-Fits;
  waits = refl;
  can_write = refl;
  callback = refl;
}

-- The kernel takes seven bytes of the ten, and then three.
write_all-Drained_example : Returns (Drained sender) (write_all (7 ∷ 3 ∷ []) sender)
write_all-Drained_example =
    write_all-Drained 7 (3 ∷ []) sender sender-Pending (omega arith) (omega arith)

send_fails_example :
    Returns
      (λ c'.
        (c'.status ≡ closed)
        × (c'.write_buf_chain ≡ [])
        × (c'.calls ≡ write_finished (error write_error ebadf) ∷ []))
      (send (λ k. k) 500 (failed ebadf) reader)
unfolding errno_ignorable
send_fails_example = send_fails (λ k. k) 500 ebadf reader reader-Writes (omega arith) refl

-- Nothing to write.
abbrev quiet : TcpConnection
quiet = record reader { write_buf_chain = drained ∷ [] }

quiet-Writes : Writes quiet
quiet-Writes = record {
  live = record {
    channel_inv = reader-Live.channel_inv;
    registered = reader-Live.registered;
    open_fd = reader-Live.open_fd;
    pooled = reader-Live.pooled;
  };
  is_open = refl;
  chain = record { valid = (drained-IsValid, tt); few = omega arith; small = omega arith };
  some_buffer = omega arith;
  quiet = refl;
}

send_drained_example :
    Returns
      (λ c'.
        (c'.write_buf_chain ≡ drained ∷ [])
        × (c'.status ≡ established)
        × (has c'.channel.chan.events cwevent ≡ true)
        × (c'.calls ≡ []))
      (send (λ k. k) 500 (done 0) quiet)
send_drained_example = send_drained (λ k. k) 500 (done 0) quiet quiet-Writes refl

get_write_buffer-Chosen_example : Returns (Chosen reader) (get_write_buffer exact reader)
get_write_buffer-Chosen_example =
    get_write_buffer-Chosen exact reader (five-IsValid, (five-IsValid, tt))

-- What `close` makes of it.
abbrev closing : (c' : TcpConnection) × (close reader ≡ ok c') × Closed reader c'
closing = Returns-value (Closed reader) (close reader) (close-Closed reader reader-Live refl)

close_twice_example : close (closing.0) ≡ ok (closing.0)
close_twice_example = close_twice reader (closing.0) (closing.1)

-- Registered, and waiting for nothing.
abbrev idler : TcpConnection
idler = record reader {
  channel = record (reader.channel) {
    chan = record (reader.channel.chan) { status = removed; events = 0 };
  };
}

idler-Live : Live idler
unfolding lookup
idler-Live = record {
  channel_inv = record { interest = inl refl; watched = refl; mapped = refl };
  registered = λ e. cc;
  open_fd = reader-Live.open_fd;
  pooled = reader-Live.pooled;
}

set_read_callback_lem_example :
    Returns
      (λ c'.
        (has c'.channel.chan.events crevent ≡ true)
        × (c'.read_available_callback ≡ true)
        × (c'.queue.timers_set ≡ idler.queue.timers_set)
        × (c'.calls ≡ [])
        × (c'.active ≡ true))
      (set_read_callback (λ k. k) 500 idler)
set_read_callback_lem_example =
    set_read_callback_lem (λ k. k) 500 idler idler-Live refl five-IsValid (omega arith) refl

reader-Sound : Sound reader
unfolding lookup valid group_index to_numeric
reader-Sound = record {
  open_inv = λ e. reader-Live.channel_inv;
  open_registered = λ e. refl;
  open_fd = λ e. refl;
  open_pooled = λ e. refl;
  closed_fd = λ e. cc e;
  closed_idle = λ e. cc e;
}

two_closes : perform_all (λ k. k) (closes ∷ closes ∷ []) reader ≡ ok (closing.0)
unfolding perform_all perform
two_closes = rw (closing.1, close_twice_example) refl

perform_all-Sound_example : Sound (closing.0) × Calls 2 reader (closing.0)
perform_all-Sound_example =
    perform_all-Sound (λ k. k) (closes ∷ closes ∷ []) reader (closing.0) reader-Sound two_closes
