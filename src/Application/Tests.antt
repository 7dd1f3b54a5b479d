-- ===== src/Application/Tests.antt =====
-- The callbacks of the application, on a listener's connection.
use musketeer.Prelude.{◌≡◌, refl, [], ◌∷◌, ◌++◌, arith, Returns, ◌>>=◌}
use musketeer.Errors.{done}
use musketeer.Utilities.{read_bytes}
use musketeer.Utilities.Chain.{chain_contents}
use musketeer.TcpConnection.{TcpConnection}
use musketeer.TcpConnection.Events.{reads}
use musketeer.TcpConnection.Samples.{reader, five, five-IsValid, drained, drained-IsValid, exact}
use musketeer.Listener.{handle_accept}
use musketeer.Listener.Samples.{far, server, server-Listening, server-Room, no_connections}
use musketeer.Application.{on_new_connection, serve_all, queue_bytes}
use musketeer.Application.Answering.{Ended, read_ok, write_ok, writing, length-response}
use musketeer.Application.Queueing.{queue_bytes_first}
use musketeer.Application.Accepting.{accepted_answered}

-- Three bytes come, and the kernel takes 20, 40 and 1 of the response's.
accepted_answered_example :
    Returns
      (λ l'.
        (t : TcpConnection) × (l'.made ≡ t ∷ [])
        × Returns (Ended (read_ok ∷ write_ok ∷ []) (record t { pool = l'.pool })) (
            on_new_connection exact (λ k. k) (record t { pool = l'.pool }) >>= λ c.
            serve_all exact
              (λ k. k)
              ((reads (read_bytes (7 ∷ 8 ∷ 9 ∷ [])), done 20) ∷ writing (40 ∷ 1 ∷ []))
              (0, c)))
      (handle_accept exact far far 20 21 (done 5) server)
accepted_answered_example =
    accepted_answered exact (λ k. k) far far 20 21 5 server 7 (8 ∷ 9 ∷ []) 20 (40 ∷ 1 ∷ [])
      server-Listening server-Room (omega (arith, no_connections)) (omega arith) (omega arith)
      (omega (arith, length-response))

-- The first buffer was sent, the second still holds five bytes.
abbrev half_sent : TcpConnection
half_sent = record reader { write_buf_chain = drained ∷ five ∷ [] }

queue_bytes_first_example :
    Returns
      (λ c'.
        chain_contents c'.write_buf_chain ≡ (1 ∷ 2 ∷ []) ++ chain_contents (drained ∷ five ∷ []))
      (queue_bytes exact (1 ∷ 2 ∷ []) half_sent)
queue_bytes_first_example =
    queue_bytes_first exact (1 ∷ 2 ∷ []) half_sent drained (five ∷ []) refl
      (drained-IsValid, (five-IsValid, tt)) refl (omega arith) (omega arith)
