-- ===== src/Application.antt =====
-- base/Utilities.cpp, the callbacks at its end: the application that the program runs on each connection that
-- its listeners accept. It answers what it reads with a fixed response, and closes the connection.
pub mod Queueing
pub mod Answering
pub mod Serving
pub mod Accepting
mod Tests
use Prim.Native.Char.{code}
use Prim.Native.String.{String}
use musketeer.Prelude.{
  ℕ, zero, suc, ◌+◌, List, [], ◌∷◌, length, Option, none, some, Outcome, ok, fault, dangling, ◌>>=◌,
  ◌>>◌, assert, if◌then◌else◌, get_elem?,
}
use musketeer.Errors.{Error, SysResult, is_no_error}
use musketeer.Buffer.{Buffer, RawBuf, available_pos, append}
use musketeer.Buffer.Alloc.{Allocator}
use musketeer.TcpConnection.Events.{Event, perform}
use musketeer.TcpConnection.{
  TcpConnection, Call, read_available, write_finished, is_established, get_write_buffer,
  set_read_callback, send, close,
}

-- The bytes of a text in ASCII.
abbrev codes : String → List ℕ
codes String.[] = []
codes (String.◌∷◌ c s) = code c ∷ codes s

pub response : List ℕ
response = codes "HTTP/1.1 200 OK\r\nServer: musketeer\r\nContent-Length: 4\r\n\r\nhaha"

-- `wbuf->Append(...)` on the buffer that stands `k`-th in the chain.
pub append_nth : Allocator → ℕ → List ℕ → List Buffer → Outcome (List Buffer)
append_nth a k xs [] = fault dangling
append_nth a zero xs (b ∷ bs) = do b' ← append a b xs; ok (b' ∷ bs)
append_nth a (suc k) xs (b ∷ bs) = do bs' ← append_nth a k xs bs; ok (b ∷ bs')

-- `wbuf` is used whether it is `nullptr` or not.
append_at : Allocator → Option ℕ → List ℕ → TcpConnection → Outcome TcpConnection
unfolding append_nth
append_at a none xs c = fault dangling
append_at a (some k) xs c = do
  bs ← append_nth a k xs c.write_buf_chain
  ok (record c { write_buf_chain = bs })

-- `GetWriteBuffer` and `Append`, one after the other.
pub queue_bytes : Allocator → List ℕ → TcpConnection → Outcome TcpConnection
unfolding append_at
queue_bytes a xs c = do (k, c') ← get_write_buffer a c; append_at a k xs c'

-- `onResponseSent`
pub on_response_sent : Error → TcpConnection → Outcome TcpConnection
on_response_sent e c = if is_no_error e.first then close c else close c

module _ (a : Allocator) (time : ℕ → ℕ) where
  -- `onNewRequest`, with what the kernel says to the write of the response. What was read is logged only, which is left
  -- out, also that the log looks for a zero byte at its end.
  pub on_new_request : SysResult → Error → TcpConnection → Outcome TcpConnection
  on_new_request res e c =
      if is_no_error e.first then (queue_bytes a response c >>= send time 3000 res) else close c

  -- `onNewConnection`
  pub on_new_connection : TcpConnection → Outcome TcpConnection
  on_new_connection c = do assert (is_established c.status); set_read_callback time 3000 c

  -- The callback that a call of the connection runs.
  pub answer : SysResult → Call → TcpConnection → Outcome TcpConnection
  unfolding on_new_request on_response_sent
  answer res (read_available e) c = on_new_request res e c
  answer res (write_finished e) c = on_response_sent e c

  -- The calls after the first `seen`, each with its callback, at most `fuel` of them. A callback makes its
  -- own calls last, so that they come in the order of `calls`.
  pub answer_all : ℕ → SysResult → ℕ → TcpConnection → Outcome (ℕ × TcpConnection)
  unfolding answer
  answer_all zero res seen c = ok (seen, c)
  answer_all (suc fuel) res seen c = elim (get_elem? c.calls seen) [
    | none ↦ ok (seen, c)
    | some k ↦ (answer res k c >>= answer_all fuel res (seen + 1))
  ]

  -- What happens to the connection, and then the callbacks of its calls; with each event comes what the kernel
  -- says to the write of an answer.
  pub serve : Event × SysResult → ℕ × TcpConnection → Outcome (ℕ × TcpConnection)
  serve (e, res) (seen, c) = perform time e c >>= answer_all 3 res seen

  pub serve_all : List (Event × SysResult) → ℕ × TcpConnection → Outcome (ℕ × TcpConnection)
  serve_all [] s = ok s
  serve_all (e ∷ es) s = serve e s >>= serve_all es
