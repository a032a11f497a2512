-- ===== src/Cocgi/Server.antt =====
-- The coroutines of cocgi/main.cpp: `readwrite_routine`, `accept_routine` and the stack `g_readwrite`.
-- A coroutine runs from one point where it waits to the next, so each step here is such a stretch.
pub mod Invariant
pub mod Descriptors
pub mod Timeout
pub mod Alone
pub mod Isolation
pub mod Exchange
pub mod Persistent
pub mod Served
pub mod Finished
use fastcgi_async_or_corouti.Base.{
  ℕ, zero, suc, ◌+◌, Bool, true, false, Option, none, some, Bytes, List, [], ◌∷◌, ◌==◌, leb,
  if◌then◌else◌,
}
use fastcgi_async_or_corouti.Cgi.{CgiParser}
use fastcgi_async_or_corouti.Cocgi.Codec.{Codec, new_codec}
use fastcgi_async_or_corouti.Cocgi.Session.{
  ErrorCode, err_ok, err_socket_read, err_socket_write, err_socket_finish, err_socket_eagain,
  WriteResult, ReadResult, Outcome, returns, throws, waits, Reply, read_data,
}

-- MAX_RECYCLE_COUNT
abbrev pub max_recycle_count : ℕ
max_recycle_count = 60

-- The local variables of `readwrite_routine` while it serves a connection.
pub record Conn : Type 0 where
  pub fd : ℕ
  pub recycle : ℕ
  pub fcgi : Codec

-- A task that serves no connection waits in `co_yield_ct` with `co->fd` equal to -1. `ready` is
-- `g_readwrite`, its top first. `accepted` and `closed` list what `co_accept` has returned and what
-- `close` was called on, the last one first.
pub record Server : Type 0 where
  pub ready : List ℕ
  pub tasks : ℕ → Option Conn
  pub accepted : List ℕ
  pub closed : List ℕ

abbrev pub update : (ℕ → Option Conn) → ℕ → Option Conn → ℕ → Option Conn
update f k v j = if k == j then v else f j

-- `readwrite_routine` at the head of its outer loop with `co->fd` equal to -1.
unfoldable pub park : ℕ → Server → Server
park k s = record s { ready = k ∷ s.ready; tasks = update s.tasks k none }

-- `main` makes the tasks 0, 1, …, and resumes each once.
unfoldable pub start : ℕ → Server
unfolding park
start zero = record { ready = []; tasks = λ _. none; accepted = []; closed = [] }
start (suc n) = park n (start n)

unfoldable pub close_fd : ℕ → Server → Server
close_fd fd s = record s { closed = fd ∷ s.closed }

-- The rest of `accept_routine` behind `co_accept`, and the task that it resumes up to its `co_poll`.
unfoldable pub hand_over : ℕ → Server → Server
unfolding close_fd
hand_over fd s' =
    let s : Server = record s' { accepted = fd ∷ s'.accepted } in
    elim s.ready [
      | [] ↦ close_fd fd s
      | k ∷ rest ↦
          let conn : Conn = record { fd = fd; recycle = 0; fcgi = new_codec } in
          record s { ready = rest; tasks = update s.tasks k (some conn) }
    ]

-- One round of `accept_routine`; `none` is a negative result of `co_accept`.
unfoldable pub accept_round : Option ℕ → Server → Server
unfolding hand_over
accept_round result s = elim s.ready [
  | [] ↦ s
  | _ ∷ _ ↦ elim result [ none ↦ s | some fd ↦ hand_over fd s ]
]

-- What follows `readData` in the inner loop: the connection to poll again, or none to close it.
unfoldable pub after_read : ErrorCode → Conn → Option Conn
after_read err_ok conn = some (record conn { recycle = 0 })
after_read err_socket_eagain conn =
    if leb max_recycle_count conn.recycle
    then none
    else some (record conn { recycle = conn.recycle + 1 })
after_read err_socket_read conn = none
after_read err_socket_write conn = none
after_read err_socket_finish conn = none

unfoldable pub continue_task : ℕ → Reply → Conn → Server → Server
unfolding after_read park close_fd
continue_task k r conn s =
    let conn' : Conn = record conn { fcgi = r.codec } in
    elim (after_read r.code conn') [
      | some c ↦ record s { tasks = update s.tasks k (some c) }
      | none ↦ park k (close_fd conn.fd s)
    ]

-- What the event loop resumes: `accept_routine`, with what `co_accept` returns, or the task `k`, with
-- what the system calls of `readData` return.
pub data Event : Type 0 where
  accepts : Option ℕ → Event
  polls : (k : ℕ) → ReadResult → Bool → List WriteResult → Event

abbrev pub on_reply : ℕ → Conn → Server → Outcome Reply → Outcome Server
on_reply k conn s (returns r) = returns (continue_task k r conn s)
on_reply k conn s throws = throws
on_reply k conn s waits = waits

-- `throws` is the end of the process: nothing catches what the CGI library throws.
unfoldable pub step : CgiParser → Event → Server → Outcome Server
unfolding accept_round continue_task
step cgi (accepts result) s = returns (accept_round result s)
step cgi (polls k rd errno_again ws) s = elim (s.tasks k) [
  | none ↦ returns s
  | some conn ↦ on_reply k conn s (read_data cgi rd errno_again ws conn.fcgi)
]

abbrev pub then_run : Outcome Server → (Server → Outcome Server) → Outcome Server
then_run (returns s) f = f s
then_run throws f = throws
then_run waits f = waits

unfoldable pub run : CgiParser → List Event → Server → Outcome Server
run cgi [] s = returns s
run cgi (e ∷ es) s = then_run (step cgi e s) (run cgi es)
