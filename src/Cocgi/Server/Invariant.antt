-- ===== src/Cocgi/Server/Invariant.antt =====
-- Where the tasks are: on the stack or at a connection.
use fastcgi_async_or_corouti.Base.{
  ℕ, zero, suc, ◌+◌, ◌≤◌, ◌≡◌, refl, Option, none, some, List, [], ◌∷◌, ◌==◌, ltb, if◌then◌else◌,
  arith,
}
use fastcgi_async_or_corouti.Cgi.{CgiParser}
use fastcgi_async_or_corouti.Cocgi.Session.{
  ErrorCode, err_ok, err_socket_read, err_socket_write, err_socket_finish, err_socket_eagain,
  Outcome, returns, throws, waits, Reply, read_data,
}
use fastcgi_async_or_corouti.Cocgi.Server.{
  Conn, Server, max_recycle_count, start, accept_round, after_read, continue_task, Event, accepts,
  polls, step, run, on_reply, then_run,
}

unfoldable pub count : ℕ → List ℕ → ℕ
count k [] = 0
count k (j ∷ js) = (if j == k then 1 else 0) + count k js

abbrev pub busy : Option Conn → ℕ
busy none = 0
busy (some c) = 1

abbrev pub Patient : Option Conn → Type 0
Patient none = Unit {0}
Patient (some c) = c.recycle ≤ max_recycle_count

-- Of `n` tasks, each stands on the stack exactly once or serves a connection, and no other task does
-- either; and no connection has waited longer than the bound.
pub record IsValid (n : ℕ) (s : Server) : Type 0 where
  pub once : (k : ℕ) → count k s.ready + busy (s.tasks k) ≡ (if ltb k n then 1 else 0)
  pub bounded : (k : ℕ) → Patient (s.tasks k)

pub start-IsValid : (n : ℕ) → IsValid n (start n)
unfolding start count
start-IsValid zero = record { once = λ k. ground arith; bounded = λ k. tt }
start-IsValid (suc n) = record {
  once = λ k. ground (arith, (start-IsValid n).once k);
  bounded = λ k. ground (arith, (start-IsValid n).bounded k);
}

pub accept_round-IsValid :
    (n : ℕ) (result : Option ℕ) (s : Server) → IsValid n s → IsValid n (accept_round result s)
unfolding accept_round count
accept_round-IsValid n result s v = record {
  once = λ k. ground (arith, v.once k);
  bounded = λ k. ground (arith, v.bounded k);
}

after_read-Patient :
    (code : ErrorCode) (conn : Conn)
    → conn.recycle ≤ max_recycle_count
    → Patient (after_read code conn)
unfolding after_read
after_read-Patient err_ok conn h = omega arith
after_read-Patient err_socket_eagain conn h = ground arith
after_read-Patient err_socket_read conn h = tt
after_read-Patient err_socket_write conn h = tt
after_read-Patient err_socket_finish conn h = tt

continue_task-IsValid :
    (n k : ℕ) (r : Reply) (conn : Conn) (s : Server)
    → s.tasks k ≡ some conn
    → IsValid n s
    → IsValid n (continue_task k r conn s)
unfolding continue_task count
continue_task-IsValid n k r conn s e v = record {
  once = λ j. ground (arith, v.once j, v.once k);
  bounded = λ j.
      ground (
        arith,
        v.bounded j,
        v.bounded k,
        after_read-Patient r.code (record conn { fcgi = r.codec }),
      );
}

-- What a step does, one case for each event and state of the task.
pub data StepCase (cgi : CgiParser) (s t : Server) : Event → Type 0 where
  accepted : (result : Option ℕ) → t ≡ accept_round result s → StepCase cgi s t (accepts result)
  not_serving : (e : Event) → t ≡ s → StepCase cgi s t e
  served :
      (e : Event) (k : ℕ) (conn : Conn) (r : Reply)
      → s.tasks k ≡ some conn
      → t ≡ continue_task k r conn s
      → StepCase cgi s t e

reply-case :
    (cgi : CgiParser) (e : Event) (k : ℕ) (conn : Conn) (s t : Server) (o : Outcome Reply)
    → s.tasks k ≡ some conn
    → on_reply k conn s o ≡ returns t
    → StepCase cgi s t e
reply-case cgi e k conn s t (returns r) h eq = served e k conn r h (ground arith)
reply-case cgi e k conn s t throws h eq = absurd (cc)
reply-case cgi e k conn s t waits h eq = absurd (cc)

pub step-case :
    (cgi : CgiParser) (e : Event) (s t : Server) → step cgi e s ≡ returns t → StepCase cgi s t e
unfolding step
step-case cgi (accepts result) s t eq = accepted result (ground arith)
step-case cgi (polls k rd errno_again ws) s t eq = go (s.tasks k) refl eq
  where
    go :
        (o : Option Conn)
        → s.tasks k ≡ o
        → (elim o [
          | none ↦ returns s
          | some conn ↦ on_reply k conn s (read_data cgi rd errno_again ws conn.fcgi)
        ])
          ≡ returns t
        → StepCase cgi s t (polls k rd errno_again ws)
    go none h q = not_serving _ (ground arith)
    go (some conn) h q = reply-case cgi _ k conn s t _ h q

pub step-IsValid :
    (cgi : CgiParser) (n : ℕ) (e : Event) (s t : Server)
    → IsValid n s
    → StepCase cgi s t e
    → IsValid n t
step-IsValid cgi n e s t v (accepted result q) = rw q (accept_round-IsValid n result s v)
step-IsValid cgi n e s t v (not_serving _ q) = rw q v
step-IsValid cgi n e s t v (served _ k conn r h q) = rw q (continue_task-IsValid n k r conn s h v)

pub then_run-returns :
    (o : Outcome Server) (f : Server → Outcome Server) (t : Server)
    → then_run o f ≡ returns t
    → (u : Server) × (o ≡ returns u) × (f u ≡ returns t)
then_run-returns (returns u) f t h = (u, refl, h)
then_run-returns throws f t h = absurd (cc)
then_run-returns waits f t h = absurd (cc)

run-IsValid :
    (cgi : CgiParser) (n : ℕ) (es : List Event) (s t : Server)
    → IsValid n s
    → run cgi es s ≡ returns t
    → IsValid n t
unfolding run
run-IsValid cgi n [] s t v h = let q : s ≡ t = ground arith in rw (← q) v
run-IsValid cgi n (e ∷ es) s t v h =
    let (u, first, rest) = then_run-returns (step cgi e s) (run cgi es) t h in
    run-IsValid cgi n es u t (step-IsValid cgi n e s u v (step-case cgi e s u first)) rest

-- In every state that a process of `n` tasks reaches, whatever the system calls and the CGI library
-- return, each of its tasks stands on `g_readwrite` exactly once or serves exactly one connection, no
-- other task does either, and no connection has counted more than 60 reads in a row without data.
pub run-start-IsValid :
    (cgi : CgiParser) (n : ℕ) (es : List Event) (t : Server)
    → run cgi es (start n) ≡ returns t
    → IsValid n t
run-start-IsValid cgi n es t h = run-IsValid cgi n es (start n) t (start-IsValid n) h
