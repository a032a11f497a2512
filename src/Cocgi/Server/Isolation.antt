-- ===== src/Cocgi/Server/Isolation.antt =====
-- `readwrite_routine` of cocgi/main.cpp among the other tasks of a process.
use fastcgi_async_or_corouti.Base.{
  ℕ, ◌≡◌, ◌≢◌, refl, sym, ap, ◌∙◌, inl, inr, Bool-cases, Bool, true, false, Option, none, some,
  List, [], ◌∷◌, ◌==◌, ==_iff, arith,
}
use fastcgi_async_or_corouti.Cgi.{CgiParser}
use fastcgi_async_or_corouti.Cocgi.Session.{
  WriteResult, ReadResult, Outcome, returns, throws, waits, Reply, read_data,
}
use fastcgi_async_or_corouti.Cocgi.Server.{
  Conn, Server, accept_round, continue_task, Event, accepts, polls, on_reply, step, run,
}
use fastcgi_async_or_corouti.Cocgi.Server.Invariant.{
  count, IsValid, step-case, step-IsValid, then_run-returns,
}
use fastcgi_async_or_corouti.Cocgi.Server.Alone.{
  own, kept, serve, Work, no_work, then_work, read_work, work_in, work_of, serve-first, own-mine,
  own-other, work-step,
}

pub accept-other :
    (n k : ℕ) (result : Option ℕ) (conn : Conn) (s : Server)
    → IsValid n s
    → s.tasks k ≡ some conn
    → (accept_round result s).tasks k ≡ some conn
unfolding accept_round count
accept-other n k result conn s v e = ground (arith, v.once k)

continue-other :
    (j k : ℕ) (r : Reply) (conn : Conn) (s : Server)
    → j ≢ k
    → (continue_task j r conn s).tasks k ≡ s.tasks k
unfolding continue_task
continue-other j k r conn s h = ground arith

reply-other :
    (j k : ℕ) (conn : Conn) (s t : Server) (o : Outcome Reply)
    → j ≢ k
    → on_reply j conn s o ≡ returns t
    → t.tasks k ≡ s.tasks k
reply-other j k conn s t (returns r) h e =
    let same : continue_task j r conn s ≡ t = ground (arith, e) in
    rw (← same) (continue-other j k r conn s h)
reply-other j k conn s t throws h e = absurd (cc)
reply-other j k conn s t waits h e = absurd (cc)

-- A poll of another task leaves this one as it is.
pub poll-other :
    (cgi : CgiParser) (j k : ℕ) (rd : ReadResult) (errno_again : Bool) (ws : List WriteResult)
    (s t : Server)
    → j ≢ k
    → step cgi (polls j rd errno_again ws) s ≡ returns t
    → t.tasks k ≡ s.tasks k
unfolding step
poll-other cgi j k rd errno_again ws s t h e = go (s.tasks j) e
  where
    go :
        (o : Option Conn)
        → (elim o [
          | none ↦ returns s
          | some conn ↦ on_reply j conn s (read_data cgi rd errno_again ws conn.fcgi)
        ])
          ≡ returns t
        → t.tasks k ≡ s.tasks k
    go none q = let same : s ≡ t = ground (arith, q) in rw same refl
    go (some conn) q = reply-other j k conn s t _ h q

pub poll-own :
    (cgi : CgiParser) (k : ℕ) (rd : ReadResult) (errno_again : Bool) (ws : List WriteResult)
    (conn : Conn) (s : Server)
    → s.tasks k ≡ some conn
    → step cgi (polls k rd errno_again ws) s
      ≡ on_reply k conn s (read_data cgi rd errno_again ws conn.fcgi)
unfolding step
poll-own cgi k rd errno_again ws conn s e = rw (e, step)

kept-step :
    (k : ℕ) (conn : Conn) (s t : Server) (o : Outcome Reply) (c : Conn)
    → kept conn o ≡ some c
    → on_reply k conn s o ≡ returns t
    → t.tasks k ≡ some c
unfolding continue_task
kept-step k conn s t (returns r) c h e = ground (arith, h, e)
kept-step k conn s t throws c h e = absurd (cc)
kept-step k conn s t waits c h e = absurd (cc)

work-other :
    (cgi : CgiParser) (j k : ℕ) (rd : ReadResult) (errno_again : Bool) (ws : List WriteResult)
    (s : Server)
    → (j == k) ≡ false
    → work_in cgi k (polls j rd errno_again ws) s ≡ no_work
work-other cgi j k rd errno_again ws s h = rw h refl

pub work-own :
    (cgi : CgiParser) (j k : ℕ) (rd : ReadResult) (errno_again : Bool) (ws : List WriteResult)
    (conn : Conn) (s : Server)
    → (j == k) ≡ true
    → s.tasks k ≡ some conn
    → work_in cgi k (polls j rd errno_again ws) s ≡ read_work cgi rd errno_again ws conn
work-own cgi j k rd errno_again ws conn s h e = rw (h, e) refl

-- The own poll of a task: its connection is then the one that `serve` goes on with.
pub own-step :
    (cgi : CgiParser) (j k : ℕ) (rd : ReadResult) (errno_again : Bool) (ws : List WriteResult)
    (conn d : Conn) (s u : Server)
    → (j == k) ≡ true
    → s.tasks k ≡ some conn
    → kept conn (read_data cgi rd errno_again ws conn.fcgi) ≡ some d
    → step cgi (polls j rd errno_again ws) s ≡ returns u
    → u.tasks k ≡ some d
own-step cgi j k rd errno_again ws conn d s u mine h e first =
    let same : j ≡ k = (==_iff j k).0 mine in
    kept-step k conn s u _ d e (
      sym (poll-own cgi k rd errno_again ws conn s h)
      ∙ ap (λ i. step cgi (polls i rd errno_again ws) s) (sym same)
      ∙ first)

run-nil :
    (cgi : CgiParser) (k : ℕ) (s t : Server) (conn c : Conn) (all : Work)
    → s.tasks k ≡ some conn
    → run cgi [] s ≡ returns t
    → serve cgi [] conn ≡ some (c, all)
    → (t.tasks k ≡ some c) × (work_of cgi k [] s ≡ all)
unfolding run serve work_of
run-nil cgi k s t conn c all h r q =
    let same : s ≡ t = ground (arith, r) in
    let kept_conn : conn ≡ c = ground (arith, q) in
    let nothing : no_work ≡ all = ground (arith, q) in
    (ap (λ x. x.tasks k) (sym same) ∙ h ∙ ap some kept_conn, nothing)

step-accepts :
    (cgi : CgiParser) (result : Option ℕ) (s u : Server)
    → step cgi (accepts result) s ≡ returns u
    → accept_round result s ≡ u
unfolding step
step-accepts cgi result s u e = ground (arith, e)

-- What a task does for its connection in a run of the process depends on its own polls only. In a state
-- in which every task is parked or serves a connection, let the task `k` serve one. If the run returns,
-- and if the connection, served alone with the results that the polls of `k` in that run meet, is kept,
-- then after the run `k` serves the same connection in the same state, has sent the same bytes and has
-- called the back end with the same maps as if it were served alone, whatever the other tasks and
-- `accept_routine` do in between.
pub run-serve :
    (cgi : CgiParser) (n k : ℕ) (es : List Event) (s t : Server) (conn c : Conn) (all : Work)
    → IsValid n s
    → s.tasks k ≡ some conn
    → run cgi es s ≡ returns t
    → serve cgi (own k es) conn ≡ some (c, all)
    → (t.tasks k ≡ some c) × (work_of cgi k es s ≡ all)
unfolding run own
run-serve cgi n k [] s t conn c all v h r q = run-nil cgi k s t conn c all h r q
run-serve cgi n k (accepts result ∷ es) s t conn c all v h r q =
    let (u, first, rest) = then_run-returns (step cgi (accepts result) s) (run cgi es) t r in
    let at : u.tasks k ≡ some conn =
      rw (← step-accepts cgi result s u first) (accept-other n k result conn s v h) in
    let (final, out) =
      run-serve cgi n k es u t conn c all
        (step-IsValid cgi n (accepts result) s u v (step-case cgi (accepts result) s u first)) at
        rest q in
    (final, work-step cgi k (accepts result) es s u first ∙ out)
run-serve cgi n k (polls j rd errno_again ws ∷ es) s t conn c all v h r q =
    let e = polls j rd errno_again ws in
    let (u, first, rest) = then_run-returns (step cgi e s) (run cgi es) t r in
    let valid = step-IsValid cgi n e s u v (step-case cgi e s u first) in
    elim (Bool-cases (j == k)) [
      | inl mine ↦
          let (d, more, kept_d, later, whole) =
            serve-first cgi _ (own k es) conn c all
              (ap (λ ps. serve cgi ps conn) (sym (own-mine j k rd errno_again ws es mine)) ∙ q) in
          let at = own-step cgi j k rd errno_again ws conn d s u mine h kept_d first in
          let (final, out) = run-serve cgi n k es u t d c more valid at rest later in
          (
            final,
            work-step cgi k e es s u first
                ∙ ap (λ x. then_work x (work_of cgi k es u))
                    (work-own cgi j k rd errno_again ws conn s mine h)
                ∙ ap (then_work (read_work cgi rd errno_again ws conn)) out
                ∙ sym whole,
          )
      | inr other ↦
          let at =
            poll-other cgi j k rd errno_again ws s u (λ same. absurd (ground (arith, other, same)))
              first
            ∙ h in
          let (final, out) =
            run-serve cgi n k es u t conn c all valid at rest
              (ap (λ ps. serve cgi ps conn) (sym (own-other j k rd errno_again ws es other)) ∙ q) in
          (
            final,
            work-step cgi k e es s u first
                ∙ ap (λ x. then_work x (work_of cgi k es u))
                    (work-other cgi j k rd errno_again ws s other)
                ∙ out,
          )
    ]
