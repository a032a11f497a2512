-- ===== src/Tests/Isolation.antt =====
-- What one task does in a run of a process, at concrete inputs.
use fastcgi_async_or_corouti.Base.{◌≡◌, refl, some, inl, inr, List, [], ◌∷◌}
use fastcgi_async_or_corouti.Cgicc.Forms.{cgicc}
use fastcgi_async_or_corouti.Cocgi.Session.{returns}
use fastcgi_async_or_corouti.Cocgi.Server.{
  Conn, Server, Event, start, park, accept_round, hand_over, run,
}
use fastcgi_async_or_corouti.Cocgi.Server.Invariant.{IsValid, start-IsValid, accept_round-IsValid}
use fastcgi_async_or_corouti.Cocgi.Server.Timeout.{idle}
use fastcgi_async_or_corouti.Cocgi.Server.Alone.{own, serve, work_of}
use fastcgi_async_or_corouti.Cocgi.Server.Isolation.{run-serve}
use fastcgi_async_or_corouti.Cocgi.Server.Exchange.{
  polls_of, new_codec-IsAtRest, IsAtRest, all_work,
}
use fastcgi_async_or_corouti.Cocgi.Server.Persistent.{serve-exchanges}
use fastcgi_async_or_corouti.Cocgi.Server.Served.{Harmless, run-returns}
use fastcgi_async_or_corouti.Tests.Served.{
  exchange, exchange-IsKept, whole_event, part_event, first, both, second_closed, part_step,
}

-- The task 0 reads a part of a request and closes its connection, the task 1 gets a request.
abbrev both_events : List Event
both_events = part_event ∷ idle 1 ∷ idle 1 ∷ whole_event 1 ∷ []

both-IsValid : IsValid 2 both
both-IsValid =
    accept_round-IsValid 2 (some 8) _ (accept_round-IsValid 2 (some 7) _ (start-IsValid 2))

first_serves : both.tasks 1 ≡ some first
unfolding accept_round hand_over start park
first_serves = refl

one_alone :
    (c : Conn) × (serve cgicc (polls_of (exchange ∷ [])) first ≡ some (c, all_work (exchange ∷ [])))
    × (c.fd ≡ 7)
    × IsAtRest cgicc c.fcgi
one_alone =
    serve-exchanges cgicc (exchange ∷ []) first (exchange-IsKept, tt) (new_codec-IsAtRest cgicc)
      refl

own_alone : serve cgicc (own 1 both_events) first ≡ some (one_alone.0, all_work (exchange ∷ []))
unfolding own polls_of
own_alone = one_alone.1

both_events-Harmless : Harmless cgicc 1 both_events both
unfolding Harmless
both_events-Harmless = (
  inr (second_closed, part_step),
  λ _ _. (inl refl, λ _ _. (inl refl, λ _ _. (inl refl, λ _ _. tt))),
)

both-run : (t : Server) × (run cgicc both_events both ≡ returns t)
both-run =
    run-returns cgicc 2 1 both_events both first one_alone.0 (all_work (exchange ∷ [])) both-IsValid
      first_serves both_events-Harmless own_alone

run-serve_example :
    (both-run.0.tasks 1 ≡ some one_alone.0)
    × (work_of cgicc 1 both_events both ≡ all_work (exchange ∷ []))
run-serve_example =
    run-serve cgicc 2 1 both_events both both-run.0 first one_alone.0 (all_work (exchange ∷ []))
      both-IsValid first_serves both-run.1 own_alone
