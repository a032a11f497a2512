-- ===== src/Cocgi/Server/Served.antt =====
-- The coroutines of cocgi/main.cpp on the requests of one connection, among others.
use fastcgi_async_or_corouti.Base.{
  ℕ, ◌≡◌, ◌≢◌, refl, sym, ap, ◌∙◌, ◌⊎◌, inl, inr, Bool-cases, Bool, true, some, List, [], ◌∷◌, All,
  map, length, ◌==◌, ==_iff, arith,
}
use fastcgi_async_or_corouti.Cgi.{CgiParser}
use fastcgi_async_or_corouti.Cocgi.Codec.{new_codec}
use fastcgi_async_or_corouti.Cocgi.Session.{
  WriteResult, ReadResult, Outcome, returns, throws, waits, Reply, read_data,
}
use fastcgi_async_or_corouti.Protocol.Stream.{read_pages}
use fastcgi_async_or_corouti.Cocgi.Respond.Stream.{read_pages-responses, length-responses}
use fastcgi_async_or_corouti.Cocgi.Server.{
  Conn, Server, accept_round, hand_over, continue_task, Event, accepts, polls, on_reply, step, run,
  then_run,
}
use fastcgi_async_or_corouti.Cocgi.Server.Invariant.{IsValid, step-case, step-IsValid}
use fastcgi_async_or_corouti.Cocgi.Server.Isolation.{
  run-serve, own-step, accept-other, poll-other, poll-own,
}
use fastcgi_async_or_corouti.Cocgi.Server.Alone.{
  own, kept, serve, Work, work_of, serve-first, own-mine, own-other, work-step,
}
use fastcgi_async_or_corouti.Cocgi.Server.Exchange.{
  Exchange, page, arguments, all_work, pages_lem, polls_of, IsKept, IsAtRest, new_codec-IsAtRest,
}
use fastcgi_async_or_corouti.Cocgi.Server.Persistent.{serve-exchanges}

-- In the run of these events from this state, no poll of a task other than `k` ends the process or uses
-- up the results of its writes.
unfoldable pub Harmless : CgiParser → ℕ → List Event → Server → Type 0
Harmless cgi k [] s = Unit {0}
Harmless cgi k (accepts result ∷ es) s = Harmless cgi k es (accept_round result s)
Harmless cgi k (polls j rd errno_again ws ∷ es) s =
    ((j ≡ k) ⊎ ((t : Server) × (step cgi (polls j rd errno_again ws) s ≡ returns t)))
    × ((t : Server) → step cgi (polls j rd errno_again ws) s ≡ returns t → Harmless cgi k es t)

module _ (cgi : CgiParser) where
  other-returns :
      (j k : ℕ) (rd : ReadResult) (errno_again : Bool) (ws : List WriteResult) (s : Server)
      → j ≢ k
      → (j ≡ k) ⊎ ((t : Server) × (step cgi (polls j rd errno_again ws) s ≡ returns t))
      → (t : Server) × (step cgi (polls j rd errno_again ws) s ≡ returns t)
  other-returns j k rd errno_again ws s h (inl same) = absurd (h same)
  other-returns j k rd errno_again ws s h (inr t) = t

  kept-returns :
      (conn c : Conn) (o : Outcome Reply) → kept conn o ≡ some c → (r : Reply) × (o ≡ returns r)
  kept-returns conn c (returns r) e = (r, refl)
  kept-returns conn c throws e = absurd (cc)
  kept-returns conn c waits e = absurd (cc)

  own-returns :
      (j k : ℕ) (rd : ReadResult) (errno_again : Bool) (ws : List WriteResult) (conn d : Conn)
      (s : Server)
      → (j == k) ≡ true
      → s.tasks k ≡ some conn
      → kept conn (read_data cgi rd errno_again ws conn.fcgi) ≡ some d
      → (u : Server) × (step cgi (polls j rd errno_again ws) s ≡ returns u)
  own-returns j k rd errno_again ws conn d s mine h e =
      let same : j ≡ k = (==_iff j k).0 mine in
      let (r, replied) = kept-returns conn d _ e in
      (
        continue_task k r conn s,
        ap (λ i. step cgi (polls i rd errno_again ws) s) same
            ∙ poll-own cgi k rd errno_again ws conn s h
            ∙ ap (on_reply k conn s) replied,
      )

  -- A run goes on if a connection that is served alone is kept and no other poll stops it.
  pub run-returns :
      (n k : ℕ) (es : List Event) (s : Server) (conn c : Conn) (all : Work)
      → IsValid n s
      → s.tasks k ≡ some conn
      → Harmless cgi k es s
      → serve cgi (own k es) conn ≡ some (c, all)
      → (t : Server) × (run cgi es s ≡ returns t)
  unfolding run own Harmless
  run-returns n k [] s conn c all v h ok q = (s, refl)
  run-returns n k (accepts result ∷ es) s conn c all v h ok q =
      let u : Server = accept_round result s in
      let first : step cgi (accepts result) s ≡ returns u = unfold step in refl in
      let (t, ran) =
        run-returns n k es u conn c all (step-IsValid cgi n _ s u v (step-case cgi _ s u first))
          (accept-other n k result conn s v h) ok q in
      (t, ap (λ o. then_run o (run cgi es)) first ∙ ran)
  run-returns n k (polls j rd errno_again ws ∷ es) s conn c all v h (fine, ok) q =
      let e = polls j rd errno_again ws in
      elim (Bool-cases (j == k)) [
        | inl mine ↦
            let (d, more, kept_d, later, whole) =
              serve-first cgi _ (own k es) conn c all
                (ap (λ ps. serve cgi ps conn) (sym (own-mine j k rd errno_again ws es mine)) ∙ q) in
            let (u, first) = own-returns j k rd errno_again ws conn d s mine h kept_d in
            let at = own-step cgi j k rd errno_again ws conn d s u mine h kept_d first in
            let (t, ran) =
              run-returns n k es u d c more (step-IsValid cgi n e s u v (step-case cgi e s u first))
                at (ok u first) later in
            (t, ap (λ o. then_run o (run cgi es)) first ∙ ran)
        | inr other ↦
            let apart : j ≢ k = λ same. absurd (ground (arith, other, same)) in
            let (u, first) = other-returns j k rd errno_again ws s apart fine in
            let at = poll-other cgi j k rd errno_again ws s u apart first ∙ h in
            let (t, ran) =
              run-returns n k es u conn c all
                (step-IsValid cgi n e s u v (step-case cgi e s u first)) at (ok u first)
                (ap (λ ps. serve cgi ps conn) (sym (own-other j k rd errno_again ws es other))
                  ∙ q) in
            (t, ap (λ o. then_run o (run cgi es)) first ∙ ran)
      ]

  accepted_lem :
      (k fd : ℕ) (rest : List ℕ) (s : Server)
      → s.ready ≡ k ∷ rest
      → (accept_round (some fd) s).tasks k
        ≡ some (record { fd = fd; recycle = 0; fcgi = new_codec })
  unfolding accept_round hand_over
  accepted_lem k fd rest s e = ground (arith, e)

  -- The run of `connection_served`, with the state of the codec behind it.
  pub served_run :
      (n k fd : ℕ) (rest : List ℕ) (es : List Event) (s : Server) (xs : List Exchange)
      → IsValid n s
      → s.ready ≡ k ∷ rest
      → own k es ≡ polls_of xs
      → All (IsKept cgi) xs
      → Harmless cgi k (accepts (some fd) ∷ es) s
      → (t : Server) × (c : Conn) × (run cgi (accepts (some fd) ∷ es) s ≡ returns t)
        × (t.tasks k ≡ some c)
        × (c.fd ≡ fd)
        × IsAtRest cgi c.fcgi
        × (work_of cgi k (accepts (some fd) ∷ es) s ≡ all_work xs)
  unfolding Harmless
  served_run n k fd rest es s xs v top mine ok harmless =
      let conn : Conn = record { fd = fd; recycle = 0; fcgi = new_codec } in
      let e = accepts (some fd) in
      let u : Server = accept_round (some fd) s in
      let first : step cgi e s ≡ returns u = unfold step in refl in
      let valid = step-IsValid cgi n e s u v (step-case cgi e s u first) in
      let at = accepted_lem k fd rest s top in
      let (c, served, same, at_rest) =
        serve-exchanges cgi xs conn ok (new_codec-IsAtRest cgi) refl in
      let alone = ap (λ ps. serve cgi ps conn) mine ∙ served in
      let (t, ran) = run-returns n k es u conn c (all_work xs) valid at harmless alone in
      let (final, out) = run-serve cgi n k es u t conn c (all_work xs) valid at ran alone in
      (
        t,
        c,
        unfold run in ap (λ o. then_run o (run cgi es)) first ∙ ran,
        final,
        same,
        at_rest,
        work-step cgi k e es s u first ∙ out,
      )

  -- A connection that a process accepts while a task is parked is served whatever other connections
  -- bring meanwhile. In a state in which every task is parked or serves a connection, let `k` be on
  -- top of `g_readwrite`, let `accept_routine` get the descriptor `fd`, and let any polls and
  -- accepts follow, of which those of `k` bring one request after another, each with one read,
  -- after at most 60 polls without data; let the flags byte of each request be 1, the CGI library
  -- accept it, and the peer take at least a byte with each of enough writes; and let no poll of
  -- another task in this run end the process by an exception of the CGI library or use up the
  -- results of its writes. Then the run returns, the task `k` serves the descriptor still, the back
  -- end has been called in it once for each request, in their order, and has printed the maps of
  -- that request, and a web server that reads what `k` has sent gets the page that the back end
  -- returns for each, up to the last byte.
  pub connection_served :
      (n k fd : ℕ) (rest : List ℕ) (es : List Event) (s : Server) (xs : List Exchange)
      → IsValid n s
      → s.ready ≡ k ∷ rest
      → own k es ≡ polls_of xs
      → All (IsKept cgi) xs
      → Harmless cgi k (accepts (some fd) ∷ es) s
      → (t : Server) × (c : Conn) × (run cgi (accepts (some fd) ∷ es) s ≡ returns t)
        × (t.tasks k ≡ some c)
        × (c.fd ≡ fd)
        × (w : Work) × (work_of cgi k (accepts (some fd) ∷ es) s ≡ w)
        × (w.calls ≡ map arguments xs)
        × (read_pages (length w.sent) w.sent ≡ some (map page xs))
  connection_served n k fd rest es s xs v top mine ok harmless =
      let (t, c, ran, at, same, _, work) = served_run n k fd rest es s xs v top mine ok harmless in
      (
        t,
        c,
        ran,
        at,
        same,
        all_work xs,
        work,
        refl,
        read_pages-responses (map page xs) _ (length-responses (map page xs))
            ∙ ap some (pages_lem xs),
      )
