-- ===== src/Cocgi/Server/Timeout.antt =====
-- How long a connection without data is kept.
use fastcgi_async_or_corouti.Base.{
  ℕ, zero, suc, ◌+◌, ◌≤◌, ◌<◌, ◌≡◌, refl, sym, ap, ◌∙◌, true, none, some, [], ◌∷◌, replicate, arith,
}
use fastcgi_async_or_corouti.Cgi.{CgiParser}
use fastcgi_async_or_corouti.Cocgi.Session.{
  err_socket_eagain, returns, read_failed, Reply, read_data,
}
use fastcgi_async_or_corouti.Cocgi.Server.{
  Conn, Server, max_recycle_count, update, park, close_fd, continue_task, Event, polls, step, run,
  then_run,
}

-- A poll of the task `k` after which `read` fails with EAGAIN.
abbrev pub idle : ℕ → Event
idle k = polls k read_failed true []

abbrev idle_reply : Conn → Reply
idle_reply conn = record { code = err_socket_eagain; sent = []; calls = []; codec = conn.fcgi }

step-idle :
    (cgi : CgiParser) (k : ℕ) (conn : Conn) (s : Server)
    → s.tasks k ≡ some conn
    → step cgi (idle k) s ≡ returns (continue_task k (idle_reply conn) conn s)
unfolding step read_data
step-idle cgi k conn s e = rw (e, step)

-- One more read without data is borne, or it is the last.
idle_kept :
    (k : ℕ) (conn : Conn) (s : Server)
    → conn.recycle < max_recycle_count
    → continue_task k (idle_reply conn) conn s
      ≡ record s { tasks = update s.tasks k (some (record conn { recycle = conn.recycle + 1 })) }
unfolding continue_task
idle_kept k conn s h = ground arith

idle_closed :
    (k : ℕ) (conn : Conn) (s : Server)
    → max_recycle_count ≤ conn.recycle
    → continue_task k (idle_reply conn) conn s ≡ park k (close_fd conn.fd s)
unfolding continue_task
idle_closed k conn s h = ground arith

-- What the task and the log of closed descriptors are after some reads without data.
abbrev pub Kept : ℕ → Conn → ℕ → Server → Server → Type 0
Kept k conn m s t =
    (t.tasks k ≡ some (record conn { recycle = conn.recycle + m })) × (t.closed ≡ s.closed)

run-idle :
    (cgi : CgiParser) (m k : ℕ) (conn : Conn) (s : Server)
    → s.tasks k ≡ some conn
    → run cgi (idle k ∷ replicate m (idle k)) s
      ≡ run cgi (replicate m (idle k)) (continue_task k (idle_reply conn) conn s)
unfolding run
run-idle cgi m k conn s e =
    ap (λ o. then_run o (run cgi (replicate m (idle k)))) (step-idle cgi k conn s e)

idle-run-Kept :
    (cgi : CgiParser) (m k : ℕ) (conn : Conn) (s : Server)
    → s.tasks k ≡ some conn
    → conn.recycle + m ≤ max_recycle_count
    → (t : Server) × (run cgi (replicate m (idle k)) s ≡ returns t) × Kept k conn m s t
idle-run-Kept cgi zero k conn s e h =
    let same : conn.recycle + 0 ≡ conn.recycle = omega arith in
    (s, unfold run in refl, (e ∙ ap (λ r. some (record conn { recycle = r })) (sym same), refl))
idle-run-Kept cgi (suc m) k conn s e h =
    let conn' : Conn = record conn { recycle = conn.recycle + 1 } in
    let s' : Server = record s { tasks = update s.tasks k (some conn') } in
    let (t, ran, kept) = idle-run-Kept cgi m k conn' s' (ground arith) (omega arith) in
    let sum : conn.recycle + 1 + m ≡ conn.recycle + suc m = omega arith in
    (
      t,
      run-idle cgi m k conn s e
          ∙ ap (run cgi (replicate m (idle k))) (idle_kept k conn s (omega arith))
          ∙ ran,
      (kept.0 ∙ ap (λ r. some (record conn { recycle = r })) sum, kept.1),
    )

-- A connection on which no data comes is kept through 60 reads in a row that fail with EAGAIN, the
-- task serving it still and no descriptor closed; the next such read closes its descriptor, that one
-- alone, and puts the task back on the stack.
pub idle_timeout :
    (cgi : CgiParser) (k : ℕ) (conn : Conn) (s : Server)
    → s.tasks k ≡ some conn
    → conn.recycle ≡ 0
    → (t u : Server) × (run cgi (replicate 60 (idle k)) s ≡ returns t)
      × Kept k conn 60 s t
      × (step cgi (idle k) t ≡ returns u)
      × (u.closed ≡ conn.fd ∷ s.closed)
      × (u.ready ≡ k ∷ t.ready)
      × (u.tasks k ≡ none)
unfolding park close_fd
idle_timeout cgi k conn s e fresh =
    let (t, ran, kept) = idle-run-Kept cgi 60 k conn s e (omega arith) in
    let conn' : Conn = record conn { recycle = conn.recycle + 60 } in
    let u : Server = park k (close_fd conn.fd t) in
    (
      t,
      u,
      ran,
      kept,
      step-idle cgi k conn' t kept.0 ∙ ap returns (idle_closed k conn' t (omega arith)),
      ap (λ c. conn.fd ∷ c) kept.1,
      refl,
      ground arith,
    )
