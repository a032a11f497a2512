-- ===== src/Cocgi/Server/Finished.antt =====
-- `readwrite_routine` of cocgi/main.cpp on the last request of a connection.
use fastcgi_async_or_corouti.Base.{
  ℕ, ◌≡◌, refl, sym, ap, ◌∙◌, false, none, some, List, [], ◌∷◌, ◌++◌, append-nil, append_assoc, All,
  map, length, ◌==◌, arith,
}
use fastcgi_async_or_corouti.Protocol.{encode_records}
use fastcgi_async_or_corouti.Protocol.Stream.{read_pages}
use fastcgi_async_or_corouti.Cgi.{CgiParser}
use fastcgi_async_or_corouti.Cocgi.Kind
use fastcgi_async_or_corouti.Cocgi.Codec.Request.{records}
use fastcgi_async_or_corouti.Cocgi.Respond.Stream.{
  responses, read_pages-responses, length-responses,
}
use fastcgi_async_or_corouti.Cocgi.Session.{got, returns}
use fastcgi_async_or_corouti.Cocgi.Server.{
  Conn, Server, park, close_fd, after_read, continue_task, on_reply, Event, accepts, polls, step,
  run,
}
use fastcgi_async_or_corouti.Cocgi.Server.Invariant.{IsValid}
use fastcgi_async_or_corouti.Cocgi.Server.Alone.{own, Work, then_work, work_in, work_of}
use fastcgi_async_or_corouti.Cocgi.Server.Isolation.{poll-own, work-own}
use fastcgi_async_or_corouti.Cocgi.Server.Exchange.{
  Exchange, page, response, arguments, all_work, pages_lem, polls_of, IsExchange, IsKept, IsAtRest,
  whole_read, work-exchange,
}
use fastcgi_async_or_corouti.Cocgi.Server.Served.{Harmless, served_run}

-- The poll of the task `k` that brings the request.
abbrev pub request_event : ℕ → Exchange → Event
request_event k x = polls k (got (encode_records (records x.request))) x.errno_again x.writes

responses-append :
    (xs : List Exchange) (x : Exchange)
    → responses (map page (xs ++ (x ∷ []))) ≡ responses (map page xs) ++ response x
unfolding responses
responses-append [] x = append-nil (response x)
responses-append (y ∷ xs) x =
    ap (λ r. response y ++ r) (responses-append xs x)
    ∙ sym (append_assoc (response y) (responses (map page xs)) (response x))

arguments-append :
    (xs : List Exchange) (x : Exchange)
    → map arguments (xs ++ (x ∷ [])) ≡ map arguments xs ++ (arguments x ∷ [])
arguments-append [] x = refl
arguments-append (y ∷ xs) x = ap (λ l. arguments y ∷ l) (arguments-append xs x)

module _ (cgi : CgiParser) where
  -- The last reply closes the connection.
  finish-step :
      (k : ℕ) (x : Exchange) (c : Conn) (t : Server)
      → t.tasks k ≡ some c
      → IsAtRest cgi c.fcgi
      → IsExchange cgi x
      → (x.flags == Kind.keep_conn) ≡ false
      → step cgi (request_event k x) t ≡ returns (park k (close_fd c.fd t))
  unfolding continue_task after_read
  finish-step k x c t at rest h last =
      poll-own cgi k _ x.errno_again x.writes c t at
      ∙ ap (on_reply k c t) (whole_read cgi x c h rest)
      ∙ rw last refl

  -- A connection is closed behind the first request whose flags byte is not 1. Let every task be
  -- parked or serve a connection, let `k` be on top of `g_readwrite` and get the descriptor `fd`,
  -- and let any polls and accepts follow, of which those of `k` bring requests whose flags byte is
  -- 1, each with one read, after at most 60 polls without data; let no poll of another task in this
  -- run end the process by an exception of the CGI library or use up the results of its writes; and
  -- let `k` then get one more request, whose flags byte is not 1. If the CGI library accepts each
  -- request and the peer takes at least a byte with each of enough writes, all this returns, and
  -- the last read closes the descriptor, that one alone, and puts the task back on the stack; on
  -- the whole connection the back end has been called once for each request, in their order, and
  -- has printed the maps of that request, and a web server that reads what was sent gets the page
  -- that the back end returns for each, up to the last byte.
  pub connection_finished :
      (n k fd : ℕ) (rest : List ℕ) (es : List Event) (s : Server) (xs : List Exchange)
      (x : Exchange)
      → IsValid n s
      → s.ready ≡ k ∷ rest
      → own k es ≡ polls_of xs
      → All (IsKept cgi) xs
      → Harmless cgi k (accepts (some fd) ∷ es) s
      → IsExchange cgi x
      → (x.flags == Kind.keep_conn) ≡ false
      → (t u : Server) × (run cgi (accepts (some fd) ∷ es) s ≡ returns t)
        × (step cgi (request_event k x) t ≡ returns u)
        × (u.closed ≡ fd ∷ t.closed)
        × (u.ready ≡ k ∷ t.ready)
        × (u.tasks k ≡ none)
        × (w : Work) × (then_work
              (work_of cgi k (accepts (some fd) ∷ es) s)
              (work_in cgi k (request_event k x) t)
            ≡ w)
        × (w.calls ≡ map arguments (xs ++ (x ∷ [])))
        × (read_pages (length w.sent) w.sent ≡ some (map page (xs ++ (x ∷ []))))
  unfolding park close_fd
  connection_finished n k fd rest es s xs x v top mine ok harmless h last =
      let (t, c, ran, at, same, at_rest, work) =
        served_run cgi n k fd rest es s xs v top mine ok harmless in
      let ys : List Exchange = xs ++ (x ∷ []) in
      let done =
        work-own cgi k k _ x.errno_again x.writes c t (ground arith) at
        ∙ work-exchange cgi x c h at_rest in
      (
        t,
        park k (close_fd c.fd t),
        ran,
        finish-step k x c t at at_rest h last,
        ap (λ d. d ∷ t.closed) same,
        refl,
        ground arith,
        then_work (all_work xs) (record { sent = response x; calls = arguments x ∷ [] }),
        ap (λ w. then_work w (work_in cgi k (request_event k x) t)) work
            ∙ ap (then_work (all_work xs)) done,
        sym (arguments-append xs x),
        ap (λ r. read_pages (length r) r) (sym (responses-append xs x))
            ∙ read_pages-responses (map page ys) _ (length-responses (map page ys))
            ∙ ap some (pages_lem ys),
      )
