-- ===== src/Cocgi/Server/Persistent.antt =====
-- `readwrite_routine` of cocgi/main.cpp alone, on one request after another.
use fastcgi_async_or_corouti.Base.{
  ℕ, zero, suc, ◌+◌, ◌≤◌, ◌≡◌, refl, ap, ◌∙◌, Option, none, some, List, [], ◌∷◌, ◌++◌, All,
  replicate, arith,
}
use fastcgi_async_or_corouti.Cgi.{CgiParser}
use fastcgi_async_or_corouti.Cocgi.Respond.Stream.{responses}
use fastcgi_async_or_corouti.Cocgi.Session.{read_data}
use fastcgi_async_or_corouti.Cocgi.Server.{Conn, max_recycle_count}
use fastcgi_async_or_corouti.Cocgi.Server.Alone.{
  Poll, kept, serve, Work, no_work, read_work, work_first,
}
use fastcgi_async_or_corouti.Cocgi.Server.Exchange.{
  idle_poll, Exchange, request_poll, polls_of, response, arguments, all_work, IsAtRest, IsKept,
  behind, behind-IsAtRest, kept-exchange, kept-idle, work-exchange, work-idle,
}

module _ (cgi : CgiParser) where
  work_first-nothing : (o : Option (Conn × Work)) → work_first no_work o ≡ o
  work_first-nothing none = refl
  work_first-nothing (some (c, w)) = refl

  serve-kept :
      (p : Poll) (ps : List Poll) (conn c : Conn) (w : Work)
      → kept conn (read_data cgi p.read p.errno_again p.writes conn.fcgi) ≡ some c
      → read_work cgi p.read p.errno_again p.writes conn ≡ w
      → serve cgi (p ∷ ps) conn ≡ work_first w (serve cgi ps c)
  unfolding serve
  serve-kept p ps conn c w e f =
      ap
        (λ o. elim o [
          | none ↦ none
          | some d ↦ work_first (read_work cgi p.read p.errno_again p.writes conn) (serve cgi ps d)
        ])
        e
      ∙ ap (λ v. work_first v (serve cgi ps c)) f

  serve-exchange :
      (m : ℕ) (x : Exchange) (ps : List Poll) (conn : Conn)
      → conn.recycle + m ≤ max_recycle_count
      → IsKept cgi x
      → IsAtRest cgi conn.fcgi
      → serve cgi (replicate m idle_poll ++ (request_poll x ∷ ps)) conn
        ≡ work_first
            (record { sent = response x; calls = arguments x ∷ [] })
            (serve cgi ps (behind cgi conn))
  serve-exchange zero x ps conn w h rest =
      serve-kept (request_poll x) ps conn (behind cgi conn) _ (kept-exchange cgi x conn h rest)
        (work-exchange cgi x conn h.is_exchange rest)
  serve-exchange (suc m) x ps conn w h rest =
      serve-kept idle_poll _ conn (record conn { recycle = suc conn.recycle }) no_work
        (kept-idle cgi conn (omega arith)) (work-idle cgi conn)
      ∙ work_first-nothing _
      ∙ serve-exchange m x ps (record conn { recycle = suc conn.recycle }) (omega arith) h rest

  pub serve-exchanges :
      (xs : List Exchange) (conn : Conn)
      → All (IsKept cgi) xs
      → IsAtRest cgi conn.fcgi
      → conn.recycle ≡ 0
      → (c : Conn) × (serve cgi (polls_of xs) conn ≡ some (c, all_work xs))
        × (c.fd ≡ conn.fd)
        × IsAtRest cgi c.fcgi
  unfolding polls_of responses
  serve-exchanges [] conn h rest fresh = (conn, unfold serve in refl, refl, rest)
  serve-exchanges (x ∷ xs) conn (first, more) rest fresh =
      let (c, served, same, at_rest) =
        serve-exchanges xs (behind cgi conn) more (behind-IsAtRest cgi conn) refl in
      (
        c,
        serve-exchange x.waited x (polls_of xs) conn
              (omega (arith, first.is_exchange.patient, fresh)) first rest
            ∙ ap (work_first (record { sent = response x; calls = arguments x ∷ [] })) served,
        same,
        at_rest,
      )
