-- ===== src/Cocgi/Server/Alone.antt =====
-- `readwrite_routine` of cocgi/main.cpp on one connection, as if the process served no other.
use fastcgi_async_or_corouti.Base.{
  ℕ, ◌≡◌, refl, Bool, true, false, Option, none, some, Bytes, ParamMap, List, [], ◌∷◌, ◌++◌, ◌==◌,
  if◌then◌else◌, arith,
}
use fastcgi_async_or_corouti.Cgi.{CgiParser}
use fastcgi_async_or_corouti.Cocgi.Session.{
  WriteResult, ReadResult, Outcome, returns, throws, waits, Reply, read_data,
}
use fastcgi_async_or_corouti.Cocgi.Server.{Conn, Server, after_read, Event, accepts, polls, step}

-- What the system calls of one `readData` return.
pub record Poll : Type 0 where
  pub read : ReadResult
  pub errno_again : Bool
  pub writes : List WriteResult

-- The polls of the task `k` among the events.
unfoldable pub own : ℕ → List Event → List Poll
own k [] = []
own k (accepts result ∷ es) = own k es
own k (polls j rd errno_again ws ∷ es) =
    let rest = own k es in
    if j == k then record { read = rd; errno_again = errno_again; writes = ws } ∷ rest else rest

-- What is done for a connection: the bytes that it is sent, and what each call of the back end prints.
pub record Work : Type 0 where
  pub sent : Bytes
  pub calls : List (ParamMap × ParamMap)

abbrev pub no_work : Work
no_work = record { sent = []; calls = [] }

abbrev pub then_work : Work → Work → Work
then_work w v = record { sent = w.sent ++ v.sent; calls = w.calls ++ v.calls }

abbrev pub reply_work : Outcome Reply → Work
reply_work (returns r) = record { sent = r.sent; calls = r.calls }
reply_work throws = no_work
reply_work waits = no_work

abbrev pub read_work : CgiParser → ReadResult → Bool → List WriteResult → Conn → Work
read_work cgi rd errno_again ws conn = reply_work (read_data cgi rd errno_again ws conn.fcgi)

-- The connection behind a reply, if it is kept.
abbrev pub kept : Conn → Outcome Reply → Option Conn
kept conn (returns r) = after_read r.code (record conn { fcgi = r.codec })
kept conn throws = none
kept conn waits = none

abbrev pub work_first : Work → Option (Conn × Work) → Option (Conn × Work)
work_first w none = none
work_first w (some (c, more)) = some (c, then_work w more)

-- What a task that served this connection alone would do: the connection and all the work on it; none if it
-- is closed on the way.
unfoldable pub serve : CgiParser → List Poll → Conn → Option (Conn × Work)
serve cgi [] conn = some (conn, no_work)
serve cgi (p ∷ ps) conn = elim (kept conn (read_data cgi p.read p.errno_again p.writes conn.fcgi)) [
  | none ↦ none
  | some c ↦ work_first (read_work cgi p.read p.errno_again p.writes conn) (serve cgi ps c)
]

-- What the task `k` does in one step.
abbrev pub work_in : CgiParser → ℕ → Event → Server → Work
work_in cgi k (accepts result) s = no_work
work_in cgi k (polls j rd errno_again ws) s =
    let work : Work = elim (s.tasks k) [
      | none ↦ no_work
      | some conn ↦ read_work cgi rd errno_again ws conn
    ] in
    if j == k then work else no_work

-- What it does in a run.
unfoldable pub work_of : CgiParser → ℕ → List Event → Server → Work
work_of cgi k [] s = no_work
work_of cgi k (e ∷ es) s =
    then_work (work_in cgi k e s)
      (elim (step cgi e s) [ returns t ↦ work_of cgi k es t | throws ↦ no_work | waits ↦ no_work ])

work_first-some :
    (w : Work) (o : Option (Conn × Work)) (c : Conn) (all : Work)
    → work_first w o ≡ some (c, all)
    → (more : Work) × (o ≡ some (c, more)) × (all ≡ then_work w more)
work_first-some w none c all e = absurd (cc)
work_first-some w (some (d, more)) c all e = (more, ground (arith, e), ground (arith, e))

-- The first of the polls in a run of the task alone.
pub serve-first :
    (cgi : CgiParser) (p : Poll) (ps : List Poll) (conn c : Conn) (all : Work)
    → serve cgi (p ∷ ps) conn ≡ some (c, all)
    → (d : Conn) × (more : Work) × (kept conn
          (read_data cgi p.read p.errno_again p.writes conn.fcgi)
        ≡ some d)
      × (serve cgi ps d ≡ some (c, more))
      × (all ≡ then_work (read_work cgi p.read p.errno_again p.writes conn) more)
unfolding serve
serve-first cgi p ps conn c all e = go _ refl e
  where
    go :
        (o : Option Conn)
        → kept conn (read_data cgi p.read p.errno_again p.writes conn.fcgi) ≡ o
        → (elim o [
          | none ↦ none
          | some d ↦ work_first (read_work cgi p.read p.errno_again p.writes conn) (serve cgi ps d)
        ])
          ≡ some (c, all)
        → (d : Conn) × (more : Work) × (kept conn
              (read_data cgi p.read p.errno_again p.writes conn.fcgi)
            ≡ some d)
          × (serve cgi ps d ≡ some (c, more))
          × (all ≡ then_work (read_work cgi p.read p.errno_again p.writes conn) more)
    go none q f = absurd (cc)
    go (some d) q f = let (more, x, y) = work_first-some _ _ c all f in (d, more, q, x, y)

pub own-mine :
    (j k : ℕ) (rd : ReadResult) (errno_again : Bool) (ws : List WriteResult) (es : List Event)
    → (j == k) ≡ true
    → own k (polls j rd errno_again ws ∷ es)
      ≡ record { read = rd; errno_again = errno_again; writes = ws } ∷ own k es
unfolding own
own-mine j k rd errno_again ws es h = rw h refl

pub own-other :
    (j k : ℕ) (rd : ReadResult) (errno_again : Bool) (ws : List WriteResult) (es : List Event)
    → (j == k) ≡ false
    → own k (polls j rd errno_again ws ∷ es) ≡ own k es
unfolding own
own-other j k rd errno_again ws es h = rw h refl

pub work-step :
    (cgi : CgiParser) (k : ℕ) (e : Event) (es : List Event) (s u : Server)
    → step cgi e s ≡ returns u
    → work_of cgi k (e ∷ es) s ≡ then_work (work_in cgi k e s) (work_of cgi k es u)
unfolding work_of
work-step cgi k e es s u h = ground (arith, h)
