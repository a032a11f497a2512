-- ===== src/Tests/Served.antt =====
-- Runs of a process that serves several connections.
use fastcgi_async_or_corouti.Base.{
  none, ◌≡◌, refl, false, true, some, inl, inr, ℕ, Bool, Option, sym, ap, ◌∙◌, List, [], ◌∷◌, ◌++◌,
  length, map, replicate, arith,
}
use fastcgi_async_or_corouti.Protocol.{encode_records}
use fastcgi_async_or_corouti.Protocol.Stream.{read_pages}
use fastcgi_async_or_corouti.Cgicc.Forms.{cgicc}
use fastcgi_async_or_corouti.Tests.Data.{reserved}
use fastcgi_async_or_corouti.Tests.Forms.{
  query, cookies, pairs, body, request, request-IsRequest, pairs-Carries, posted_lem,
}
use fastcgi_async_or_corouti.Cocgi.Session.Forms.{query_of, header_of, arguments_lem}
use fastcgi_async_or_corouti.Cocgi.Header.{store_header}
use fastcgi_async_or_corouti.Cocgi.Backend.{print_request}
use fastcgi_async_or_corouti.Cocgi.Codec.{Codec, new_codec, parse_step, parse_fcgi_package}
use fastcgi_async_or_corouti.Cocgi.Codec.Pieces.{begin_body}
use fastcgi_async_or_corouti.Cocgi.Codec.Request.{Request, IsRequest, records}
use fastcgi_async_or_corouti.Cocgi.Respond.{
  respond, append_output, append_stdout, end_request, end_stdout,
}
use fastcgi_async_or_corouti.Cocgi.Session.{
  WriteResult, ReadResult, returns, got, wrote, read_failed, Reply, read_data,
}
use fastcgi_async_or_corouti.Cocgi.Server.{
  Conn, Server, Event, accepts, polls, start, park, close_fd, on_reply, after_read, continue_task,
  accept_round, hand_over, step, run,
}
use fastcgi_async_or_corouti.Cocgi.Server.Invariant.{start-IsValid}
use fastcgi_async_or_corouti.Cocgi.Server.Timeout.{idle}
use fastcgi_async_or_corouti.Cocgi.Server.Alone.{own, Work, then_work, work_in, work_of}
use fastcgi_async_or_corouti.Cocgi.Server.Isolation.{poll-own}
use fastcgi_async_or_corouti.Cocgi.Server.Exchange.{
  Exchange, IsExchange, IsKept, polls_of, page, arguments, whole_read, new_codec-IsAtRest,
}
use fastcgi_async_or_corouti.Cocgi.Server.Served.{Harmless, connection_served}
use fastcgi_async_or_corouti.Cocgi.Server.Finished.{request_event, connection_finished}

-- A request with a form of two fields and a file, after two polls without data.
abbrev pub exchange : Exchange
exchange = record {
  waited = 2;
  flags = 1;
  reserved = reserved;
  params = pairs;
  request = request;
  errno_again = false;
  writes = replicate 130 (wrote 4096);
  query = query_of body query;
  header = header_of pairs cookies;
}

exchange-IsExchange : IsExchange cgicc exchange
unfolding respond append_output append_stdout end_request end_stdout store_header print_request
exchange-IsExchange = record {
  patient = omega arith;
  is_request = request-IsRequest;
  answered = rw posted_lem (arguments_lem 1 pairs body query cookies pairs-Carries);
  flows = omega arith;
  room = omega arith;
}

pub exchange-IsKept : IsKept cgicc exchange
exchange-IsKept = record { is_exchange = exchange-IsExchange; keeps = refl }

abbrev twice : List Exchange
twice = exchange ∷ exchange ∷ []

-- The task `k` reads the whole request.
abbrev pub whole_event : ℕ → Event
whole_event k = polls k (got (encode_records (records request))) false (replicate 130 (wrote 4096))

abbrev pub part_event : Event
part_event = polls 0 (got (1 ∷ 1 ∷ 0 ∷ [])) false []

abbrev later_events : List Event
later_events =
    idle 1
    ∷ idle 0
    ∷ idle 1
    ∷ whole_event 1
    ∷ idle 1
    ∷ polls 0 (got []) false []
    ∷ idle 1
    ∷ whole_event 1
    ∷ []

-- The task 1 gets the request twice. Meanwhile the task 0 gets a connection that brings a part of a request,
-- and then one that brings a whole request.
abbrev events : List Event
events = accepts (some 8) ∷ part_event ∷ accepts (some 9) ∷ whole_event 0 ∷ later_events

events-own : own 1 events ≡ polls_of twice
unfolding own polls_of
events-own = refl

-- A poll that returns on every codec returns in every state.
poll-returns :
    (k : ℕ) (rd : ReadResult) (errno_again : Bool) (ws : List WriteResult) (s : Server)
    → ((c : Codec) → (r : Reply) × (read_data cgicc rd errno_again ws c ≡ returns r))
    → (t : Server) × (step cgicc (polls k rd errno_again ws) s ≡ returns t)
unfolding step
poll-returns k rd errno_again ws s f = go (s.tasks k)
  where
    go :
        (o : Option Conn)
        → (t : Server) × ((elim o [
          | none ↦ returns s
          | some conn ↦ on_reply k conn s (read_data cgicc rd errno_again ws conn.fcgi)
        ])
            ≡ returns t)
    go none = (s, refl)
    go (some conn) = let (r, e) = f conn.fcgi in (_, ap (on_reply k conn s) e)

closes : (c : Codec) → (r : Reply) × (read_data cgicc (got []) false [] c ≡ returns r)
unfolding read_data
closes c = (_, refl)

waits_on : (c : Codec) → (r : Reply) × (read_data cgicc read_failed true [] c ≡ returns r)
unfolding read_data
waits_on c = (_, refl)

later_events-Harmless : (s : Server) → Harmless cgicc 1 later_events s
unfolding Harmless
later_events-Harmless s0 = (
  inl refl,
  λ s1 _. (
    inr (poll-returns 0 read_failed true [] s1 waits_on),
    λ _ _. (
      inl refl,
      λ _ _. (
        inl refl,
        λ _ _. (
          inl refl,
          λ s5 _. (
            inr (poll-returns 0 (got []) false [] s5 closes),
            λ _ _. (inl refl, λ _ _. (inl refl, λ _ _. tt)),
          ),
        ),
      ),
    ),
  ),
)

start_ready : (start 2).ready ≡ 1 ∷ 0 ∷ []
unfolding start park
start_ready = refl

-- Two connections that both tasks serve, and the state behind the close of the second.
abbrev pub first : Conn
first = record { fd = 7; recycle = 0; fcgi = new_codec }

abbrev second : Conn
second = record { fd = 8; recycle = 0; fcgi = new_codec }

abbrev pub both : Server
both = accept_round (some 8) (accept_round (some 7) (start 2))

abbrev third : Conn
third = record { fd = 9; recycle = 0; fcgi = new_codec }

abbrev pub second_closed : Server
second_closed = park 0 (close_fd 8 both)

pub part_step : step cgicc part_event both ≡ returns second_closed
unfolding step read_data parse_fcgi_package parse_step accept_round hand_over start park close_fd
    after_read continue_task
part_step = refl

third_serves : (accept_round (some 9) second_closed).tasks 0 ≡ some third
unfolding accept_round hand_over start park close_fd
third_serves = refl

whole_step :
    (t : Server) × (step cgicc (whole_event 0) (accept_round (some 9) second_closed) ≡ returns t)
whole_step =
    let s : Server = accept_round (some 9) second_closed in
    (
      _,
      poll-own cgicc 0 _ false (replicate 130 (wrote 4096)) third s third_serves
          ∙ ap (on_reply 0 third s)
              (whole_read cgicc exchange third exchange-IsExchange (new_codec-IsAtRest cgicc)),
    )

events-Harmless : Harmless cgicc 1 (accepts (some 7) ∷ events) (start 2)
unfolding Harmless
events-Harmless = (
  inr (second_closed, part_step),
  λ t e.
      let same : second_closed ≡ t = ground (arith, sym part_step ∙ e) in
      rw (← same) (inr whole_step, λ u _. later_events-Harmless u),
)

connection_served_example :
    (t : Server) × (c : Conn) × (run cgicc (accepts (some 7) ∷ events) (start 2) ≡ returns t)
    × (t.tasks 1 ≡ some c)
    × (c.fd ≡ 7)
    × (w : Work) × (work_of cgicc 1 (accepts (some 7) ∷ events) (start 2) ≡ w)
    × (w.calls ≡ map arguments twice)
    × (read_pages (length w.sent) w.sent ≡ some (map page twice))
connection_served_example =
    connection_served cgicc 2 1 7 (0 ∷ []) events (start 2) twice (start-IsValid 2) start_ready
      events-own (exchange-IsKept, (exchange-IsKept, tt)) events-Harmless

-- A request whose flags byte is zero.
abbrev last_request : Request
last_request = record request {
  begin = record { type = 1; id = 1; content = begin_body 1 0 reserved; padding = [] };
}

last_request-IsRequest : IsRequest 0 reserved pairs last_request
last_request-IsRequest = record {
  begin_valid = omega arith;
  begin_type = refl;
  begin_content = refl;
  begin_long = omega arith;
  params_pieces = request-IsRequest.params_pieces;
  params_content = request-IsRequest.params_content;
  params_short = request-IsRequest.params_short;
  params_end = request-IsRequest.params_end;
  stdin_pieces = request-IsRequest.stdin_pieces;
  stdin_end = request-IsRequest.stdin_end;
}

abbrev last_exchange : Exchange
last_exchange = record exchange { flags = 0; request = last_request }

last_exchange-IsExchange : IsExchange cgicc last_exchange
last_exchange-IsExchange = record {
  patient = omega arith;
  is_request = last_request-IsRequest;
  answered = rw posted_lem (arguments_lem 0 pairs body query cookies pairs-Carries);
  flows = exchange-IsExchange.flows;
  room = exchange-IsExchange.room;
}

connection_finished_example :
    (t u : Server) × (run cgicc (accepts (some 7) ∷ events) (start 2) ≡ returns t)
    × (step cgicc (request_event 1 last_exchange) t ≡ returns u)
    × (u.closed ≡ 7 ∷ t.closed)
    × (u.ready ≡ 1 ∷ t.ready)
    × (u.tasks 1 ≡ none)
    × (w : Work) × (then_work
          (work_of cgicc 1 (accepts (some 7) ∷ events) (start 2))
          (work_in cgicc 1 (request_event 1 last_exchange) t)
        ≡ w)
    × (w.calls ≡ map arguments (twice ++ (last_exchange ∷ [])))
    × (read_pages (length w.sent) w.sent ≡ some (map page (twice ++ (last_exchange ∷ []))))
connection_finished_example =
    connection_finished cgicc 2 1 7 (0 ∷ []) events (start 2) twice last_exchange (start-IsValid 2)
      start_ready events-own (exchange-IsKept, (exchange-IsKept, tt)) events-Harmless
      last_exchange-IsExchange refl
