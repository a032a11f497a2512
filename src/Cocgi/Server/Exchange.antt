-- ===== src/Cocgi/Server/Exchange.antt =====
-- `readData` on the requests of one connection, one behind the other.
use fastcgi_async_or_corouti.Base.{
  ℕ, suc, ◌≤◌, if◌then◌else◌, ◌≡◌, refl, ap, ◌∙◌, Bool, true, some, Bytes, ParamMap, map, List, [],
  ◌∷◌, ◌++◌, All, length, replicate, ◌==◌, arith,
}
use fastcgi_async_or_corouti.Protocol.{encode_records}
use fastcgi_async_or_corouti.Cgi.{CgiParser}
use fastcgi_async_or_corouti.Cocgi.Kind
use fastcgi_async_or_corouti.Cocgi.Codec.{Codec, new_codec}
use fastcgi_async_or_corouti.Cocgi.Codec.Pieces.{contents}
use fastcgi_async_or_corouti.Cocgi.Codec.Request.{Request, IsRequest, records, IsIdle, received}
use fastcgi_async_or_corouti.Cocgi.Backend.{print_request}
use fastcgi_async_or_corouti.Cocgi.Respond.{respond, output_or_default}
use fastcgi_async_or_corouti.Cocgi.Respond.Stream.{responses}
use fastcgi_async_or_corouti.Cocgi.Session.{
  returns, err_ok, err_socket_finish, WriteResult, got, read_failed, build_response,
  backend_arguments, read_data,
}
use fastcgi_async_or_corouti.Cocgi.Session.Writes.{Progresses}
use fastcgi_async_or_corouti.Cocgi.Session.Reads.{ready, read_data_whole}
use fastcgi_async_or_corouti.Cocgi.Server.{Conn, max_recycle_count, after_read}
use fastcgi_async_or_corouti.Cocgi.Server.Alone.{Poll, kept, Work, no_work, read_work, reply_work}

-- A poll after which `read` fails with EAGAIN.
abbrev pub idle_poll : Poll
idle_poll = record { read = read_failed; errno_again = true; writes = [] }

-- A request, the polls without data before it, the results of the writes behind it, and the two maps that
-- the back end is called with.
pub record Exchange : Type 0 where
  pub waited : ℕ
  pub flags : ℕ
  pub reserved : Bytes
  pub params : List (Bytes × Bytes)
  pub request : Request
  pub errno_again : Bool
  pub writes : List WriteResult
  pub query : ParamMap
  pub header : ParamMap

abbrev pub page : Exchange → Bytes
page x = (print_request x.query x.header).0

abbrev pub response : Exchange → Bytes
response x = respond (page x) []

page_lem : (x : Exchange) → output_or_default (page x) ≡ page x
unfolding print_request
page_lem x = refl

abbrev pub request_poll : Exchange → Poll
request_poll x = record {
  read = got (encode_records (records x.request));
  errno_again = x.errno_again;
  writes = x.writes;
}

unfoldable pub polls_of : List Exchange → List Poll
polls_of [] = []
polls_of (x ∷ xs) = replicate x.waited idle_poll ++ (request_poll x ∷ polls_of xs)

abbrev pub arguments : Exchange → ParamMap × ParamMap
arguments x = (x.query, x.header)

abbrev pub all_work : List Exchange → Work
all_work xs = record { sent = responses (map page xs); calls = map arguments xs }

pub pages_lem : (xs : List Exchange) → map output_or_default (map page xs) ≡ map page xs
pages_lem [] = refl
pages_lem (x ∷ xs) =
    ap (λ b. b ∷ map output_or_default (map page xs)) (page_lem x)
    ∙ ap (λ bs. page x ∷ bs) (pages_lem xs)

module _ (cgi : CgiParser) where
  -- The CGI library accepts the request, and the peer takes the response.
  pub record IsExchange (x : Exchange) : Type 0 where
    pub patient : x.waited ≤ max_recycle_count
    pub is_request : IsRequest x.flags x.reserved x.params x.request
    pub answered :
        (backend_arguments cgi (received x.flags x.params (contents x.request.stdin))).0
        ≡ some (x.query, x.header)
    pub flows : All Progresses x.writes
    pub room : length (response x) ≤ length x.writes

  -- The flags byte of the request is 1 as well.
  pub record IsKept (x : Exchange) : Type 0 where
    pub is_exchange : IsExchange x
    pub keeps : (x.flags == Kind.keep_conn) ≡ true

  pub record IsAtRest (c : Codec) : Type 0 where
    pub is_idle : IsIdle c
    pub no_bytes : c.buf ≡ []

  abbrev pub behind : Conn → Conn
  behind conn = record conn { recycle = 0; fcgi = ready cgi true }

  pub behind-IsAtRest : (conn : Conn) → IsAtRest (behind conn).fcgi
  behind-IsAtRest conn = record {
    is_idle = record { no_stdin = refl; no_params_stream = refl; no_params = refl };
    no_bytes = refl;
  }

  pub new_codec-IsAtRest : IsAtRest new_codec
  new_codec-IsAtRest = record {
    is_idle = record { no_stdin = refl; no_params_stream = refl; no_params = refl };
    no_bytes = refl;
  }

  build_response-some :
      (c : Codec) (x : Exchange)
      → (backend_arguments cgi c).0 ≡ some (x.query, x.header)
      → (build_response cgi c).0 ≡ some (response x, arguments x ∷ [])
  unfolding build_response print_request
  build_response-some c x e = ground (arith, e)

  pub kept-idle :
      (conn : Conn)
      → suc conn.recycle ≤ max_recycle_count
      → kept conn (read_data cgi read_failed true [] conn.fcgi)
        ≡ some (record conn { recycle = suc conn.recycle })
  unfolding read_data after_read
  kept-idle conn h = ground arith

  pub work-idle : (conn : Conn) → read_work cgi read_failed true [] conn ≡ no_work
  unfolding read_data
  work-idle conn = refl

  pub whole_read :
      (x : Exchange) (conn : Conn)
      → IsExchange x
      → IsAtRest conn.fcgi
      → read_data cgi (request_poll x).read x.errno_again x.writes conn.fcgi
        ≡ returns (record {
          code = (if x.flags == Kind.keep_conn then err_ok else err_socket_finish);
          sent = response x;
          calls = arguments x ∷ [];
          codec = ready cgi (x.flags == Kind.keep_conn);
        })
  whole_read x conn h rest =
      read_data_whole cgi x.flags x.reserved x.params x.request conn.fcgi x.errno_again x.writes
        (response x) (arguments x ∷ []) h.is_request rest.is_idle rest.no_bytes
        (build_response-some _ x h.answered) h.flows h.room

  pub kept-exchange :
      (x : Exchange) (conn : Conn)
      → IsKept x
      → IsAtRest conn.fcgi
      → kept conn (read_data cgi (request_poll x).read x.errno_again x.writes conn.fcgi)
        ≡ some (behind conn)
  unfolding after_read
  kept-exchange x conn h rest =
      ap (kept conn) (whole_read x conn h.is_exchange rest) ∙ rw h.keeps refl

  pub work-exchange :
      (x : Exchange) (conn : Conn)
      → IsExchange x
      → IsAtRest conn.fcgi
      → read_work cgi (request_poll x).read x.errno_again x.writes conn
        ≡ record { sent = response x; calls = arguments x ∷ [] }
  work-exchange x conn h rest = ap reply_work (whole_read x conn h rest)
