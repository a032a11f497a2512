-- ===== src/Cocgi/Session.antt =====
-- `FastCgiCodec::readData` and `doRequest` of cocgi/fastcgi.cpp. What the system calls return comes in
-- as arguments, and the CGI library as a parameter.
pub mod Writes
pub mod Reads
pub mod Forms
pub mod Maps
use fastcgi_async_or_corouti.Base.{
  ℕ, Bool, true, false, ◌&&◌, not, Option, none, some, Bytes, List, [], ◌∷◌, ◌++◌, length, take,
  drop, ltb, if◌then◌else◌, ParamMap, at_key, assign_pairs, codes,
}
use fastcgi_async_or_corouti.Cgi.{CgiData, CgiParser}
use fastcgi_async_or_corouti.Cocgi.Codec.{Codec, parse_fcgi_package}
use fastcgi_async_or_corouti.Cocgi.Codec.Streaming.{fill}
use fastcgi_async_or_corouti.Cocgi.Respond.{respond}
use fastcgi_async_or_corouti.Cocgi.Backend.{print_request}

-- error_code_e
pub data ErrorCode : Type 0 where
  err_ok err_socket_read err_socket_write err_socket_finish err_socket_eagain : ErrorCode

-- What one `write` returns: a number of bytes, or -1 with `errno` equal to EAGAIN or not.
pub data WriteResult : Type 0 where
  wrote : ℕ → WriteResult
  write_failed : Bool → WriteResult

-- What `readFd` returns: the bytes that it added, none of them at the end of the connection; or -1.
pub data ReadResult : Type 0 where
  got : Bytes → ReadResult
  read_failed : ReadResult

-- A call that returns, that a `std::runtime_error` of the CGI library leaves, or that has used up the
-- results of `write` that it is given.
pub data Outcome {ℓ} (A : Type ℓ) : Type ℓ where
  returns : A → Outcome A
  throws : Outcome A
  waits : Outcome A

-- The loop that writes the response; the last argument is what the peer has been sent.
unfoldable pub write_loop : Bytes → List WriteResult → Bytes → Outcome (ErrorCode × Bytes)
write_loop [] ws sent = returns (err_ok, sent)
write_loop (b ∷ bs) [] sent = waits
write_loop (b ∷ bs) (wrote n ∷ ws) sent = write_loop (drop n (b ∷ bs)) ws (sent ++ take n (b ∷ bs))
write_loop (b ∷ bs) (write_failed true ∷ ws) sent = returns (err_socket_eagain, sent)
write_loop (b ∷ bs) (write_failed false ∷ ws) sent = returns (err_socket_write, sent)

-- The code, the bytes that were sent, what each call of the back end has printed, and the state of the
-- codec.
pub record Reply : Type 0 where
  pub code : ErrorCode
  pub sent : Bytes
  pub calls : List (ParamMap × ParamMap)
  pub codec : Codec

abbrev pub with_codec :
    Codec → List (ParamMap × ParamMap) → Outcome (ErrorCode × Bytes) → Outcome Reply
with_codec c calls (returns (code, sent)) =
    returns (record { code = code; sent = sent; calls = calls; codec = c })
with_codec c calls throws = throws
with_codec c calls waits = waits

abbrev pub is_ok : ErrorCode → Bool
is_ok err_ok = true
is_ok _ = false

-- `qmap[name] = value` over the elements, then over the files.
unfoldable pub query_map : CgiData → ParamMap
query_map d = assign_pairs d.files (assign_pairs d.elements [])

-- A copy of the parameters, with `header[name] = value` over the cookies.
unfoldable pub header_map : CgiData → ParamMap → ParamMap
header_map d params = assign_pairs d.cookies params

module _ (cgi : CgiParser) where
  -- The two maps that the back end is called with, or none where the CGI library throws; and the codec
  -- with the keys that `operator[]` inserted, its posted data taken out.
  unfoldable pub backend_arguments : Codec → Option (ParamMap × ParamMap) × Codec
  backend_arguments c =
      let (query_string, p1) = at_key (codes "QUERY_STRING") c.params in
      let (query_type, p2) = at_key (codes "CONTENT_TYPE") p1 in
      let (query_cookie, p3) = at_key (codes "HTTP_COOKIE") p2 in
      let c' : Codec = record c { params = p3; stdin = [] } in
      (
        elim (cgi query_string query_cookie c.stdin query_type) [
          | none ↦ none
          | some d ↦ some (query_map d, header_map d p3)
        ],
        c',
      )

  -- The response to the request that the codec holds, and what the back end prints.
  unfoldable pub build_response : Codec → Option (Bytes × List (ParamMap × ParamMap)) × Codec
  unfolding backend_arguments
  build_response c =
      let (arguments, c') = backend_arguments c in
      (
        elim arguments [
          | none ↦ none
          | some (qmap, header) ↦
              let (res, calls) = print_request qmap header in some (respond res [], calls)
        ],
        c',
      )

  unfoldable pub do_request : Codec → List WriteResult → Outcome Reply
  do_request c ws =
      let (response, c') = build_response c in
      elim response [ none ↦ throws | some (r, calls) ↦ with_codec c' calls (write_loop r ws []) ]

  -- What `readData` does behind `doRequest`.
  abbrev pub finish : Outcome Reply → Outcome Reply
  finish (returns r) =
      let c = r.codec in
      let c' : Codec = record c {
        stdin = [];
        params_stream = [];
        params = [];
        got_request = false;
      } in
      returns (record {
        code = (if not c'.keep_conn && is_ok r.code then err_socket_finish else r.code);
        sent = r.sent;
        calls = r.calls;
        codec = c';
      })
  finish throws = throws
  finish waits = waits

  abbrev pub no_request : ErrorCode → Codec → Outcome Reply
  no_request code c = returns (record { code = code; sent = []; calls = []; codec = c })

  -- `errno_again` says whether `errno` is EAGAIN behind `readFd`.
  unfoldable pub read_data : ReadResult → Bool → List WriteResult → Codec → Outcome Reply
  read_data (got (b ∷ bs)) errno_again ws c =
      let c' = parse_fcgi_package (fill (b ∷ bs) c) in
      let answered = finish (do_request c' ws) in
      if c'.got_request then answered else no_request err_socket_read c'
  read_data (got []) errno_again ws c =
      no_request (if errno_again then err_socket_eagain else err_socket_read) c
  read_data read_failed errno_again ws c =
      no_request (if errno_again then err_socket_eagain else err_socket_read) c
