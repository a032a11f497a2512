-- ===== src/Cocgi/Session/Reads.antt =====
-- `readData` on whole requests, on parts of requests, and in general.
use fastcgi_async_or_corouti.Base.{
  ℕ, ◌≤◌, ◌<◌, ◌≡◌, refl, ◌∙◌, ap, ParamMap, Bool, true, false, none, some, Bytes, List, [], ◌∷◌,
  ◌++◌, All, length, length-append, not, ◌&&◌, ◌==◌, if◌then◌else◌, arith,
}
use fastcgi_async_or_corouti.Protocol.{encode_record, encode_records, length-encode_record}
use fastcgi_async_or_corouti.Cgi.{CgiParser}
use fastcgi_async_or_corouti.Cocgi.Kind
use fastcgi_async_or_corouti.Cocgi.Codec.{Codec, new_codec, parse_fcgi_package}
use fastcgi_async_or_corouti.Cocgi.Codec.Streaming.{fill}
use fastcgi_async_or_corouti.Cocgi.Codec.Pieces.{with_buf, contents}
use fastcgi_async_or_corouti.Cocgi.Codec.Request.{
  Request, IsRequest, records, IsIdle, received, parse-encode_records,
}
use fastcgi_async_or_corouti.Cocgi.Codec.Prefix.{parse_prefix}
use fastcgi_async_or_corouti.Cocgi.Session.{
  ErrorCode, err_ok, err_socket_read, err_socket_finish, WriteResult, ReadResult, got, read_failed,
  Outcome, returns, throws, waits, write_loop, Reply, with_codec, is_ok, build_response, do_request,
  finish, no_request, read_data,
}
use fastcgi_async_or_corouti.Cocgi.Session.Writes.{Progresses, write_loop_total}

pub records-pos : (q : Request) → 0 < length (encode_records (records q))
unfolding encode_records
records-pos q = omega (
  arith,
  length-append (encode_record q.begin)
      (encode_records (q.params ++ (q.params_last ∷ (q.stdin ++ (q.stdin_last ∷ []))))),
  length-encode_record q.begin,
)

module _ (cgi : CgiParser) where
  -- `readData` on a read that delivers bytes.
  read_data-got :
      (s : Bytes) (errno_again : Bool) (ws : List WriteResult) (c : Codec)
      → 0 < length s
      → read_data cgi (got s) errno_again ws c ≡ (
          if (parse_fcgi_package (fill s c)).got_request
          then finish cgi (do_request cgi (parse_fcgi_package (fill s c)) ws)
          else no_request cgi err_socket_read (parse_fcgi_package (fill s c)))
  unfolding read_data
  read_data-got [] errno_again ws c h = absurd (omega arith)
  read_data-got (b ∷ bs) errno_again ws c h = refl

  -- A request whose bytes do not all come with the first read is never answered: `readData` takes that
  -- read, answers nothing and returns ERR_SOCKET_READ, wherever the bytes are cut.
  pub read_data_partial :
      (flags : ℕ) (reserved : Bytes) (ps : List (Bytes × Bytes)) (q : Request) (front back : Bytes)
      (errno_again : Bool) (ws : List WriteResult)
      → IsRequest flags reserved ps q
      → front ++ back ≡ encode_records (records q)
      → 0 < length front
      → 0 < length back
      → read_data cgi (got front) errno_again ws new_codec
        ≡ no_request cgi err_socket_read (parse_fcgi_package (with_buf front new_codec))
  read_data_partial flags reserved ps q front back errno_again ws h e some_bytes more =
      read_data-got front errno_again ws new_codec some_bytes
      ∙ rw (parse_prefix flags reserved ps q new_codec front back h e more)

  -- The codec between two requests.
  abbrev pub ready : Bool → Codec
  ready keep = record new_codec { keep_conn = keep }

  do_request-some :
      (c : Codec) (ws : List WriteResult) (r : Bytes) (calls : List (ParamMap × ParamMap))
      → (build_response cgi c).0 ≡ some (r, calls)
      → do_request cgi c ws ≡ with_codec (build_response cgi c).1 calls (write_loop r ws [])
  unfolding do_request
  do_request-some c ws r calls e = rw (e, do_request)

  do_request-none :
      (c : Codec) (ws : List WriteResult)
      → (build_response cgi c).0 ≡ none
      → do_request cgi c ws ≡ throws
  unfolding do_request
  do_request-none c ws e = rw (e, do_request)

  -- What is left of a codec that has received a request, once that is answered.
  finish-returns :
      (code : ErrorCode) (sent : Bytes) (calls : List (ParamMap × ParamMap)) (c : Codec)
      → c.buf ≡ []
      → finish cgi (with_codec (build_response cgi c).1 calls (returns (code, sent)))
        ≡ returns (record {
          code = (if not c.keep_conn && is_ok code then err_socket_finish else code);
          sent = sent;
          calls = calls;
          codec = ready c.keep_conn;
        })
  unfolding build_response
  finish-returns code sent calls c e = rw e

  -- A request that comes with one read on a connection where none is under way is answered: if the
  -- CGI library accepts it and the peer takes the bytes, the peer is sent the whole response, the
  -- back end is called as it is in building that response and no more, the codec is ready for the
  -- next one, and `readData` returns ERR_OK if the flags byte of the request is 1 and
  -- ERR_SOCKET_FINISH if it is not.
  pub read_data_whole :
      (flags : ℕ) (reserved : Bytes) (ps : List (Bytes × Bytes)) (q : Request) (c : Codec)
      (errno_again : Bool) (ws : List WriteResult) (response : Bytes)
      (calls : List (ParamMap × ParamMap))
      → IsRequest flags reserved ps q
      → IsIdle c
      → c.buf ≡ []
      → (build_response cgi (received flags ps (contents q.stdin))).0 ≡ some (response, calls)
      → All Progresses ws
      → length response ≤ length ws
      → read_data cgi (got (encode_records (records q))) errno_again ws c
        ≡ returns (record {
          code = (if flags == Kind.keep_conn then err_ok else err_socket_finish);
          sent = response;
          calls = calls;
          codec = ready (flags == Kind.keep_conn);
        })
  read_data_whole flags reserved ps q c errno_again ws response calls h idle empty answer flow
        room =
      let d = received flags ps (contents q.stdin) in
      let parsed : parse_fcgi_package (fill (encode_records (records q)) c) ≡ d =
        rw empty (parse-encode_records flags reserved ps q c h idle) in
      read_data-got (encode_records (records q)) errno_again ws c (records-pos q)
      ∙ rw parsed (
          ap (finish cgi) (
            do_request-some d ws response calls answer
            ∙ ap (with_codec (build_response cgi d).1 calls)
                (write_loop_total response ws [] flow room))
          ∙ finish-returns err_ok response calls d refl
          ∙ ap
              (λ k.
                returns
                  (record { code = k; sent = response; calls = calls; codec = ready d.keep_conn }))
              (ground arith))

  finish-facts :
      (o : Outcome Reply) (r : Reply)
      → finish cgi o ≡ returns r
      → (r.codec.got_request ≡ false) × (r.code ≡ err_ok → r.codec.keep_conn ≡ true)
  finish-facts (returns x) r e = ground arith
  finish-facts throws r e = cc
  finish-facts waits r e = cc

  either-facts :
      (b : Bool) (o : Outcome Reply) (c : Codec) (r : Reply)
      → c.got_request ≡ b
      → (if b then finish cgi o else no_request cgi err_socket_read c) ≡ returns r
      → (r.codec.got_request ≡ false) × (r.code ≡ err_ok → r.codec.keep_conn ≡ true)
  either-facts true o c r h e = finish-facts o r e
  either-facts false o c r h e = ground arith

  -- Whenever `readData` returns on a codec that had no request pending, none is pending behind it, and
  -- ERR_OK is returned on a connection that is to be kept only. This holds whatever the read and the
  -- writes deliver.
  pub read_data_keeps :
      (rd : ReadResult) (errno_again : Bool) (ws : List WriteResult) (c : Codec) (r : Reply)
      → c.got_request ≡ false
      → read_data cgi rd errno_again ws c ≡ returns r
      → (r.codec.got_request ≡ false) × (r.code ≡ err_ok → r.codec.keep_conn ≡ true)
  unfolding read_data
  read_data_keeps (got []) errno_again ws c r h e = ground arith
  read_data_keeps read_failed errno_again ws c r h e = ground arith
  read_data_keeps (got (b ∷ bs)) errno_again ws c r h e =
      let c' = parse_fcgi_package (fill (b ∷ bs) c) in
      either-facts c'.got_request (do_request cgi c' ws) c' r refl e
