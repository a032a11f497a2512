-- ===== src/Mucgi/Messages.antt =====
-- `onMessage` on a request that comes in parts.
use fastcgi_async_or_corouti.Base.{
  ℕ, ◌<◌, ◌≡◌, refl, sym, ◌∙◌, ap, false, not, some, Bytes, List, [], ◌∷◌, ◌++◌, append-nil,
  append_assoc, concat, length, length-append, assign_pairs, ParamMap, ◌==◌, arith,
}
use fastcgi_async_or_corouti.Protocol.{encode_records}
use fastcgi_async_or_corouti.Cgi.{CgiParser}
use fastcgi_async_or_corouti.Cocgi.Kind
use fastcgi_async_or_corouti.Cocgi.Codec.{Codec, parse_fcgi_package}
use fastcgi_async_or_corouti.Cocgi.Codec.Streaming.{fill, parse-fill}
use fastcgi_async_or_corouti.Cocgi.Codec.Pieces.{with_buf, contents}
use fastcgi_async_or_corouti.Cocgi.Codec.Request.{
  Request, IsRequest, records, received, parse_nothing, parse-encode_records,
}
use fastcgi_async_or_corouti.Cocgi.Codec.Prefix.{parse_prefix}
use fastcgi_async_or_corouti.Mucgi.Codec.{
  Codec as MuCodec, new_codec as mu_new_codec, parse_request,
}
use fastcgi_async_or_corouti.Mucgi.Agreement.{as_cocgi, parse_request-agrees}
use fastcgi_async_or_corouti.Mucgi.Respond.{respond}
use fastcgi_async_or_corouti.Mucgi.Backend.{print_request}
use fastcgi_async_or_corouti.Mucgi.Session.{
  Conn, on_connection, backend_arguments, on_request, on_message, on_messages,
}

abbrev cocgi_of : Conn → Codec
cocgi_of k = as_cocgi k.buf k.codec

abbrev as_mucgi : Codec → MuCodec
as_mucgi c = record {
  got_request = c.got_request;
  keep_conn = c.keep_conn;
  stdin = c.stdin;
  params_stream = c.params_stream;
  params = c.params;
}

-- The connection is not shut down, and no byte of a request is on it.
pub record IsReady (k : Conn) : Type 0 where
  pub is_open : k.is_shut ≡ false
  pub no_bytes : k.buf ≡ []
  pub no_request : k.codec.got_request ≡ false
  pub no_stdin : k.codec.stdin ≡ []
  pub no_params_stream : k.codec.params_stream ≡ []
  pub no_params : k.codec.params ≡ []

ready_lem : (k : Conn) → IsReady k → with_buf [] (cocgi_of k) ≡ cocgi_of k
ready_lem k h = ap (λ b. with_buf b (cocgi_of k)) (sym h.no_bytes)

module _ (cgi : CgiParser) (to_lower : Bytes → Bytes) where
  -- A message that completes no request.
  quiet_message :
      (b : Bytes) (k : Conn) (d : Codec)
      → parse_fcgi_package (fill b (cocgi_of k)) ≡ d
      → d.got_request ≡ false
      → (k' : Conn) × (on_message cgi to_lower b k ≡ some k')
        × (cocgi_of k' ≡ d)
        × (k'.sent ≡ k.sent)
        × (k'.is_shut ≡ k.is_shut)
        × (k'.calls ≡ k.calls)
  unfolding on_message
  quiet_message b k d e h =
      let agree = parse_request-agrees (k.buf ++ b) k.codec in
      let got : (parse_request (k.buf ++ b) k.codec).1.got_request ≡ false =
        ap (λ x. x.got_request) (sym agree ∙ e) ∙ h in
      (
        record k {
          buf = (parse_request (k.buf ++ b) k.codec).0;
          codec = (parse_request (k.buf ++ b) k.codec).1;
        },
        ground arith,
        sym agree ∙ e,
        refl,
        refl,
        refl,
      )

  -- A message that completes a request.
  last_message :
      (b : Bytes) (k : Conn) (flags : ℕ) (ps : List (Bytes × Bytes)) (body response : Bytes)
      (calls : List (ParamMap × ParamMap))
      → parse_fcgi_package (fill b (cocgi_of k)) ≡ received flags ps body
      → k.is_shut ≡ false
      → on_request cgi to_lower (assign_pairs ps []) body ≡ some (response, calls)
      → on_message cgi to_lower b k
        ≡ some (record {
          buf = [];
          codec = record mu_new_codec { keep_conn = flags == Kind.keep_conn };
          sent = k.sent ++ response;
          calls = k.calls ++ calls;
          is_shut = not (flags == Kind.keep_conn);
        })
  unfolding on_message
  last_message b k flags ps body response calls e still answered =
      let agree = parse_request-agrees (k.buf ++ b) k.codec in ground (arith, sym agree ∙ e, still)

  on_request-some :
      (params : ParamMap) (body : Bytes) (qmap header : ParamMap)
      → backend_arguments cgi to_lower params body ≡ some (qmap, header)
      → on_request cgi to_lower params body
        ≡ some (respond (print_request qmap header).0 [], (qmap, header) ∷ [])
  unfolding on_request print_request
  on_request-some params body qmap header e = ground (arith, e)

  -- What is known of a connection on which the part `front` of a request has come.
  record IsPart (front : Bytes) (start k : Conn) : Type 0 where
    same : cocgi_of k ≡ parse_fcgi_package (with_buf front (cocgi_of start))
    silent : k.sent ≡ start.sent
    uncalled : k.calls ≡ start.calls
    as_shut : k.is_shut ≡ start.is_shut

  fill-part :
      (front b : Bytes) (start k : Conn)
      → IsPart front start k
      → parse_fcgi_package (fill b (cocgi_of k))
        ≡ parse_fcgi_package (with_buf (front ++ b) (cocgi_of start))
  fill-part front b start k h =
      ap (λ c. parse_fcgi_package (fill b c)) h.same
      ∙ parse-fill (with_buf front (cocgi_of start)) b

  pub on_messages-cons :
      (b : Bytes) (bs : List Bytes) (k k1 : Conn)
      → on_message cgi to_lower b k ≡ some k1
      → on_messages cgi to_lower (b ∷ bs) k ≡ on_messages cgi to_lower bs k1
  unfolding on_messages
  on_messages-cons b bs k k1 e = rw (e, on_messages)

  module _ (flags : ℕ) (reserved : Bytes) (ps : List (Bytes × Bytes)) (q : Request)
      (is_request : IsRequest flags reserved ps q) (start : Conn) (is_ready : IsReady start) where
    quiet_messages :
        (bs : List Bytes) (front back : Bytes) (k : Conn)
        → front ++ (concat bs ++ back) ≡ encode_records (records q)
        → 0 < length back
        → IsPart front start k
        → (k' : Conn) × (on_messages cgi to_lower bs k ≡ some k')
          × IsPart (front ++ concat bs) start k'
    unfolding on_messages
    quiet_messages [] front back k e more h = (k, refl, rw append-nil h)
    quiet_messages (b ∷ bs) front back k e more h =
        let e' : (front ++ b) ++ (concat bs ++ back) ≡ encode_records (records q) =
          append_assoc front b (concat bs ++ back)
          ∙ ap (λ t. front ++ t) (sym (append_assoc b (concat bs) back))
          ∙ e in
        let waits =
          parse_prefix flags reserved ps q (cocgi_of start) (front ++ b) (concat bs ++ back)
            is_request e' (omega (arith, length-append (concat bs) back))
          ∙ is_ready.no_request in
        let (k1, ran, same, sent, shut, uncalled) =
          quiet_message b k _ (fill-part front b start k h) waits in
        let (k2, ran2, part) = quiet_messages bs (front ++ b) back k1 e' more (record {
          same = same;
          silent = sent ∙ h.silent;
          uncalled = uncalled ∙ h.uncalled;
          as_shut = shut ∙ h.as_shut;
        }) in
        (k2, on_messages-cons b bs k k1 ran ∙ ran2, rw (append_assoc front b (concat bs)) at part)

    start-IsPart : IsPart [] start start
    start-IsPart = record {
      same = sym (parse_nothing (cocgi_of start) ∙ ready_lem start is_ready);
      silent = refl;
      uncalled = refl;
      as_shut = refl;
    }

    -- A request that comes to a connection that is not shut down and on which none is under way, in
    -- any number of messages, cut anywhere, is answered once, if the CGI library accepts it:
    -- nothing is sent and the back end is not called while bytes are missing; on the message with
    -- the last bytes the back end is called once and prints the two maps of the request, the whole
    -- response to the page that it returns is sent, the connection is shut down unless the flags
    -- byte is 1, the buffer is empty, and the codec is ready for the next request.
    pub on_messages-request :
        (bs : List Bytes) (last : Bytes) (qmap header : ParamMap)
        → concat bs ++ last ≡ encode_records (records q)
        → 0 < length last
        → backend_arguments cgi to_lower (assign_pairs ps []) (contents q.stdin)
          ≡ some (qmap, header)
        → (k : Conn) × (on_messages cgi to_lower bs start ≡ some k)
          × (k.sent ≡ start.sent)
          × (k.calls ≡ start.calls)
          × (k.is_shut ≡ false)
          × (on_message cgi to_lower last k
              ≡ some (record {
                buf = [];
                codec = record mu_new_codec { keep_conn = flags == Kind.keep_conn };
                sent = start.sent ++ respond (print_request qmap header).0 [];
                calls = start.calls ++ ((qmap, header) ∷ []);
                is_shut = not (flags == Kind.keep_conn);
              }))
    on_messages-request bs last qmap header e more accepted =
        let (k, ran, part) = quiet_messages bs [] last start e more start-IsPart in
        let whole : parse_fcgi_package (fill last (cocgi_of k))
            ≡ received flags ps (contents q.stdin) =
          fill-part (concat bs) last start k part
          ∙ ap (λ t. parse_fcgi_package (with_buf t (cocgi_of start))) e
          ∙ parse-encode_records flags reserved ps q (cocgi_of start) is_request (record {
            no_stdin = is_ready.no_stdin;
            no_params_stream = is_ready.no_params_stream;
            no_params = is_ready.no_params;
          }) in
        let open_still : k.is_shut ≡ false = part.as_shut ∙ is_ready.is_open in
        (
          k,
          ran,
          part.silent,
          part.uncalled,
          open_still,
          last_message last k flags ps (contents q.stdin) _ _ whole open_still
                (on_request-some _ _ qmap header accepted)
              ∙ rw (part.silent, part.uncalled) refl,
        )

pub on_connection-IsReady : IsReady on_connection
on_connection-IsReady = record {
  is_open = refl;
  no_bytes = refl;
  no_request = refl;
  no_stdin = refl;
  no_params_stream = refl;
  no_params = refl;
}
