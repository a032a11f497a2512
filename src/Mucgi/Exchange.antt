-- ===== src/Mucgi/Exchange.antt =====
-- `onMessage` on several requests of one connection, each in any number of messages.
use fastcgi_async_or_corouti.Base.{
  ℕ, ◌<◌, ◌≡◌, refl, sym, ap, ◌∙◌, true, false, some, Bytes, ParamMap, assign_pairs, List, [], ◌∷◌,
  ◌++◌, append_assoc, append-nil, All, map, concat, length, ◌==◌,
}
use fastcgi_async_or_corouti.Protocol.{encode_records}
use fastcgi_async_or_corouti.Protocol.Stream.{read_pages}
use fastcgi_async_or_corouti.Cgi.{CgiParser}
use fastcgi_async_or_corouti.Cocgi.Kind
use fastcgi_async_or_corouti.Cocgi.Respond.{output_or_default}
use fastcgi_async_or_corouti.Cocgi.Respond.Stream.{
  responses, length-responses, read_pages-responses,
}
use fastcgi_async_or_corouti.Cocgi.Codec.Pieces.{contents}
use fastcgi_async_or_corouti.Cocgi.Codec.Request.{Request, IsRequest, records}
use fastcgi_async_or_corouti.Mucgi.Codec.{new_codec}
use fastcgi_async_or_corouti.Mucgi.Respond.{respond}
use fastcgi_async_or_corouti.Mucgi.Backend.{print_request}
use fastcgi_async_or_corouti.Mucgi.Agreement.{respond-agrees}
use fastcgi_async_or_corouti.Mucgi.Session.{Conn, on_connection, backend_arguments, on_messages}
use fastcgi_async_or_corouti.Mucgi.Sequence.{on_messages-then, on_messages-last}
use fastcgi_async_or_corouti.Mucgi.Messages.{IsReady, on_connection-IsReady, on_messages-request}

-- A request, the messages that bring it, and the two maps that the back end is called with.
pub record Exchange : Type 0 where
  pub flags : ℕ
  pub reserved : Bytes
  pub params : List (Bytes × Bytes)
  pub request : Request
  pub messages : List Bytes
  pub last : Bytes
  pub query : ParamMap
  pub header : ParamMap

abbrev pub page : Exchange → Bytes
page x = (print_request x.query x.header).0

abbrev pub arguments : Exchange → ParamMap × ParamMap
arguments x = (x.query, x.header)

page_lem : (x : Exchange) → output_or_default (page x) ≡ page x
unfolding print_request
page_lem x = refl

pages_lem : (xs : List Exchange) → map output_or_default (map page xs) ≡ map page xs
pages_lem [] = refl
pages_lem (x ∷ xs) =
    ap (λ b. b ∷ map output_or_default (map page xs)) (page_lem x)
    ∙ ap (λ bs. page x ∷ bs) (pages_lem xs)

unfoldable pub messages_of : List Exchange → List Bytes
messages_of [] = []
messages_of (x ∷ xs) = (x.messages ++ (x.last ∷ [])) ++ messages_of xs

module _ (cgi : CgiParser) (to_lower : Bytes → Bytes) where
  -- The messages bring the bytes of the request, whose flags byte is 1, and the CGI library
  -- accepts it.
  pub record IsExchange (x : Exchange) : Type 0 where
    pub is_request : IsRequest x.flags x.reserved x.params x.request
    pub keeps : (x.flags == Kind.keep_conn) ≡ true
    pub whole : concat x.messages ++ x.last ≡ encode_records (records x.request)
    pub last_bytes : 0 < length x.last
    pub answered :
        backend_arguments cgi to_lower (assign_pairs x.params []) (contents x.request.stdin)
        ≡ some (x.query, x.header)

  abbrev behind : Exchange → Conn → Conn
  behind x k = record {
    buf = [];
    codec = record new_codec { keep_conn = true };
    sent = k.sent ++ respond (page x) [];
    calls = k.calls ++ (arguments x ∷ []);
    is_shut = false;
  }

  behind-IsReady : (x : Exchange) (k : Conn) → IsReady (behind x k)
  behind-IsReady x k = record {
    is_open = refl;
    no_bytes = refl;
    no_request = refl;
    no_stdin = refl;
    no_params_stream = refl;
    no_params = refl;
  }

  on_messages-exchange :
      (x : Exchange) (start : Conn)
      → IsExchange x
      → IsReady start
      → on_messages cgi to_lower (x.messages ++ (x.last ∷ [])) start ≡ some (behind x start)
  on_messages-exchange x start h is_ready =
      let (k, ran, _, _, _, done) =
        on_messages-request cgi to_lower x.flags x.reserved x.params x.request h.is_request start
          is_ready x.messages x.last x.query x.header h.whole h.last_bytes h.answered in
      on_messages-last cgi to_lower x.messages x.last start k _ ran done ∙ rw h.keeps refl

  on_messages-exchanges :
      (xs : List Exchange) (start : Conn)
      → All IsExchange xs
      → IsReady start
      → (k : Conn) × (on_messages cgi to_lower (messages_of xs) start ≡ some k)
        × (k.sent ≡ start.sent ++ responses (map page xs))
        × (k.calls ≡ start.calls ++ map arguments xs)
        × IsReady k
  unfolding messages_of responses
  on_messages-exchanges [] start h is_ready = (
    start,
    unfold on_messages in refl,
    sym (append-nil start.sent),
    sym (append-nil start.calls),
    is_ready,
  )
  on_messages-exchanges (x ∷ xs) start (first, more) is_ready =
      let (k, ran, sent, calls, after) =
        on_messages-exchanges xs (behind x start) more (behind-IsReady x start) in
      (
        k,
        on_messages-then cgi to_lower (x.messages ++ (x.last ∷ [])) (messages_of xs) start
              (behind x start) (on_messages-exchange x start first is_ready)
            ∙ ran,
        sent
            ∙ append_assoc start.sent (respond (page x) []) (responses (map page xs))
            ∙ ap (λ r. start.sent ++ (r ++ responses (map page xs))) (respond-agrees (page x) []),
        calls ∙ append_assoc start.calls (arguments x ∷ []) (map arguments xs),
        after,
      )

  -- Requests that come to mucgi on a new connection, one behind the other, are answered in their
  -- order: let each be cut into any number of messages, have the flags byte 1, and be accepted by
  -- the CGI library. Then all messages are taken, the back end is called once for each request, in
  -- their order, and prints the maps of that request, and a web server that reads what is sent gets
  -- the page that the back end returns for each, up to the last byte; the connection is not shut
  -- down, and no byte is left in its buffer.
  pub requests_answered :
      (xs : List Exchange)
      → All IsExchange xs
      → (k : Conn) × (on_messages cgi to_lower (messages_of xs) on_connection ≡ some k)
        × (k.calls ≡ map arguments xs)
        × (read_pages (length k.sent) k.sent ≡ some (map page xs))
        × (k.is_shut ≡ false)
        × (k.buf ≡ [])
  requests_answered xs h =
      let (k, ran, sent, calls, after) =
        on_messages-exchanges xs on_connection h on_connection-IsReady in
      (
        k,
        ran,
        calls,
        ap (λ s. read_pages (length s) s) sent
            ∙ read_pages-responses (map page xs) _ (length-responses (map page xs))
            ∙ ap some (pages_lem xs),
        after.is_open,
        after.no_bytes,
      )
