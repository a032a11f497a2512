-- ===== src/Mucgi/Forms.antt =====
-- `onMessage` with the CGI library of the tree, on requests that carry a form.
use fastcgi_async_or_corouti.Base.{
  ℕ, ◌<◌, ◌≡◌, refl, ap, ◌∙◌, not, some, Bytes, ParamMap, List, [], ◌∷◌, ◌++◌, at_key-assign_pairs,
  assign_pairs, insert_pairs, concat, length, ◌==◌, codes, arith,
}
use fastcgi_async_or_corouti.Protocol.{encode_records}
use fastcgi_async_or_corouti.Protocol.Client.{read_output}
use fastcgi_async_or_corouti.Cgicc.Forms.{cgicc}
use fastcgi_async_or_corouti.Cgicc.Forms.RoundTrip.{encode_form}
use fastcgi_async_or_corouti.Cgicc.Forms.Cookies.{encode_cookies}
use fastcgi_async_or_corouti.Cgicc.Forms.Carried.{
  uploads, Body, fields, bytes_of, content_type, Carries, cgicc-carried,
}
use fastcgi_async_or_corouti.Cocgi.Kind
use fastcgi_async_or_corouti.Cocgi.Respond.{output_or_default, respond as co_respond}
use fastcgi_async_or_corouti.Cocgi.Respond.Reading.{read_output-respond}
use fastcgi_async_or_corouti.Cocgi.Codec.Pieces.{contents}
use fastcgi_async_or_corouti.Cocgi.Codec.Request.{Request, IsRequest, records}
use fastcgi_async_or_corouti.Mucgi.Codec.{new_codec}
use fastcgi_async_or_corouti.Mucgi.Respond.{respond}
use fastcgi_async_or_corouti.Mucgi.Backend.{print_request}
use fastcgi_async_or_corouti.Mucgi.Agreement.{respond-agrees}
use fastcgi_async_or_corouti.Mucgi.Session.{
  Conn, on_connection, copy_params, lower_names, query_map, header_map, backend_arguments,
  on_messages,
}
use fastcgi_async_or_corouti.Mucgi.Messages.{on_connection-IsReady, on_messages-request}
use fastcgi_async_or_corouti.Mucgi.Sequence.{on_messages-last}

module _ (to_lower : Bytes → Bytes) where
  -- The two maps that `onRequest` makes of the fields and the files, and of the parameters and the cookies.
  abbrev pub query_of : Body → List (Bytes × Bytes) → ParamMap
  query_of body query =
      insert_pairs (uploads body) (insert_pairs (lower_names to_lower (fields body ++ query)) [])

  abbrev pub header_of : List (Bytes × Bytes) → List (Bytes × Bytes) → ParamMap
  header_of ps cookies = assign_pairs cookies (copy_params (assign_pairs ps []))

  abbrev pub page :
      List (Bytes × Bytes) → Body → List (Bytes × Bytes) → List (Bytes × Bytes) → Bytes
  page ps body query cookies = (print_request (query_of body query) (header_of ps cookies)).0

  query_lem :
      (body : Body) (query cookies : List (Bytes × Bytes))
      → query_map to_lower
          (record { elements = fields body ++ query; files = uploads body; cookies = cookies })
        ≡ query_of body query
  unfolding query_map
  query_lem body query cookies = refl

  pub arguments_lem :
      (ps : List (Bytes × Bytes)) (body : Body) (query cookies : List (Bytes × Bytes))
      → Carries ps body query cookies
      → backend_arguments cgicc to_lower (assign_pairs ps []) (bytes_of body)
        ≡ some (query_of body query, header_of ps cookies)
  unfolding backend_arguments header_map
  arguments_lem ps body query cookies h = ground (
    arith,
    at_key-assign_pairs (codes "QUERY_STRING") (encode_form query) ps h.query_string,
    at_key-assign_pairs (codes "CONTENT_TYPE") (content_type body) ps h.of_type,
    at_key-assign_pairs (codes "HTTP_COOKIE") (encode_cookies cookies) ps h.http_cookie,
    cgicc-carried body query cookies h.is_body h.query_bytes h.are_cookies,
    query_lem body query cookies,
  )

  page_lem :
      (ps : List (Bytes × Bytes)) (body : Body) (query cookies : List (Bytes × Bytes))
      → output_or_default (page ps body query cookies) ≡ page ps body query cookies
  unfolding print_request
  page_lem ps body query cookies = refl

  read_output-page :
      (out : Bytes)
      → output_or_default out ≡ out
      → read_output (length (respond out [])) (respond out []) ≡ some out
  read_output-page out e =
      rw (respond-agrees out [])
        (read_output-respond out (length (co_respond out [])) (omega arith) ∙ ap some e)

  -- A request with form data in its query string, a form in its body, urlencoded or multipart, the
  -- latter with fields and files, and cookies, that comes to mucgi on a new connection in any
  -- number of messages, cut anywhere, is answered, the library of the tree in place of the
  -- parameter: the back end is called once, and prints the map of the pairs of the body, then those
  -- of the query string, their names in lower case, then the data of the files, the first of each
  -- name kept, and the map of the parameters and then the cookies; a web server that reads what is
  -- sent gets the page that the back end returns; the connection is shut down unless the flags byte
  -- is 1, and the codec is ready for the next request.
  pub form_messages_answered :
      (flags : ℕ) (reserved : Bytes) (ps : List (Bytes × Bytes)) (q : Request) (body : Body)
      (query cookies : List (Bytes × Bytes)) (bs : List Bytes) (last : Bytes)
      → IsRequest flags reserved ps q
      → Carries ps body query cookies
      → contents q.stdin ≡ bytes_of body
      → concat bs ++ last ≡ encode_records (records q)
      → 0 < length last
      → (k : Conn) × (on_messages cgicc to_lower (bs ++ (last ∷ [])) on_connection ≡ some k)
        × (k.calls ≡ (query_of body query, header_of ps cookies) ∷ [])
        × (read_output (length k.sent) k.sent ≡ some (page ps body query cookies))
        × (k.is_shut ≡ not (flags == Kind.keep_conn))
        × (k.buf ≡ [])
        × (k.codec ≡ record new_codec { keep_conn = flags == Kind.keep_conn })
  form_messages_answered flags reserved ps q body query cookies bs last h f e whole more =
      let out : Bytes = page ps body query cookies in
      let called_with : backend_arguments cgicc to_lower (assign_pairs ps []) (contents q.stdin)
          ≡ some (query_of body query, header_of ps cookies) =
        rw e (arguments_lem ps body query cookies f) in
      let (k, ran, _, _, _, done) =
        on_messages-request cgicc to_lower flags reserved ps q h on_connection on_connection-IsReady
          bs last (query_of body query) (header_of ps cookies) whole more called_with in
      (
        _,
        on_messages-last cgicc to_lower bs last on_connection k _ ran done,
        refl,
        read_output-page out (page_lem ps body query cookies),
        refl,
        refl,
        refl,
      )
