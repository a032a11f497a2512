-- ===== src/Cocgi/Session/Forms.antt =====
-- `readData` with the CGI library of the tree, on requests that carry a form.
use fastcgi_async_or_corouti.Base.{
  ParamMap, ℕ, ◌≤◌, ◌≡◌, refl, ◌∙◌, ap, Bool, some, Bytes, at_key-assign_pairs, assign_pairs, List,
  [], ◌∷◌, ◌++◌, All, length, ◌==◌, if◌then◌else◌, codes, arith,
}
use fastcgi_async_or_corouti.Protocol.{encode_records}
use fastcgi_async_or_corouti.Protocol.Client.{read_output}
use fastcgi_async_or_corouti.Cgicc.Forms.{cgicc}
use fastcgi_async_or_corouti.Cgicc.Forms.RoundTrip.{encode_form}
use fastcgi_async_or_corouti.Cgicc.Forms.Cookies.{encode_cookies}
use fastcgi_async_or_corouti.Cgicc.Forms.Carried.{
  uploads, Body, fields, bytes_of, content_type, Carries, cgicc-carried,
}
use fastcgi_async_or_corouti.Cocgi.Kind
use fastcgi_async_or_corouti.Cocgi.Backend.{print_request}
use fastcgi_async_or_corouti.Cocgi.Respond.{respond, output_or_default}
use fastcgi_async_or_corouti.Cocgi.Respond.Reading.{read_output-respond}
use fastcgi_async_or_corouti.Cocgi.Codec.{new_codec}
use fastcgi_async_or_corouti.Cocgi.Codec.Pieces.{contents}
use fastcgi_async_or_corouti.Cocgi.Codec.Request.{Request, IsRequest, IsIdle, records, received}
use fastcgi_async_or_corouti.Cocgi.Session.{
  err_ok, err_socket_finish, WriteResult, got, returns, query_map, header_map, backend_arguments,
  build_response, read_data,
}
use fastcgi_async_or_corouti.Cocgi.Session.Writes.{Progresses}
use fastcgi_async_or_corouti.Cocgi.Session.Reads.{ready, read_data_whole}

-- The two maps that the back end is called with: the elements of the form and then the files, and the
-- parameters and then the cookies.
abbrev pub query_of : Body → List (Bytes × Bytes) → ParamMap
query_of body query = assign_pairs (uploads body) (assign_pairs (fields body ++ query) [])

abbrev pub header_of : List (Bytes × Bytes) → List (Bytes × Bytes) → ParamMap
header_of ps cookies = assign_pairs cookies (assign_pairs ps [])

abbrev pub page : List (Bytes × Bytes) → Body → List (Bytes × Bytes) → List (Bytes × Bytes) → Bytes
page ps body query cookies = (print_request (query_of body query) (header_of ps cookies)).0

query_lem :
    (body : Body) (query cookies : List (Bytes × Bytes))
    → query_map
        (record { elements = fields body ++ query; files = uploads body; cookies = cookies })
      ≡ query_of body query
unfolding query_map
query_lem body query cookies = refl

pub arguments_lem :
    (flags : ℕ) (ps : List (Bytes × Bytes)) (body : Body) (query cookies : List (Bytes × Bytes))
    → Carries ps body query cookies
    → (backend_arguments cgicc (received flags ps (bytes_of body))).0
      ≡ some (query_of body query, header_of ps cookies)
unfolding backend_arguments header_map
arguments_lem flags ps body query cookies h = ground (
  arith,
  at_key-assign_pairs (codes "QUERY_STRING") (encode_form query) ps h.query_string,
  at_key-assign_pairs (codes "CONTENT_TYPE") (content_type body) ps h.of_type,
  at_key-assign_pairs (codes "HTTP_COOKIE") (encode_cookies cookies) ps h.http_cookie,
  cgicc-carried body query cookies h.is_body h.query_bytes h.are_cookies,
  query_lem body query cookies,
)

build_response-form :
    (flags : ℕ) (ps : List (Bytes × Bytes)) (body : Body) (query cookies : List (Bytes × Bytes))
    → Carries ps body query cookies
    → (build_response cgicc (received flags ps (bytes_of body))).0
      ≡ some (
        respond (page ps body query cookies) [],
        (query_of body query, header_of ps cookies) ∷ [],
      )
unfolding build_response print_request
build_response-form flags ps body query cookies h =
    ground (arith, arguments_lem flags ps body query cookies h)

page_lem :
    (ps : List (Bytes × Bytes)) (body : Body) (query cookies : List (Bytes × Bytes))
    → output_or_default (page ps body query cookies) ≡ page ps body query cookies
unfolding print_request
page_lem ps body query cookies = refl

-- A request that comes with one read on a new connection, with form data in its query string, a
-- form in its body, urlencoded or multipart, the latter with fields and files, and cookies, is
-- answered, the library of the tree in place of the parameter, if the peer takes at least a byte
-- with each of enough writes: the back end is called once, and prints the map of the pairs of the
-- body, then those of the query string, then the data of the files, and the map of the parameters
-- and then the cookies; a web server that reads what is sent gets the page that the back end
-- returns; the codec is ready for the next request, and the code is ERR_OK if the flags byte is 1
-- and ERR_SOCKET_FINISH if it is not.
pub form_request_answered :
    (flags : ℕ) (reserved : Bytes) (ps : List (Bytes × Bytes)) (q : Request) (body : Body)
    (query cookies : List (Bytes × Bytes)) (errno_again : Bool) (ws : List WriteResult)
    → IsRequest flags reserved ps q
    → Carries ps body query cookies
    → contents q.stdin ≡ bytes_of body
    → All Progresses ws
    → length (respond (page ps body query cookies) []) ≤ length ws
    → (sent : Bytes) × (read_data cgicc (got (encode_records (records q))) errno_again ws new_codec
        ≡ returns (record {
          code = (if flags == Kind.keep_conn then err_ok else err_socket_finish);
          sent = sent;
          calls = (query_of body query, header_of ps cookies) ∷ [];
          codec = ready cgicc (flags == Kind.keep_conn);
        }))
      × (read_output (length sent) sent ≡ some (page ps body query cookies))
form_request_answered flags reserved ps q body query cookies errno_again ws h f e flow room =
    let out : Bytes = page ps body query cookies in
    let idle : IsIdle new_codec = record {
      no_stdin = refl;
      no_params_stream = refl;
      no_params = refl;
    } in
    (
      respond out [],
      read_data_whole cgicc flags reserved ps q new_codec errno_again ws (respond out [])
          ((query_of body query, header_of ps cookies) ∷ []) h idle refl
          (rw e (build_response-form flags ps body query cookies f)) flow room,
      read_output-respond out (length (respond out [])) (omega arith)
          ∙ ap some (page_lem ps body query cookies),
    )
