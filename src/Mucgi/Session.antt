-- ===== src/Mucgi/Session.antt =====
-- `FastCgiCodec::onMessage` of mucgi/fastcgi.h and `onRequest` of mucgi/main.cpp. The CGI library and
-- `boost::to_lower_copy` are parameters.
use fastcgi_async_or_corouti.Base.{
  Bool, false, not, ◌||◌, Option, none, some, Bytes, ParamMap, List, [], ◌∷◌, ◌++◌, map,
  if◌then◌else◌, at_key, assign_pairs, insert_pairs, codes,
}
use fastcgi_async_or_corouti.Cgi.{CgiData, CgiParser}
use fastcgi_async_or_corouti.Mucgi.Codec.{Codec, new_codec, parse_request}
use fastcgi_async_or_corouti.Mucgi.Respond.{respond}
use fastcgi_async_or_corouti.Mucgi.Backend.{print_request}

-- A connection: its input buffer, the codec that `onConnection` makes for it, what has been sent, what each
-- call of the back end has printed, and whether `shutdown` was called.
pub record Conn : Type 0 where
  pub buf : Bytes
  pub codec : Codec
  pub sent : Bytes
  pub calls : List (ParamMap × ParamMap)
  pub is_shut : Bool

-- `onConnection` on a new connection.
abbrev pub on_connection : Conn
on_connection = record { buf = []; codec = new_codec; sent = []; calls = []; is_shut = false }

-- `params` of `onRequest` is the map in the codec, so `operator[]` inserts its keys there.
abbrev pub touch_params : ParamMap → Bytes × Bytes × Bytes × ParamMap
touch_params params =
    let (query_string, p1) = at_key (codes "QUERY_STRING") params in
    let (query_type, p2) = at_key (codes "CONTENT_TYPE") p1 in
    let (query_cookie, p3) = at_key (codes "HTTP_COOKIE") p2 in
    (query_string, query_type, query_cookie, p3)

-- The loop that copies `params` into `header`.
abbrev pub copy_params : ParamMap → ParamMap
copy_params params = assign_pairs params []

-- `boost::to_lower_copy` on the names.
abbrev pub lower_names : (Bytes → Bytes) → List (Bytes × Bytes) → List (Bytes × Bytes)
lower_names to_lower = map (λ p. (to_lower p.0, p.1))

-- `qmap.insert` over the elements, under their names in lower case, then over the files.
unfoldable pub query_map : (Bytes → Bytes) → CgiData → ParamMap
query_map to_lower d = insert_pairs d.files (insert_pairs (lower_names to_lower d.elements) [])

-- `header[name] = value` over the parameters, then over the cookies.
unfoldable pub header_map : CgiData → ParamMap → ParamMap
header_map d params = assign_pairs d.cookies (copy_params params)

module _ (cgi : CgiParser) (to_lower : Bytes → Bytes) where
  -- The two maps that the back end is called with, or none where the CGI library throws.
  unfoldable pub backend_arguments : ParamMap → Bytes → Option (ParamMap × ParamMap)
  backend_arguments params post_data =
      let (query_string, query_type, query_cookie, p) = touch_params params in
      elim (cgi query_string query_cookie post_data query_type) [
        | none ↦ none
        | some d ↦ some (query_map to_lower d, header_map d p)
      ]

  -- What `onRequest` hands to `send`, and what the back end prints.
  unfoldable pub on_request : ParamMap → Bytes → Option (Bytes × List (ParamMap × ParamMap))
  unfolding backend_arguments
  on_request params post_data = elim (backend_arguments params post_data) [
    | none ↦ none
    | some (qmap, header) ↦
        let (res, calls) = print_request qmap header in some (respond res [], calls)
  ]

  -- `send` of muduo drops what it is given once `shutdown` was called.
  abbrev pub answer : Conn → Bytes → Codec → Bytes → List (ParamMap × ParamMap) → Conn
  answer k buf c response calls =
      let c' : Codec = record c {
        stdin = [];
        params_stream = [];
        params = [];
        got_request = false;
      } in
      record {
        buf = buf;
        codec = c';
        sent = (if k.is_shut then k.sent else k.sent ++ response);
        calls = k.calls ++ calls;
        is_shut = not c'.keep_conn || k.is_shut;
      }

  -- The bytes of a read are behind those that the buffer held. `none` is the end of the process:
  -- nothing catches what the CGI library throws.
  unfoldable pub on_message : Bytes → Conn → Option Conn
  on_message bytes k =
      let (buf, c) = parse_request (k.buf ++ bytes) k.codec in
      let answered : Option Conn = elim (on_request c.params c.stdin) [
        | none ↦ none
        | some (response, calls) ↦ some (answer k buf c response calls)
      ] in
      if c.got_request then answered else some (record k { buf = buf; codec = c })

  unfoldable pub on_messages : List Bytes → Conn → Option Conn
  on_messages [] k = some k
  on_messages (b ∷ bs) k = elim (on_message b k) [ none ↦ none | some k' ↦ on_messages bs k' ]
