-- ===== src/Mucgi/Codec.antt =====
-- The class `FastCgiCodec` of mucgi/fastcgi.h, and its parser of records in mucgi/fastcgi.cpp. The
-- buffer of the connection is an argument; a `muduo::net::Buffer` is its readable bytes.
use fastcgi_async_or_corouti.Base.{
  ℕ, zero, suc, ◌+◌, Bool, true, false, Bytes, ParamMap, [], ◌++◌, get_or, length, take, drop, ltb,
  leb, ◌==◌, if◌then◌else◌,
}
use fastcgi_async_or_corouti.Endian.{hton16, load16}
use fastcgi_async_or_corouti.Cocgi.Header.{RecordHeader, record_header, load_header}
use fastcgi_async_or_corouti.Cocgi.Kind
use fastcgi_async_or_corouti.Mucgi.Params.{parse_all_params}

pub record Codec : Type 0 where
  pub got_request : Bool
  pub keep_conn : Bool
  pub stdin : Bytes
  pub params_stream : Bytes
  pub params : ParamMap

-- The constructor.
abbrev pub new_codec : Codec
new_codec = record {
  got_request = false;
  keep_conn = false;
  stdin = [];
  params_stream = [];
  params = [];
}

unfoldable pub on_begin_request : RecordHeader → Bytes → Codec → Bool × Codec
on_begin_request h buf c =
    if leb record_header h.content_length
    then (let role = hton16 (load16 (get_or buf 8 0) (get_or buf 9 0)) in
        let flags = get_or buf 10 0 in
        if role == Kind.responder
        then (true, record c { keep_conn = flags == Kind.keep_conn })
        else (false, c))
    else (false, c)

unfoldable pub on_params : Bytes → ℕ → Codec → Bool × Codec
on_params content len c =
    if ltb 0 len
    then (true, record c { params_stream = c.params_stream ++ take len content })
    else let (ok, st) = parse_all_params (record { stream = c.params_stream; params = c.params }) in
      (ok, record c { params_stream = st.stream; params = st.params })

unfoldable pub on_stdin : Bytes → ℕ → Codec → Codec
on_stdin content len c =
    if ltb 0 len
    then record c { stdin = c.stdin ++ take len content }
    else record c { got_request = true }

-- The `switch` on the type. What `onBeginRequest` and `onParams` return is dropped there.
unfoldable pub dispatch : RecordHeader → Bytes → Codec → Codec
dispatch h buf c =
    let content = drop record_header buf in
    if h.type == Kind.begin_request
    then (on_begin_request h buf c).1
    else if h.type == Kind.params
    then (on_params content h.content_length c).1
    else if h.type == Kind.stdin
    then on_stdin content h.content_length c
    else c

abbrev pub total_length : RecordHeader → ℕ
total_length h = record_header + h.content_length + h.padding

-- One round of the loop, on the buffer and the codec; `false` is its end.
unfoldable pub parse_step : Bytes → Codec → Bool × Bytes × Codec
parse_step buf c =
    if leb record_header (length buf)
    then (let h = load_header buf in
        if leb (total_length h) (length buf)
        then (true, drop (total_length h) buf, dispatch h buf c)
        else (false, buf, c))
    else (false, buf, c)

unfoldable pub request_loop : ℕ → Bytes → Codec → Bytes × Codec
request_loop zero buf c = (buf, c)
request_loop (suc fuel) buf c =
    let (more, buf', c') = parse_step buf c in
    let rest = request_loop fuel buf' c' in if more then rest else (buf, c)

-- A round takes at least a header off the buffer, so `length` rounds are enough.
unfoldable pub parse_request : Bytes → Codec → Bytes × Codec
unfolding request_loop
parse_request buf c = request_loop (length buf) buf c
