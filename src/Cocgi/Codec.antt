-- ===== src/Cocgi/Codec.antt =====
-- The class `FastCgiCodec` of cocgi/fastcgi.h, and its parser of records in cocgi/fastcgi.cpp. A
-- `muduo::net::Buffer` is its readable bytes.
pub mod Loop
pub mod Streaming
pub mod Pieces
pub mod Request
pub mod Prefix
pub mod Pipelined
pub mod Framing
pub mod Foreign
use fastcgi_async_or_corouti.Base.{
  ℕ, zero, suc, ◌+◌, Bool, true, false, Bytes, ParamMap, [], ◌++◌, get_or, length, take, drop, ltb,
  leb, ◌==◌, if◌then◌else◌,
}
use fastcgi_async_or_corouti.Endian.{hton16, load16}
use fastcgi_async_or_corouti.Cocgi.Header.{RecordHeader, record_header, load_header}
use fastcgi_async_or_corouti.Cocgi.Kind
use fastcgi_async_or_corouti.Cocgi.Params.{parse_all_params}

pub record Codec : Type 0 where
  pub got_request : Bool
  pub keep_conn : Bool
  pub buf : Bytes
  pub stdin : Bytes
  pub params_stream : Bytes
  pub params : ParamMap

-- The constructor.
abbrev pub new_codec : Codec
new_codec = record {
  got_request = false;
  keep_conn = false;
  buf = [];
  stdin = [];
  params_stream = [];
  params = [];
}

unfoldable pub on_begin_request : RecordHeader → Codec → Bool × Codec
on_begin_request h c =
    if leb record_header h.content_length
    then (let role = hton16 (load16 (get_or c.buf 8 0) (get_or c.buf 9 0)) in
        let flags = get_or c.buf 10 0 in
        if role == Kind.responder
        then (true, record c { keep_conn = flags == Kind.keep_conn })
        else (false, c))
    else (false, c)

unfoldable pub on_params : Bytes → ℕ → Codec → Bool × Codec
on_params content len c =
    if ltb 0 len
    then (true, record c { params_stream = c.params_stream ++ take len content })
    else let (ok, st) = parse_all_params (record { stream = c.params_stream; params = c.params }) in
      (ok, record c { params_stream = st.stream; params = st.params })

unfoldable pub on_stdin : Bytes → ℕ → Codec → Codec
on_stdin content len c =
    if ltb 0 len
    then record c { stdin = c.stdin ++ take len content }
    else record c { got_request = true }

-- The `switch` on the type. What `onBeginRequest` and `onParams` return is dropped there.
unfoldable pub dispatch : RecordHeader → Codec → Codec
dispatch h c =
    let content = drop record_header c.buf in
    if h.type == Kind.begin_request
    then (on_begin_request h c).1
    else if h.type == Kind.params
    then (on_params content h.content_length c).1
    else if h.type == Kind.stdin
    then on_stdin content h.content_length c
    else c

abbrev pub total_length : RecordHeader → ℕ
total_length h = record_header + h.content_length + h.padding

abbrev pub retrieve : ℕ → Codec → Codec
retrieve n c = record c { buf = drop n c.buf }

-- One round of the loop; `false` is its end.
unfoldable pub parse_step : Codec → Bool × Codec
parse_step c =
    if leb record_header (length c.buf)
    then (let h = load_header c.buf in
        if leb (total_length h) (length c.buf)
        then (true, retrieve (total_length h) (dispatch h c))
        else (false, c))
    else (false, c)

unfoldable pub package_loop : ℕ → Codec → Codec
package_loop zero c = c
package_loop (suc fuel) c =
    let (more, c') = parse_step c in let rest = package_loop fuel c' in if more then rest else c

-- A round takes at least a header off the buffer, so `length` rounds are enough.
unfoldable pub parse_fcgi_package : Codec → Codec
unfolding package_loop
parse_fcgi_package c = package_loop (length c.buf) c
