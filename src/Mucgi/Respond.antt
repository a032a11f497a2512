-- ===== src/Mucgi/Respond.antt =====
-- `FastCgiCodec::respond`, `endStdout` and `endRequest` of mucgi/fastcgi.cpp. A `muduo::net::Buffer` is
-- its readable bytes.
use fastcgi_async_or_corouti.Base.{
  ℕ, zero, suc, ◌+◌, ◌-◌, ◌*◌, ◌/◌, ◌%◌, ◌^◌, Bytes, ◌++◌, length, take, drop, replicate, leb, ◌==◌,
  if◌then◌else◌,
}
use fastcgi_async_or_corouti.Endian.{hton16}
use fastcgi_async_or_corouti.Cocgi.Respond.{append_int32, padding_of, output_or_default}
use fastcgi_async_or_corouti.Cocgi.Kind
use fastcgi_async_or_corouti.Cocgi.Header.{record_header, store_header}

-- FCGI_MAX_LENGTH
abbrev pub max_length : ℕ
max_length = 0xffff

unfoldable pub end_stdout : Bytes → Bytes
end_stdout buf =
    buf
    ++ store_header (record {
      version = 1;
      type = Kind.stdout;
      id = hton16 1;
      content_length = 0;
      padding = 0;
      unused = 0;
    })

unfoldable pub end_request : Bytes → Bytes
end_request buf =
    let header =
      buf
      ++ store_header (record {
        version = 1;
        type = Kind.end_request;
        id = hton16 1;
        content_length = hton16 record_header;
        padding = 0;
        unused = 0;
      }) in
    append_int32 (append_int32 header 0) 0

-- A header of `FCGI_STDOUT`, the content and its padding, behind what the buffer holds.
unfoldable pub append_stdout : ℕ → ℕ → Bytes → Bytes → Bytes
append_stdout content_length padding content response =
    ((response
        ++ store_header (record {
          version = 1;
          type = Kind.stdout;
          id = hton16 1;
          content_length = hton16 content_length;
          padding = padding;
          unused = 0;
        }))
      ++ content)
    ++ replicate padding 0

-- The content is cut to `uint16_t` for the header only.
abbrev pub append_short : Bytes → Bytes → Bytes
append_short content response =
    append_stdout (length content % 2 ^ 16) (padding_of (length content)) content response

-- The `for` loop over the full records; the first argument is the number of rounds left. The padding
-- is `-FCGI_MAX_LENGTH & 7` on a 32-bit `int`.
unfoldable pub full_records : ℕ → ℕ → Bytes → Bytes → Bytes
full_records zero i out response = response
full_records (suc n) i out response =
    let part = take max_length (drop (i * max_length) out) in
    full_records n (i + 1) out (append_stdout max_length ((2 ^ 32 - max_length) % 8) part response)

unfoldable pub append_output : Bytes → Bytes → Bytes
unfolding full_records
append_output out response =
    if leb (length out) max_length
    then append_short out response
    else let count = length out / max_length in
      let full = full_records count 0 out response in
      if length out % max_length == 0
      then full
      else append_short (drop (max_length * count) out) full

-- What the buffer holds at the end; `out` itself becomes `output_or_default out`.
unfoldable pub respond : Bytes → Bytes → Bytes
unfolding append_output
respond out response = end_request (end_stdout (append_output (output_or_default out) response))
