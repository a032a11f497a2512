-- ===== src/Cocgi/Respond.antt =====
-- `FastCgiCodec::respond`, `endStdout` and `endRequest` of cocgi/fastcgi.cpp. A `muduo::net::Buffer` is
-- its readable bytes.
pub mod Framing
pub mod Output
pub mod Reading
pub mod Stream
use fastcgi_async_or_corouti.Base.{
  ℕ, zero, suc, ◌+◌, ◌-◌, ◌*◌, ◌/◌, ◌%◌, ◌^◌, Bytes, [], ◌∷◌, ◌++◌, length, take, drop, replicate,
  leb, ◌==◌, if◌then◌else◌, codes,
}
use fastcgi_async_or_corouti.Endian.{hton16, hton32, store32}
use fastcgi_async_or_corouti.Cocgi.Kind
use fastcgi_async_or_corouti.Cocgi.Header.{record_header, store_header}

-- FCGI_MAX_CONTENT_LENGTH
abbrev pub max_content_length : ℕ
max_content_length = 0xffff

unfoldable pub end_stdout : Bytes → Bytes
end_stdout buf =
    buf
    ++ store_header (record {
      version = 1;
      type = Kind.stdout;
      id = hton16 1;
      content_length = 0;
      padding = 0;
      unused = 0;
    })

-- `appendInt32`: `hton32`, then the word as it lies in memory.
abbrev pub append_int32 : Bytes → ℕ → Bytes
append_int32 buf x = buf ++ store32 (hton32 x)

unfoldable pub end_request : Bytes → Bytes
end_request buf =
    let header =
      buf
      ++ store_header (record {
        version = 1;
        type = Kind.end_request;
        id = hton16 1;
        content_length = hton16 record_header;
        padding = 0;
        unused = 0;
      }) in
    append_int32 (append_int32 header 0) 0

-- A header of `FCGI_STDOUT`, the content and its padding, behind what the buffer holds.
unfoldable pub append_stdout : ℕ → ℕ → Bytes → Bytes → Bytes
append_stdout content_length padding content response =
    ((response
        ++ store_header (record {
          version = 1;
          type = Kind.stdout;
          id = hton16 1;
          content_length = hton16 content_length;
          padding = padding;
          unused = 0;
        }))
      ++ content)
    ++ replicate padding 0

-- static_cast<uint8_t>(-n & 7) for a `size_t` n
abbrev pub padding_of : ℕ → ℕ
padding_of n = (2 ^ 64 - n % 2 ^ 64) % 8

-- The content is cut to `uint16_t` for the header only.
abbrev pub append_short : Bytes → Bytes → Bytes
append_short content response =
    append_stdout (length content % 2 ^ 16) (padding_of (length content)) content response

-- The `for` loop over the full records; the first argument is the number of rounds left. The padding
-- is `-FCGI_MAX_CONTENT_LENGTH & 7` on a 32-bit `int`.
unfoldable pub full_records : ℕ → ℕ → Bytes → Bytes → Bytes
full_records zero i out response = response
full_records (suc n) i out response =
    let part = take max_content_length (drop (i * max_content_length) out) in
    full_records n (i + 1) out
      (append_stdout max_content_length ((2 ^ 32 - max_content_length) % 8) part response)

-- The answer where the back end gave nothing; `content.length()` is 13.
abbrev pub empty_result : Bytes
empty_result =
    codes "Content-Type: text/html; charset=UTF-8\r\n"
    ++ (codes "Content-Length: 13\r\n\r\n" ++ codes "Empty Result!")

unfoldable pub append_output : Bytes → Bytes → Bytes
unfolding full_records
append_output out response =
    if leb (length out) max_content_length
    then append_short out response
    else let count = length out / max_content_length in
      let full = full_records count 0 out response in
      if length out % max_content_length == 0
      then full
      else append_short (drop (max_content_length * count) out) full

abbrev pub output_or_default : Bytes → Bytes
output_or_default [] = empty_result
output_or_default (x ∷ xs) = x ∷ xs

-- What the buffer holds at the end; `out` itself becomes `output_or_default out`.
unfoldable pub respond : Bytes → Bytes → Bytes
unfolding append_output
respond out response = end_request (end_stdout (append_output (output_or_default out) response))
