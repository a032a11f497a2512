-- ===== src/Cocgi/Codec/Pieces.antt =====
-- What `parseFcgiPackage` makes of a well-formed record of each kind at the head of the buffer.
use fastcgi_async_or_corouti.Base.{
  ℕ, ◌/◌, ◌%◌, ◌^◌, ◌≤◌, ◌<◌, ◌≡◌, ap, true, Bytes, List, [], ◌∷◌, ◌++◌, append_assoc, length, drop,
  take, assign_pairs, All, length-append, take-append_self, drop-append_self, ◌==◌, if◌then◌else◌,
  arith,
}
use fastcgi_async_or_corouti.Endian.{hton16}
use fastcgi_async_or_corouti.Protocol.{Record, IsRecord, encode_record, length-encode_record}
use fastcgi_async_or_corouti.Cocgi.Kind
use fastcgi_async_or_corouti.Cocgi.Header.{RecordHeader, record_header, load_header}
use fastcgi_async_or_corouti.Cocgi.Params.RoundTrip.{
  encode_pairs, HasShortFields, parse_all_params-encode_pairs,
}
use fastcgi_async_or_corouti.Cocgi.Codec.{
  Codec, on_begin_request, on_params, on_stdin, dispatch, total_length, parse_step,
  parse_fcgi_package,
}
use fastcgi_async_or_corouti.Cocgi.Codec.Loop.{dispatch-buf, parse_fcgi_package_lem}

pub load_header-encode_record :
    (r : Record) (rest : Bytes)
    → IsRecord r
    → load_header (encode_record r ++ rest) ≡ record {
      version = 1;
      type = r.type;
      id = r.id;
      content_length = length r.content;
      padding = length r.padding;
      unused = 0;
    }
unfolding load_header encode_record hton16
load_header-encode_record r rest h = ground arith

-- The codec with `b` in its buffer.
abbrev pub with_buf : Bytes → Codec → Codec
with_buf b c = record c { buf = b }

abbrev pub header_of : Record → RecordHeader
header_of r = record {
  version = 1;
  type = r.type;
  id = r.id;
  content_length = length r.content;
  padding = length r.padding;
  unused = 0;
}

drop-encode_record :
    (r : Record) (rest : Bytes) → drop (total_length (header_of r)) (encode_record r ++ rest) ≡ rest
drop-encode_record r rest =
    let e : length (encode_record r) ≡ total_length (header_of r) =
      omega (arith, length-encode_record r) in
    rw (← e) (drop-append_self (encode_record r) rest)

content-encode_record :
    (r : Record) (rest : Bytes)
    → take (length r.content) (drop record_header (encode_record r ++ rest)) ≡ r.content
unfolding encode_record
content-encode_record r rest =
    rw (append_assoc r.content r.padding rest) (take-append_self r.content (r.padding ++ rest))

-- A record at the head of the buffer is handled and taken off.
pub parse-encode_record :
    (r : Record) (rest : Bytes) (c : Codec)
    → IsRecord r
    → parse_fcgi_package (with_buf (encode_record r ++ rest) c)
      ≡ parse_fcgi_package
          (with_buf rest (dispatch (header_of r) (with_buf (encode_record r ++ rest) c)))
unfolding parse_step
parse-encode_record r rest c h = ground (
  arith,
  parse_fcgi_package_lem (with_buf (encode_record r ++ rest) c),
  load_header-encode_record r rest h,
  length-append (encode_record r) rest,
  length-encode_record r,
  drop-encode_record r rest,
  dispatch-buf (header_of r) (with_buf (encode_record r ++ rest) c),
)

-- The bytes of `FCGI_BeginRequestBody`.
abbrev pub begin_body : ℕ → ℕ → Bytes → Bytes
begin_body role flags reserved = role / 256 ∷ role % 256 ∷ flags ∷ reserved

-- A record of one of the streams, with bytes in it.
pub record IsPiece (type : ℕ) (r : Record) : Type 0 where
  pub valid : IsRecord r
  pub of_type : r.type ≡ type
  pub has_bytes : 0 < length r.content

-- The record that ends a stream.
pub record IsEnd (type : ℕ) (r : Record) : Type 0 where
  pub valid : IsRecord r
  pub of_type : r.type ≡ type
  pub no_bytes : r.content ≡ []

unfoldable pub contents : List Record → Bytes
contents [] = []
contents (r ∷ rs) = r.content ++ contents rs

pub params_piece :
    (r : Record) (rest : Bytes) (c : Codec)
    → IsPiece Kind.params r
    → with_buf rest (dispatch (header_of r) (with_buf (encode_record r ++ rest) c))
      ≡ with_buf rest (record c { params_stream = c.params_stream ++ r.content })
unfolding dispatch on_params
params_piece r rest c h = ground (arith, content-encode_record r rest)

pub stdin_piece :
    (r : Record) (rest : Bytes) (c : Codec)
    → IsPiece Kind.stdin r
    → with_buf rest (dispatch (header_of r) (with_buf (encode_record r ++ rest) c))
      ≡ with_buf rest (record c { stdin = c.stdin ++ r.content })
unfolding dispatch on_stdin
stdin_piece r rest c h = ground (arith, content-encode_record r rest)

pub stdin_end :
    (r : Record) (rest : Bytes) (c : Codec)
    → IsEnd Kind.stdin r
    → with_buf rest (dispatch (header_of r) (with_buf (encode_record r ++ rest) c))
      ≡ with_buf rest (record c { got_request = true })
unfolding dispatch on_stdin
stdin_end r rest c h = ground (arith, ap length h.no_bytes)

pub params_end :
    (r : Record) (rest : Bytes) (c : Codec) (ps : List (Bytes × Bytes))
    → IsEnd Kind.params r
    → c.params_stream ≡ encode_pairs ps
    → All HasShortFields ps
    → with_buf rest (dispatch (header_of r) (with_buf (encode_record r ++ rest) c))
      ≡ with_buf rest (record c { params_stream = []; params = assign_pairs ps c.params })
unfolding dispatch on_params
params_end r rest c ps h e short =
    ground (arith, ap length h.no_bytes, parse_all_params-encode_pairs ps c.params short)

pub begin_record :
    (r : Record) (rest : Bytes) (c : Codec) (role flags : ℕ) (reserved : Bytes)
    → r.type ≡ Kind.begin_request
    → r.content ≡ begin_body role flags reserved
    → 5 ≤ length reserved
    → role < 2 ^ 16
    → with_buf rest (dispatch (header_of r) (with_buf (encode_record r ++ rest) c))
      ≡ with_buf rest
          (if role == Kind.responder then record c { keep_conn = flags == Kind.keep_conn } else c)
unfolding dispatch on_begin_request encode_record hton16
begin_record r rest c role flags reserved t e long small = rw (t, e) (ground arith)
