-- ===== src/Cocgi/Codec/Streaming.antt =====
-- `parseFcgiPackage` on bytes that are cut into reads.
use fastcgi_async_or_corouti.Base.{
  ℕ, zero, suc, ◌+◌, ◌≤◌, ◌≡◌, sym, ◌∙◌, ap, true, false, Bytes, List, [], ◌∷◌, ◌++◌, append-nil,
  append_assoc, length, drop, take, concat, length-append, inl, inr, Bool-cases, length-drop,
  get_or-append_lt, drop-append_le, take-append_le, arith,
}
use fastcgi_async_or_corouti.Cocgi.Header.{RecordHeader, record_header, load_header}
use fastcgi_async_or_corouti.Cocgi.Codec.{
  Codec, on_begin_request, on_params, on_stdin, dispatch, total_length, parse_step,
  parse_fcgi_package,
}
use fastcgi_async_or_corouti.Cocgi.Codec.Loop.{
  dispatch-buf, parse_step-shorter, parse_fcgi_package_lem,
}

-- What a successful read does to `m_buf`.
abbrev pub fill : Bytes → Codec → Codec
fill b c = record c { buf = c.buf ++ b }

pub load_header-append :
    (s b : Bytes) → record_header ≤ length s → load_header (s ++ b) ≡ load_header s
unfolding load_header
load_header-append s b h = ground (
  arith,
  get_or-append_lt s b 0 0,
  get_or-append_lt s b 1 0,
  get_or-append_lt s b 2 0,
  get_or-append_lt s b 3 0,
  get_or-append_lt s b 4 0,
  get_or-append_lt s b 5 0,
  get_or-append_lt s b 6 0,
  get_or-append_lt s b 7 0,
)

content-append :
    (s b : Bytes) (n : ℕ)
    → record_header + n ≤ length s
    → take n (drop record_header (s ++ b)) ≡ take n (drop record_header s)
content-append s b n h =
    rw (drop-append_le record_header s b (omega arith))
      (take-append_le n (drop record_header s) b (omega (arith, length-drop record_header s)))

on_begin_request-fill :
    (h : RecordHeader) (b : Bytes) (c : Codec)
    → record_header + h.content_length ≤ length c.buf
    → (on_begin_request h (fill b c)).1 ≡ fill b (on_begin_request h c).1
unfolding on_begin_request
on_begin_request-fill h b c e = ground (
  arith,
  get_or-append_lt c.buf b 8 0,
  get_or-append_lt c.buf b 9 0,
  get_or-append_lt c.buf b 10 0,
)

on_params-fill :
    (x y b : Bytes) (n : ℕ) (c : Codec)
    → take n x ≡ take n y
    → (on_params x n (fill b c)).1 ≡ fill b (on_params y n c).1
unfolding on_params
on_params-fill x y b n c e = ground arith

on_stdin-fill :
    (x y b : Bytes) (n : ℕ) (c : Codec)
    → take n x ≡ take n y
    → on_stdin x n (fill b c) ≡ fill b (on_stdin y n c)
unfolding on_stdin
on_stdin-fill x y b n c e = ground arith

dispatch-fill :
    (h : RecordHeader) (b : Bytes) (c : Codec)
    → record_header + h.content_length ≤ length c.buf
    → dispatch h (fill b c) ≡ fill b (dispatch h c)
unfolding dispatch
dispatch-fill h b c e =
    let x = drop record_header (c.buf ++ b) in
    let y = drop record_header c.buf in
    let same = content-append c.buf b h.content_length e in
    ground (
      arith,
      on_begin_request-fill h b c e,
      on_params-fill x y b h.content_length c same,
      on_stdin-fill x y b h.content_length c same,
    )

-- A record that is there whole is handled alike, whatever has arrived behind it.
parse_step-fill :
    (c : Codec) (b : Bytes)
    → (parse_step c).0 ≡ true
    → parse_step (fill b c) ≡ (true, fill b (parse_step c).1)
unfolding parse_step
parse_step-fill c b e =
    let h = load_header c.buf in
    ground (
      arith,
      load_header-append c.buf b,
      length-append c.buf b,
      dispatch-fill h b c,
      dispatch-buf h c,
      drop-append_le (total_length h) c.buf b,
    )

parse-more :
    (c : Codec)
    → (parse_step c).0 ≡ true
    → parse_fcgi_package c ≡ parse_fcgi_package (parse_step c).1
parse-more c e = ground (arith, parse_fcgi_package_lem c)

pub parse-done : (c : Codec) → (parse_step c).0 ≡ false → parse_fcgi_package c ≡ c
parse-done c e = ground (arith, parse_fcgi_package_lem c)

pub parse-fill_more :
    (c : Codec) (b : Bytes)
    → (parse_step c).0 ≡ true
    → parse_fcgi_package (fill b c) ≡ parse_fcgi_package (fill b (parse_step c).1)
parse-fill_more c b e =
    let step = parse_step-fill c b e in
    parse-more (fill b c) (ap (λ r. r.0) step) ∙ ap (λ r. parse_fcgi_package r.1) step

parse-fill_fuel :
    (n : ℕ) (c : Codec) (b : Bytes)
    → length c.buf ≤ n
    → parse_fcgi_package (fill b c) ≡ parse_fcgi_package (fill b (parse_fcgi_package c))
parse-fill_fuel zero c b h = elim (Bool-cases (parse_step c).0) [
  | inl e ↦ absurd (omega (arith, parse_step-shorter c e))
  | inr e ↦ rw (parse-done c e)
]
parse-fill_fuel (suc n) c b h = elim (Bool-cases (parse_step c).0) [
  | inl e ↦
      parse-fill_more c b e
      ∙ parse-fill_fuel n (parse_step c).1 b (omega (arith, parse_step-shorter c e))
      ∙ ap (λ r. parse_fcgi_package (fill b r)) (sym (parse-more c e))
  | inr e ↦ rw (parse-done c e)
]

-- Parsing what has arrived, and parsing again when more has arrived, gives the state that parsing all
-- of it at once gives, the bytes left in the buffer included.
pub parse-fill :
    (c : Codec) (b : Bytes)
    → parse_fcgi_package (fill b (parse_fcgi_package c)) ≡ parse_fcgi_package (fill b c)
parse-fill c b = sym (parse-fill_fuel (length c.buf) c b (omega arith))

-- The bytes of a connection as they come, each read followed by a parse.
unfoldable pub feed : Codec → List Bytes → Codec
feed c [] = c
feed c (b ∷ bs) = feed (parse_fcgi_package (fill b c)) bs

-- However the bytes of a connection are cut into one or more reads, parsing after each read leaves the
-- codec in the state that one parse of all the bytes gives, from any state of the codec.
pub feed-concat :
    (c : Codec) (b : Bytes) (bs : List Bytes)
    → feed c (b ∷ bs) ≡ parse_fcgi_package (fill (b ++ concat bs) c)
unfolding feed
feed-concat c b [] = rw append-nil
feed-concat c b (d ∷ bs) =
    feed-concat (parse_fcgi_package (fill b c)) d bs
    ∙ parse-fill (fill b c) (d ++ concat bs)
    ∙ ap (λ s. parse_fcgi_package (record c { buf = s })) (append_assoc c.buf b (d ++ concat bs))
