-- ===== src/Cocgi/Codec/Framing.antt =====
-- `parseFcgiPackage` on any records, and on a part of one behind them.
use fastcgi_async_or_corouti.Base.{
  ℕ, ◌+◌, ◌*◌, ◌<◌, ◌≡◌, refl, sym, ap, ◌∙◌, IsByte, inl, inr, Bool-cases, true, false, ==_iff,
  ◌&&◌, Bytes, List, [], ◌∷◌, ◌++◌, append-nil, append_assoc, length, length-append, leb, All, ◌==◌,
  if◌then◌else◌, arith,
}
use fastcgi_async_or_corouti.Endian.{hton16}
use fastcgi_async_or_corouti.Protocol.{Record, IsRecord, encode_record, encode_records}
use fastcgi_async_or_corouti.Cocgi.Params.{parse_all_params}
use fastcgi_async_or_corouti.Cocgi.Codec.{
  Codec, on_begin_request, on_params, dispatch, parse_fcgi_package,
}
use fastcgi_async_or_corouti.Cocgi.Codec.Streaming.{parse-done}
use fastcgi_async_or_corouti.Cocgi.Codec.Pieces.{
  with_buf, header_of, parse-encode_record, params_piece, stdin_piece, stdin_end,
}
use fastcgi_async_or_corouti.Cocgi.Codec.Prefix.{stops_short}

-- What records do to a codec, told by their types and contents: the role and the flags of a begin-request
-- record of eight bytes or more, then the two streams and their ends.
abbrev pub begun : Bytes → Codec → Codec
begun [] c = c
begun (hi ∷ []) c = c
begun (hi ∷ lo ∷ []) c = c
begun (hi ∷ lo ∷ flags ∷ rest) c =
    if leb 5 (length rest) && hi * 256 + lo == 1 then record c { keep_conn = flags == 1 } else c

abbrev pub with_params : Bytes → Codec → Codec
with_params [] c =
    let (_, st) = parse_all_params (record { stream = c.params_stream; params = c.params }) in
    record c { params_stream = st.stream; params = st.params }
with_params (b ∷ bs) c = record c { params_stream = c.params_stream ++ (b ∷ bs) }

abbrev pub with_stdin : Bytes → Codec → Codec
with_stdin [] c = record c { got_request = true }
with_stdin (b ∷ bs) c = record c { stdin = c.stdin ++ (b ∷ bs) }

unfoldable pub handled : Record → Codec → Codec
handled r c =
    if r.type == 1
    then begun r.content c
    else if r.type == 4
    then with_params r.content c
    else if r.type == 5
    then with_stdin r.content c
    else c

unfoldable pub all_handled : List Record → Codec → Codec
all_handled [] c = c
all_handled (r ∷ rs) c = all_handled rs (handled r c)

-- A record whose content is made of bytes.
pub record IsWire (r : Record) : Type 0 where
  pub valid : IsRecord r
  pub content_bytes : All IsByte r.content

-- A record at the head of the buffer, once it is taken off.
abbrev behind : Record → Bytes → Codec → Codec
behind r rest c = with_buf rest (dispatch (header_of r) (with_buf (encode_record r ++ rest) c))

begin_lem :
    (content padding rest : Bytes) (id : ℕ) (c : Codec)
    → let r : Record = record { type = 1; id = id; content = content; padding = padding } in
      All IsByte content → behind r rest c ≡ with_buf rest (begun content c)
unfolding dispatch on_begin_request encode_record hton16
begin_lem [] padding rest id c h = ground arith
begin_lem (hi ∷ []) padding rest id c h = ground arith
begin_lem (hi ∷ lo ∷ []) padding rest id c h = ground arith
begin_lem (hi ∷ lo ∷ flags ∷ more) padding rest id c h = ground (arith, h.0, h.1.0)

params_lem :
    (content padding rest : Bytes) (id : ℕ) (c : Codec)
    → let r : Record = record { type = 4; id = id; content = content; padding = padding } in
      IsRecord r → behind r rest c ≡ with_buf rest (with_params content c)
unfolding dispatch on_params
params_lem [] padding rest id c h = ground arith
params_lem (b ∷ bs) padding rest id c h =
    params_piece (record { type = 4; id = id; content = b ∷ bs; padding = padding }) rest c
      (record { valid = h; of_type = refl; has_bytes = omega arith })

stdin_lem :
    (content padding rest : Bytes) (id : ℕ) (c : Codec)
    → let r : Record = record { type = 5; id = id; content = content; padding = padding } in
      IsRecord r → behind r rest c ≡ with_buf rest (with_stdin content c)
stdin_lem [] padding rest id c h =
    stdin_end (record { type = 5; id = id; content = []; padding = padding }) rest c
      (record { valid = h; of_type = refl; no_bytes = refl })
stdin_lem (b ∷ bs) padding rest id c h =
    stdin_piece (record { type = 5; id = id; content = b ∷ bs; padding = padding }) rest c
      (record { valid = h; of_type = refl; has_bytes = omega arith })

other_lem :
    (r : Record) (rest : Bytes) (c : Codec)
    → (r.type == 1) ≡ false
    → (r.type == 4) ≡ false
    → (r.type == 5) ≡ false
    → behind r rest c ≡ with_buf rest (handled r c)
unfolding dispatch handled
other_lem r rest c h k l = rw (h, k, l) refl

same_valid :
    (type other id : ℕ) (content padding : Bytes)
    → IsRecord (record { type = type; id = id; content = content; padding = padding })
    → IsRecord (record { type = other; id = id; content = content; padding = padding })
same_valid type other id content padding h = record {
  short_id = h.short_id;
  short_content = h.short_content;
  short_padding = h.short_padding;
}

handled_lem :
    (type id : ℕ) (content padding rest : Bytes) (c : Codec)
    → let r : Record = record { type = type; id = id; content = content; padding = padding } in
      IsWire r → behind r rest c ≡ with_buf rest (handled r c)
unfolding handled
handled_lem type id content padding rest c h = elim (Bool-cases (type == 1)) [
  | inl e ↦ rw ((==_iff type 1).0 e) (begin_lem content padding rest id c h.content_bytes)
  | inr e ↦ elim (Bool-cases (type == 4)) [
    | inl f ↦
        let valid = same_valid type 4 id content padding h.valid in
        rw ((==_iff type 4).0 f) (params_lem content padding rest id c valid)
    | inr f ↦ elim (Bool-cases (type == 5)) [
      | inl g ↦
          let valid = same_valid type 5 id content padding h.valid in
          rw ((==_iff type 5).0 g) (stdin_lem content padding rest id c valid)
      | inr g ↦ other_lem _ rest c e f g
    ]
  ]
]

-- Records of any types, contents and paddings, with a part of one more behind them, in the buffer of any
-- codec: `parseFcgiPackage` handles each whole record once, in their order and by its type and content
-- alone, takes exactly these records with their paddings off the buffer, and leaves the bytes of the last
-- one there for the next read.
pub parse_records :
    (rs : List Record) (last : Record) (front back : Bytes) (c : Codec)
    → All IsWire rs
    → IsRecord last
    → front ++ back ≡ encode_record last
    → 0 < length back
    → parse_fcgi_package (with_buf (encode_records rs ++ front) c)
      ≡ with_buf front (all_handled rs c)
unfolding encode_records all_handled
parse_records [] last front back c h valid e more = parse-done (with_buf front c) (
    stops_short last [] front back c valid (e ∙ sym (append-nil (encode_record last)))
      (omega (arith, ap length e, length-append front back)))
parse_records (r ∷ rs) last front back c (hr, hs) valid e more =
    let rest = encode_records rs ++ front in
    ap (λ b. parse_fcgi_package (with_buf b c))
      (append_assoc (encode_record r) (encode_records rs) front)
    ∙ parse-encode_record r rest c hr.valid
    ∙ ap parse_fcgi_package (handled_lem r.type r.id r.content r.padding rest c hr)
    ∙ parse_records rs last front back (handled r c) hs valid e more
