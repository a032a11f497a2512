-- ===== src/Cocgi/Codec/Foreign.antt =====
-- Records of the types that `parseFcgiPackage` has no case for.
use fastcgi_async_or_corouti.Base.{
  append-nil, drop_all, ◌≡◌, refl, ◌∙◌, ap, sym, inl, inr, Bool-cases, Bool, true, false, ◌||◌,
  Bytes, List, [], ◌∷◌, ◌++◌, All, ◌==◌, if◌then◌else◌, arith,
}
use fastcgi_async_or_corouti.Protocol.{
  Record, IsRecord, encode_record, encode_records, length-encode_record,
}
use fastcgi_async_or_corouti.Cocgi.Kind
use fastcgi_async_or_corouti.Cocgi.Codec.{
  Codec, dispatch, total_length, parse_step, parse_fcgi_package,
}
use fastcgi_async_or_corouti.Cocgi.Codec.Loop.{dispatch-buf}
use fastcgi_async_or_corouti.Cocgi.Codec.Streaming.{fill, parse-fill_more}
use fastcgi_async_or_corouti.Cocgi.Codec.Pieces.{with_buf, header_of, load_header-encode_record}

-- The record starts a request or is of one of its two streams.
unfoldable pub is_known : Record → Bool
is_known r = r.type == Kind.begin_request || (r.type == Kind.params || r.type == Kind.stdin)

unfoldable pub known : List Record → List Record
known [] = []
known (r ∷ rs) = let rest = known rs in if is_known r then r ∷ rest else rest

dispatch-foreign : (r : Record) (c : Codec) → is_known r ≡ false → dispatch (header_of r) c ≡ c
unfolding is_known dispatch
dispatch-foreign r c h = ground (arith, h)

step-encode_record :
    (r : Record) (c : Codec)
    → IsRecord r
    → parse_step (with_buf (encode_record r) c)
      ≡ (true, with_buf [] (dispatch (header_of r) (with_buf (encode_record r) c)))
unfolding parse_step
step-encode_record r c h = ground (
  arith,
  rw (append-nil (encode_record r)) at (load_header-encode_record r [] h),
  length-encode_record r,
  drop_all (total_length (header_of r)) (encode_record r) (omega (arith, length-encode_record r)),
  dispatch-buf (header_of r) (with_buf (encode_record r) c),
)

-- A record at the head is handled as if nothing stood behind it.
parse-head :
    (r : Record) (rest : Bytes) (c : Codec)
    → IsRecord r
    → parse_fcgi_package (with_buf (encode_record r ++ rest) c)
      ≡ parse_fcgi_package (with_buf rest (dispatch (header_of r) (with_buf (encode_record r) c)))
parse-head r rest c h =
    let step = step-encode_record r c h in
    parse-fill_more (with_buf (encode_record r) c) rest (ap (λ x. x.0) step)
    ∙ ap (λ x. parse_fcgi_package (fill rest x.1)) step

-- Records of other types, wherever they stand among those of one or more requests, change nothing: the
-- codec is as if they had not come.
pub parse-known :
    (rs : List Record) (c : Codec)
    → All IsRecord rs
    → parse_fcgi_package (with_buf (encode_records rs) c)
      ≡ parse_fcgi_package (with_buf (encode_records (known rs)) c)
unfolding known encode_records
parse-known [] c h = refl
parse-known (r ∷ rs) c (hr, hs) =
    let next = dispatch (header_of r) (with_buf (encode_record r) c) in
    parse-head r (encode_records rs) c hr ∙ elim (Bool-cases (is_known r)) [
      | inl e ↦ parse-known rs next hs ∙ rw e (sym (parse-head r (encode_records (known rs)) c hr))
      | inr e ↦ rw (e, dispatch-foreign r (with_buf (encode_record r) c) e) (parse-known rs c hs)
    ]
