-- ===== src/Protocol.antt =====
-- The wire format that the comments of cocgi/fastcgi.cpp quote from the FastCGI specification, apart
-- from the code: a record is eight bytes of header in network order, its content and its padding.
pub mod Client
pub mod Stream
use fastcgi_async_or_corouti.Base.{
  ℕ, ◌+◌, ◌/◌, ◌%◌, ◌^◌, ◌<◌, ◌≡◌, refl, Bytes, List, [], ◌∷◌, ◌++◌, append_assoc, length,
  length-append, arith,
}

pub record Record : Type 0 where
  pub type : ℕ
  pub id : ℕ
  pub content : Bytes
  pub padding : Bytes

-- The widths of the header's fields.
pub record IsRecord (r : Record) : Type 0 where
  pub short_id : r.id < 2 ^ 16
  pub short_content : length r.content < 2 ^ 16
  pub short_padding : length r.padding < 2 ^ 8

abbrev pub header_bytes : Record → Bytes
header_bytes r =
    1
    ∷ r.type
    ∷ r.id / 256
    ∷ r.id % 256
    ∷ length r.content / 256
    ∷ length r.content % 256
    ∷ length r.padding
    ∷ 0
    ∷ []

unfoldable pub encode_record : Record → Bytes
encode_record r = header_bytes r ++ (r.content ++ r.padding)

unfoldable pub encode_records : List Record → Bytes
encode_records [] = []
encode_records (r ∷ rs) = encode_record r ++ encode_records rs

pub encode_records-append :
    (rs ss : List Record) → encode_records (rs ++ ss) ≡ encode_records rs ++ encode_records ss
unfolding encode_records
encode_records-append [] ss = refl
encode_records-append (r ∷ rs) ss = simp (encode_records-append rs ss, append_assoc)

pub length-encode_record :
    (r : Record) → length (encode_record r) ≡ 8 + (length r.content + length r.padding)
unfolding encode_record
length-encode_record r = omega (arith, length-append r.content r.padding)
