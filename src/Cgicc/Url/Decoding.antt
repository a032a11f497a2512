-- ===== src/Cgicc/Url/Decoding.antt =====
-- `form_urldecode` on what `form_urlencode` gives.
use fastcgi_async_or_corouti.Base.{
  IsByte, ℕ, ◌/◌, ◌%◌, ◌<◌, ◌≡◌, refl, ap, ◌∙◌, true, Bytes, [], ◌∷◌, ◌++◌, All, arith,
}
use fastcgi_async_or_corouti.Cgicc.Url.{
  hex_char, char_to_hex, hex_value, hex_to_char, is_xdigit, is_unreserved, encode_char,
  form_urlencode, is_escape, decode_char, decode_loop, form_urldecode,
}

hex_digit_lem : (n : ℕ) → n < 16 → (is_xdigit (hex_char n) ≡ true) × (hex_value (hex_char n) ≡ n)
unfolding is_xdigit hex_char hex_value
hex_digit_lem n h = ground arith

hex_to_char-hex_char : (c : ℕ) → c < 256 → hex_to_char (hex_char (c / 16)) (hex_char (c % 16)) ≡ c
unfolding hex_to_char
hex_to_char-hex_char c h =
    let high = (hex_digit_lem (c / 16) (omega arith)).1 in
    let low = (hex_digit_lem (c % 16) (omega arith)).1 in rw (high, low) (omega arith)

-- The encoding of a byte at the head is decoded to it.
decode-encode_char :
    (c : ℕ) (rest : Bytes)
    → c < 256
    → decode_loop 0 (encode_char c ++ rest) ≡ c ∷ decode_loop 0 rest
unfolding encode_char decode_loop decode_char char_to_hex is_escape is_unreserved
decode-encode_char c rest h = ground (
  arith,
  hex_to_char-hex_char c h,
  (hex_digit_lem (c / 16) (omega arith)).0,
  (hex_digit_lem (c % 16) (omega arith)).0,
)

-- Decoding the encoding of a string of bytes gives the string.
pub form_urldecode-encode : (s : Bytes) → All IsByte s → form_urldecode (form_urlencode s) ≡ s
unfolding form_urldecode form_urlencode
form_urldecode-encode [] h = refl
form_urldecode-encode (c ∷ cs) (b, h) =
    decode-encode_char c (form_urlencode cs) b ∙ ap (λ t. c ∷ t) (form_urldecode-encode cs h)
