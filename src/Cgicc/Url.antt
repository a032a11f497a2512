-- ===== src/Cgicc/Url.antt =====
-- `charToHex`, `hexToChar`, `form_urlencode` and `form_urldecode` of cocgi/cgicc_lib/CgiUtils.cpp. A
-- `char` is its bit pattern, a number below 256.
pub mod Decoding
use fastcgi_async_or_corouti.Base.{
  ℕ, zero, suc, ◌+◌, ◌-◌, ◌*◌, ◌/◌, ◌%◌, Bool, true, false, ◌&&◌, ◌||◌, Bytes, [], ◌∷◌, ◌++◌,
  get_or, length, ltb, leb, ◌==◌, if◌then◌else◌,
}

-- One of the two digits, its value below 16.
unfoldable pub hex_char : ℕ → ℕ
hex_char n = if ltb 9 n then n + (65 - 10) else n + 48

unfoldable pub char_to_hex : ℕ → Bytes
unfolding hex_char
char_to_hex c = hex_char (c / 16) ∷ hex_char (c % 16) ∷ []

-- A `char` from 128 on is negative, and `& 0xDF` clears bit 5. What is below 0 is given modulo 256.
unfoldable pub hex_value : ℕ → ℕ
hex_value c =
    if leb 65 c && ltb c 128 then ((c - c / 32 % 2 * 32) + 10) - 65 else (c + (256 - 48)) % 256

unfoldable pub hex_to_char : ℕ → ℕ → ℕ
unfolding hex_value
hex_to_char first second = (hex_value first * 16 + hex_value second) % 256

-- `isxdigit`
unfoldable pub is_xdigit : ℕ → Bool
is_xdigit c = (leb 48 c && leb c 57) || ((leb 65 c && leb c 70) || (leb 97 c && leb c 102))

-- The letters, the digits and `-_.!~*'()`
unfoldable pub is_unreserved : ℕ → Bool
is_unreserved c =
    (leb 65 c && leb c 90)
    || ((leb 97 c && leb c 122)
        || ((leb 48 c && leb c 57)
            || ((c == 45 || (c == 95 || c == 46))
                || ((c == 33 || (c == 126 || c == 42)) || (c == 39 || (c == 40 || c == 41))))))

-- What the `switch` appends for a character.
unfoldable pub encode_char : ℕ → Bytes
encode_char c = if c == 32 then 43 ∷ [] else if is_unreserved c then c ∷ [] else 37 ∷ char_to_hex c

unfoldable pub form_urlencode : Bytes → Bytes
form_urlencode [] = []
form_urlencode (c ∷ cs) = encode_char c ++ form_urlencode cs

-- Whether the `%` before `rest` begins an escape. Behind the last character of a string is a 0.
unfoldable pub is_escape : Bytes → Bool
is_escape rest = leb 1 (length rest) && (is_xdigit (get_or rest 0 0) && is_xdigit (get_or rest 1 0))

-- The character that a round appends, and by how many characters it moves `iter` itself.
unfoldable pub decode_char : ℕ → Bytes → ℕ × ℕ
decode_char c rest =
    if c == 43
    then (32, 0)
    else if c == 37
    then (if is_escape rest then (hex_to_char (get_or rest 0 0) (get_or rest 1 0), 2) else (37, 0))
    else (c, 0)

-- The loop, when `iter` has still to move by this many characters.
unfoldable pub decode_loop : ℕ → Bytes → Bytes
decode_loop n [] = []
decode_loop (suc n) (c ∷ cs) = decode_loop n cs
decode_loop zero (c ∷ cs) = let (d, skip) = decode_char c cs in d ∷ decode_loop skip cs

unfoldable pub form_urldecode : Bytes → Bytes
unfolding decode_loop
form_urldecode src = decode_loop 0 src
