-- ===== src/Endian.antt =====
-- Byte order: the macros `hton16`, `hton32` and `hton64` of cocgi/type.h on a little-endian host.
use fastcgi_async_or_corouti.Base.{
  ℕ, ◌+◌, ◌*◌, ◌/◌, ◌%◌, ◌^◌, ◌<◌, ◌≡◌, [], ◌∷◌, ◌++◌, Bytes, arith,
}

-- `x & 0xff00` shifted right by 8 is `x / 256 % 256`, and so on; the parts are disjoint, so `|` adds.
unfoldable pub hton16 : ℕ → ℕ
hton16 x = x / 256 % 256 + x % 256 * 256

unfoldable pub hton32 : ℕ → ℕ
hton32 x = x / 2 ^ 24 % 256 + x / 2 ^ 16 % 256 * 256 + x / 2 ^ 8 % 256 * 2 ^ 16 + x % 256 * 2 ^ 24

unfoldable pub hton64 : ℕ → ℕ
hton64 x =
    x % 256 * 2 ^ 56
    + x / 2 ^ 8 % 256 * 2 ^ 48
    + x / 2 ^ 16 % 256 * 2 ^ 40
    + x / 2 ^ 24 % 256 * 2 ^ 32
    + x / 2 ^ 32 % 256 * 2 ^ 24
    + x / 2 ^ 40 % 256 * 2 ^ 16
    + x / 2 ^ 48 % 256 * 2 ^ 8
    + x / 2 ^ 56 % 256

-- `memcpy` of a 16-bit or 32-bit word out of memory and into it, on a little-endian host.
abbrev pub load16 : ℕ → ℕ → ℕ
load16 b0 b1 = b0 + b1 * 256

abbrev pub store16 : ℕ → Bytes
store16 x = x % 256 ∷ x / 256 % 256 ∷ []

abbrev pub load32 : ℕ → ℕ → ℕ → ℕ → ℕ
load32 b0 b1 b2 b3 = b0 + b1 * 2 ^ 8 + b2 * 2 ^ 16 + b3 * 2 ^ 24

abbrev pub store32 : ℕ → Bytes
store32 x = x % 256 ∷ x / 2 ^ 8 % 256 ∷ x / 2 ^ 16 % 256 ∷ x / 2 ^ 24 % 256 ∷ []

abbrev pub store64 : ℕ → Bytes
store64 x = store32 (x % 2 ^ 32) ++ store32 (x / 2 ^ 32)

-- `hton16` is its own inverse, so `ntoh16` may be the same macro.
pub hton16-hton16 : (x : ℕ) → x < 2 ^ 16 → hton16 (hton16 x) ≡ x
unfolding hton16
hton16-hton16 x h = omega arith

pub hton32-hton32 : (x : ℕ) → x < 2 ^ 32 → hton32 (hton32 x) ≡ x
unfolding hton32
hton32-hton32 x h = omega arith

-- A word stored in network order and loaded again is the word.
pub load16-hton16 : (x : ℕ) → hton16 (load16 (hton16 x % 256) (hton16 x / 256 % 256)) ≡ x % 2 ^ 16
unfolding hton16
load16-hton16 x = omega arith
