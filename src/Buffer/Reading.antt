-- ===== src/Buffer/Reading.antt =====
-- Integers that are written to the buffer and read again.
use fastcgi_async_or_corouti.Base.{
  ℕ, ◌/◌, ◌%◌, ◌^◌, ◌<◌, ◌≡◌, Bytes, [], ◌++◌, length, length-append, drop-append_self, arith,
}
use fastcgi_async_or_corouti.Endian.{hton32, load32, store32, hton32-hton32}
use fastcgi_async_or_corouti.Buffer.{
  Buffer, peek, retrieve, append, append_int32, peek_int32, read_int32,
}
use fastcgi_async_or_corouti.Buffer.Content.{Holds, peek-Holds, retrieve-Holds}
use fastcgi_async_or_corouti.Buffer.Write.{append-Holds}

load32-store32 :
    (x : ℕ)
    → x < 2 ^ 32
    → load32 (x % 256) (x / 2 ^ 8 % 256) (x / 2 ^ 16 % 256) (x / 2 ^ 24 % 256) ≡ x
load32-store32 x h = omega arith

hton32-bounded : (x : ℕ) → hton32 x < 2 ^ 32
unfolding hton32
hton32-bounded x = omega arith

peek_int32-Holds :
    (x : ℕ) (b : Buffer) (rest : Bytes)
    → x < 2 ^ 32
    → Holds b (store32 (hton32 x) ++ rest)
    → peek_int32 b ≡ x
unfolding peek_int32
peek_int32-Holds x b rest h held =
    let p : peek 4 b ≡ store32 (hton32 x) =
      peek-Holds b (store32 (hton32 x) ++ rest) 4 held (omega arith) in
    rw (p, load32-store32 (hton32 x) (hton32-bounded x)) (hton32-hton32 x h)

-- An integer that is appended to a buffer in any state stands behind the bytes that are there: when
-- these have been retrieved, `readInt32` gives it, if it has 32 bits, and leaves nothing.
pub read-append_int32 :
    (x : ℕ) (b : Buffer) (xs : Bytes)
    → x < 2 ^ 32
    → Holds b xs
    → ((read_int32 (retrieve (length xs) (append_int32 x b))).0 ≡ x)
      × Holds (read_int32 (retrieve (length xs) (append_int32 x b))).1 []
unfolding read_int32 append_int32
read-append_int32 x b xs h held =
    let word = store32 (hton32 x) in
    let written = append-Holds word b xs held in
    let next : Holds (retrieve (length xs) (append word b)) word =
      rw (drop-append_self xs word) at (
        retrieve-Holds (length xs) (append word b) (xs ++ word) written
          (omega (arith, length-append xs word))) in
    (
      peek_int32-Holds x (retrieve (length xs) (append word b)) [] h next,
      retrieve-Holds 4 (retrieve (length xs) (append word b)) word next (omega arith),
    )
