-- ===== src/Buffer/Integers.antt =====
-- The operations of the class Buffer on 64-bit integers, and those that put integers in front.
use fastcgi_async_or_corouti.Base.{ℕ, ◌+◌, ◌*◌, ◌%◌, ◌^◌, [], ◌∷◌, get_or}
use fastcgi_async_or_corouti.Endian.{hton16, hton32, hton64, load32, store16, store32, store64}
use fastcgi_async_or_corouti.Buffer.{Buffer, peek, retrieve, append, prepend}

unfoldable pub append_int64 : ℕ → Buffer → Buffer
append_int64 x b = append (store64 (hton64 x)) b

unfoldable pub peek_int64 : Buffer → ℕ
peek_int64 b =
    let p = peek 8 b in
    hton64 (
      load32 (get_or p 0 0) (get_or p 1 0) (get_or p 2 0) (get_or p 3 0)
      + load32 (get_or p 4 0) (get_or p 5 0) (get_or p 6 0) (get_or p 7 0) * 2 ^ 32)

unfoldable pub read_int64 : Buffer → ℕ × Buffer
read_int64 b = (peek_int64 b, retrieve 8 b)

unfoldable pub prepend_int64 : ℕ → Buffer → Buffer
prepend_int64 x b = prepend (store64 (hton64 x)) b

unfoldable pub prepend_int32 : ℕ → Buffer → Buffer
prepend_int32 x b = prepend (store32 (hton32 x)) b

unfoldable pub prepend_int16 : ℕ → Buffer → Buffer
prepend_int16 x b = prepend (store16 (hton16 x)) b

unfoldable pub prepend_int8 : ℕ → Buffer → Buffer
prepend_int8 x b = prepend (x % 2 ^ 8 ∷ []) b
