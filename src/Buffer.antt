-- ===== src/Buffer.antt =====
-- The class `Buffer` of cocgi/muduo_lib, as cocgi has adapted it: a vector of bytes with two indices.
-- The assertions are the conditions of the theorems about it.
pub mod Content
pub mod Write
pub mod Refinement
pub mod Search
pub mod Integers
pub mod Reading
pub mod AsQueue
use fastcgi_async_or_corouti.Base.{
  ℕ, ◌+◌, ◌-◌, ◌%◌, ◌^◌, Bytes, [], ◌∷◌, ◌++◌, length, take, drop, replicate, get_or, ltb, leb,
  if◌then◌else◌,
}
use fastcgi_async_or_corouti.Endian.{hton16, hton32, load16, load32, store16, store32}

-- kCheapPrepend and kInitialSize
abbrev pub cheap_prepend : ℕ
cheap_prepend = 8

abbrev pub initial_size : ℕ
initial_size = 1024

pub record Buffer : Type 0 where
  pub buffer : Bytes
  pub reader_index : ℕ
  pub writer_index : ℕ

-- The constructor.
unfoldable pub new_buffer : ℕ → Buffer
new_buffer size = record {
  buffer = replicate (cheap_prepend + size) 0;
  reader_index = cheap_prepend;
  writer_index = cheap_prepend;
}

abbrev pub readable_bytes : Buffer → ℕ
readable_bytes b = b.writer_index - b.reader_index

abbrev pub writable_bytes : Buffer → ℕ
writable_bytes b = length b.buffer - b.writer_index

abbrev pub prependable_bytes : Buffer → ℕ
prependable_bytes b = b.reader_index

-- `std::copy(data, data + len, begin() + i)`
abbrev pub copy_to : ℕ → Bytes → Bytes → Bytes
copy_to i bytes buffer = take i buffer ++ (bytes ++ drop (i + length bytes) buffer)

-- `vector::resize`
abbrev pub resize : ℕ → Bytes → Bytes
resize n buffer = take n buffer ++ replicate (n - length buffer) 0

-- The `n` bytes from `peek()` on.
unfoldable pub peek : ℕ → Buffer → Bytes
peek n b = take n (drop b.reader_index b.buffer)

unfoldable pub retrieve_all : Buffer → Buffer
retrieve_all b = record b { reader_index = cheap_prepend; writer_index = cheap_prepend }

unfoldable pub retrieve : ℕ → Buffer → Buffer
unfolding retrieve_all
retrieve len b =
    if ltb len (readable_bytes b)
    then record b { reader_index = b.reader_index + len }
    else retrieve_all b

unfoldable pub retrieve_as_string : ℕ → Buffer → Bytes × Buffer
unfolding peek retrieve
retrieve_as_string len b = (peek len b, retrieve len b)

unfoldable pub retrieve_all_as_string : Buffer → Bytes × Buffer
unfolding retrieve_as_string
retrieve_all_as_string b = retrieve_as_string (readable_bytes b) b

unfoldable pub make_space : ℕ → Buffer → Buffer
make_space len b =
    if ltb (writable_bytes b + prependable_bytes b) (len + cheap_prepend)
    then record b { buffer = resize (b.writer_index + len) b.buffer }
    else let readable = readable_bytes b in
      record {
        buffer = copy_to cheap_prepend (take readable (drop b.reader_index b.buffer)) b.buffer;
        reader_index = cheap_prepend;
        writer_index = cheap_prepend + readable;
      }

unfoldable pub ensure_writable_bytes : ℕ → Buffer → Buffer
unfolding make_space
ensure_writable_bytes len b = if ltb (writable_bytes b) len then make_space len b else b

unfoldable pub has_written : ℕ → Buffer → Buffer
has_written len b = record b { writer_index = b.writer_index + len }

unfoldable pub unwrite : ℕ → Buffer → Buffer
unwrite len b = record b { writer_index = b.writer_index - len }

unfoldable pub append : Bytes → Buffer → Buffer
unfolding has_written
append bytes b =
    let b' = ensure_writable_bytes (length bytes) b in
    has_written (length bytes) (record b' { buffer = copy_to b'.writer_index bytes b'.buffer })

unfoldable pub prepend : Bytes → Buffer → Buffer
prepend bytes b =
    let i = b.reader_index - length bytes in
    record b { reader_index = i; buffer = copy_to i bytes b.buffer }

-- `other.append(toStringPiece())`, and the swap.
unfoldable pub shrink : ℕ → Buffer → Buffer
shrink reserve b =
    append (peek (readable_bytes b) b)
      (ensure_writable_bytes (readable_bytes b + reserve) (new_buffer initial_size))

-- `readFd`, where `readv` has delivered these bytes: into the writable part first, the others by way
-- of `extrabuf`. A negative result of `readv` changes nothing.
unfoldable pub read_fd : Bytes → Buffer → Buffer
unfolding has_written
read_fd bytes b =
    let writable = writable_bytes b in
    let direct : Buffer = record b {
      buffer = copy_to b.writer_index (take writable bytes) b.buffer;
    } in
    if leb (length bytes) writable
    then has_written (length bytes) direct
    else append (drop writable bytes) (record direct { writer_index = length direct.buffer })

unfoldable pub append_int32 : ℕ → Buffer → Buffer
append_int32 x b = append (store32 (hton32 x)) b

unfoldable pub append_int16 : ℕ → Buffer → Buffer
append_int16 x b = append (store16 (hton16 x)) b

unfoldable pub append_int8 : ℕ → Buffer → Buffer
append_int8 x b = append (x % 2 ^ 8 ∷ []) b

-- The 32, 16 or 8 bits at `peek()`, as an unsigned number.
unfoldable pub peek_int32 : Buffer → ℕ
peek_int32 b =
    let p = peek 4 b in hton32 (load32 (get_or p 0 0) (get_or p 1 0) (get_or p 2 0) (get_or p 3 0))

unfoldable pub peek_int16 : Buffer → ℕ
peek_int16 b = let p = peek 2 b in hton16 (load16 (get_or p 0 0) (get_or p 1 0))

unfoldable pub peek_int8 : Buffer → ℕ
peek_int8 b = get_or (peek 1 b) 0 0

unfoldable pub read_int32 : Buffer → ℕ × Buffer
read_int32 b = (peek_int32 b, retrieve 4 b)

unfoldable pub read_int16 : Buffer → ℕ × Buffer
read_int16 b = (peek_int16 b, retrieve 2 b)

unfoldable pub read_int8 : Buffer → ℕ × Buffer
read_int8 b = (peek_int8 b, retrieve 1 b)
