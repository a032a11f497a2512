-- ===== src/Mucgi/Params.antt =====
-- `readLen` and `parseAllParams` of mucgi/fastcgi.cpp, over the readable bytes of `paramsStream_`.
use fastcgi_async_or_corouti.Base.{
  ℕ, zero, suc, ◌+◌, ◌/◌, ◌%◌, ◌^◌, Bool, true, false, Bytes, assign, get_or, length, take, drop,
  ltb, leb, ◌==◌, if◌then◌else◌,
}
use fastcgi_async_or_corouti.Cocgi.Params.{ParamState, minus_one, int8_to_u32}
use fastcgi_async_or_corouti.Endian.{hton32, load32}

-- `peekInt32`: four bytes by `memcpy`, then `networkToHost32`.
unfoldable pub peek_int32 : Bytes → ℕ
unfolding hton32
peek_int32 s = hton32 (load32 (get_or s 0 0) (get_or s 1 0) (get_or s 2 0) (get_or s 3 0))

-- The length and what is left of the stream. `byte & 0x80` is bit 7, `& 0x7fffffff` is `% 2 ^ 31`.
unfoldable pub read_len : Bytes → ℕ × Bytes
read_len s =
    if leb 1 (length s)
    then (let byte = get_or s 0 0 in
        if byte / 128 % 2 == 1
        then (if leb 4 (length s) then (peek_int32 s % 2 ^ 31, drop 4 s) else (minus_one, s))
        else (int8_to_u32 byte, drop 1 s))
    else (minus_one, s)

-- The part of a round behind the two lengths.
unfoldable pub take_pair : ℕ → ℕ → ParamState → Bool × ParamState
take_pair name_len value_len st =
    if leb ((name_len + value_len) % 2 ^ 32) (length st.stream)
    then (let name = take name_len st.stream in
        let rest = drop name_len st.stream in
        let value = take value_len rest in
        (true, record { stream = drop value_len rest; params = assign name value st.params }))
    else (false, st)

-- One round of the loop; `false` is `return false`.
unfoldable pub parse_round : ParamState → Bool × ParamState
unfolding take_pair
parse_round st =
    let (name_len, s1) = read_len st.stream in
    if name_len == minus_one
    then (false, record st { stream = s1 })
    else let (value_len, s2) = read_len s1 in
      if value_len == minus_one
      then (false, record st { stream = s2 })
      else take_pair name_len value_len (record st { stream = s2 })

unfoldable pub parse_loop : ℕ → ParamState → Bool × ParamState
parse_loop zero st = (true, st)
parse_loop (suc fuel) st =
    let (more, st') = parse_round st in
    let rest = parse_loop fuel st' in
    if ltb 0 (length st.stream) then (if more then rest else (false, st')) else (true, st)

-- Each round takes a byte at least, so `length` rounds are enough.
unfoldable pub parse_all_params : ParamState → Bool × ParamState
unfolding parse_loop
parse_all_params st = parse_loop (length st.stream) st
