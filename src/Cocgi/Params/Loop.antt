-- ===== src/Cocgi/Params/Loop.antt =====
-- The loop of `parseAllParams` on any stream.
use fastcgi_async_or_corouti.Base.{
  ℕ, zero, suc, ◌^◌, ◌≤◌, ◌<◌, ◌≡◌, refl, ◌⊎◌, true, false, Bytes, length, drop, length-drop, ltb,
  if◌then◌else◌, arith,
}
use fastcgi_async_or_corouti.Cocgi.Params.{
  minus_one, read_len, ParamState, take_pair, parse_round, parse_loop, parse_all_params,
}

-- `readLen` reports -1 and leaves the stream, or it takes a byte or more and gives a number below 2^31.
pub read_len_cases :
    (s : Bytes)
    → ((read_len s).0 ≡ minus_one) × ((read_len s).1 ≡ s)
      ⊎ ((read_len s).0 < 2 ^ 31) × (length (read_len s).1 < length s)
unfolding read_len
read_len_cases s = ground (arith, length-drop 4 s, length-drop 1 s)

pub read_len-le : (s : Bytes) → length (read_len s).1 ≤ length s
read_len-le s = ground (arith, read_len_cases s)

take_pair-le : (m n : ℕ) (st : ParamState) → length (take_pair m n st).1.stream ≤ length st.stream
unfolding take_pair
take_pair-le m n st = ground (arith, length-drop m st.stream, length-drop n (drop m st.stream))

-- A round that goes on has taken a byte or more.
pub parse_round-shorter :
    (st : ParamState)
    → (parse_round st).0 ≡ true
    → length (parse_round st).1.stream < length st.stream
unfolding parse_round
parse_round-shorter st h =
    let (m, s1) = read_len st.stream in
    ground (
      arith,
      read_len_cases st.stream,
      read_len_cases (read_len st.stream).1,
      take_pair-le (read_len st.stream).0 (read_len (read_len st.stream).1).0
          (record st { stream = (read_len (read_len st.stream).1).1 }),
    )

-- More fuel than the stream has bytes changes nothing.
parse_loop_enough :
    (f g : ℕ) (st : ParamState)
    → length st.stream ≤ f
    → length st.stream ≤ g
    → parse_loop f st ≡ parse_loop g st
unfolding parse_loop
parse_loop_enough zero zero st hf hg = refl
parse_loop_enough zero (suc g) st hf hg = ground arith
parse_loop_enough (suc f) zero st hf hg = ground arith
parse_loop_enough (suc f) (suc g) st hf hg =
    ground (arith, parse_round-shorter st, parse_loop_enough f g (parse_round st).1)

loop_equation :
    (n : ℕ) (st : ParamState)
    → length st.stream ≡ n
    → parse_loop n st ≡ (
        if ltb 0 (length st.stream)
        then (if (parse_round st).0
            then parse_loop (length (parse_round st).1.stream) (parse_round st).1
            else (false, (parse_round st).1))
        else (true, st))
unfolding parse_loop
loop_equation zero st h = ground arith
loop_equation (suc n) st h = ground (
  arith,
  parse_round-shorter st,
  parse_loop_enough n (length (parse_round st).1.stream) (parse_round st).1,
)

-- `parseAllParams` satisfies the equation of the source's loop, with no fuel in it: on an empty
-- stream it returns true, else it makes a round, returns false where that does, and goes on with what
-- the round left.
pub parse_all_params_lem :
    (st : ParamState)
    → parse_all_params st ≡ (
        if ltb 0 (length st.stream)
        then (if (parse_round st).0
            then parse_all_params (parse_round st).1
            else (false, (parse_round st).1))
        else (true, st))
unfolding parse_all_params
parse_all_params_lem st = loop_equation (length st.stream) st refl
