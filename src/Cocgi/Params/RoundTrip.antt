-- ===== src/Cocgi/Params/RoundTrip.antt =====
-- `parseAllParams` against the encoding that the FastCGI specification gives for name-value pairs.
use fastcgi_async_or_corouti.Base.{
  assign_pairs, ℕ, ◌+◌, ◌/◌, ◌%◌, ◌^◌, ◌≤◌, ◌<◌, ◌≡◌, true, Bytes, ParamMap, List, [], ◌∷◌, ◌++◌,
  append_assoc, length, All, length-append, take-append_self, drop-append_self, assign, ltb, lt→ltb,
  if◌then◌else◌, arith,
}
use fastcgi_async_or_corouti.Cocgi.Params.{
  peek_int32, read_len, take_pair, parse_round, parse_all_params,
}
use fastcgi_async_or_corouti.Cocgi.Params.Loop.{parse_all_params_lem}

-- A length below 128 in one byte, any other below 2^31 in four, with the top bit set.
unfoldable pub encode_len : ℕ → Bytes
encode_len n =
    if ltb n 128
    then n ∷ []
    else (n / 2 ^ 24 + 128) ∷ n / 2 ^ 16 % 256 ∷ n / 2 ^ 8 % 256 ∷ n % 256 ∷ []

pub read_len-encode_len :
    (n : ℕ) (rest : Bytes) → n < 2 ^ 31 → read_len (encode_len n ++ rest) ≡ (n, rest)
unfolding read_len encode_len peek_int32
read_len-encode_len n rest h = ground arith

-- The two lengths, the name and the value.
unfoldable pub encode_pair : Bytes × Bytes → Bytes
encode_pair (name, value) =
    encode_len (length name) ++ (encode_len (length value) ++ (name ++ value))

unfoldable pub encode_pairs : List (Bytes × Bytes) → Bytes
encode_pairs [] = []
encode_pairs (p ∷ ps) = encode_pair p ++ encode_pairs ps

abbrev pub HasShortFields : Bytes × Bytes → Type 0
HasShortFields p = (length p.0 < 2 ^ 31) × (length p.1 < 2 ^ 31)

take_pair-fields :
    (name value rest : Bytes) (m : ParamMap)
    → length name < 2 ^ 31
    → length value < 2 ^ 31
    → take_pair
        (length name)
        (length value)
        (record { stream = name ++ (value ++ rest); params = m })
      ≡ (true, record { stream = rest; params = assign name value m })
unfolding take_pair
take_pair-fields name value rest m hn hv = ground (
  arith,
  length-append name (value ++ rest),
  length-append value rest,
  take-append_self name (value ++ rest),
  drop-append_self name (value ++ rest),
  take-append_self value rest,
  drop-append_self value rest,
)

parse_round-encode_pair :
    (name value rest : Bytes) (m : ParamMap)
    → length name < 2 ^ 31
    → length value < 2 ^ 31
    → parse_round (record { stream = encode_pair (name, value) ++ rest; params = m })
      ≡ (true, record { stream = rest; params = assign name value m })
unfolding parse_round encode_pair
parse_round-encode_pair name value rest m hn hv = simp append_assoc (
    ground (
      arith,
      read_len-encode_len (length name) (encode_len (length value) ++ (name ++ (value ++ rest))),
      read_len-encode_len (length value) (name ++ (value ++ rest)),
      take_pair-fields name value rest m,
    ))

encode_len-pos : (n : ℕ) → 1 ≤ length (encode_len n)
unfolding encode_len
encode_len-pos n = ground arith

encode_pair-pos : (p : Bytes × Bytes) (rest : Bytes) → 0 < length (encode_pair p ++ rest)
unfolding encode_pair
encode_pair-pos (name, value) rest = omega (
  arith,
  length-append (encode_pair (name, value)) rest,
  length-append (encode_len (length name)) (encode_len (length value) ++ (name ++ value)),
  encode_len-pos (length name),
)

-- A stream that holds the encoding of pairs, each field shorter than 2^31 bytes, is parsed with
-- success and consumed whole, and the pairs are assigned to the map in their order.
pub parse_all_params-encode_pairs :
    (ps : List (Bytes × Bytes)) (m : ParamMap)
    → All HasShortFields ps
    → parse_all_params (record { stream = encode_pairs ps; params = m })
      ≡ (true, record { stream = []; params = assign_pairs ps m })
unfolding encode_pairs assign_pairs
parse_all_params-encode_pairs [] m h = rw parse_all_params_lem
parse_all_params-encode_pairs (p ∷ ps) m (hp, hps) =
    rw
      (
        parse_all_params_lem,
        lt→ltb 0 _ (encode_pair-pos p (encode_pairs ps)),
        parse_round-encode_pair p.0 p.1 (encode_pairs ps) m hp.0 hp.1,
      )
      (parse_all_params-encode_pairs ps (assign p.0 p.1 m) hps)
