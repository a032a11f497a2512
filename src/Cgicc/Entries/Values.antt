-- ===== src/Cgicc/Entries/Values.antt =====
-- The values that FormEntry gives.
use fastcgi_async_or_corouti.Base.{
  take_all, Bool-cases, inl, inr, sym, ◌↔◌, ℕ, zero, suc, ◌+◌, ◌-◌, ◌≤◌, ◌≡◌, refl, ap, ◌∙◌, true,
  false, Bytes, [], ◌∷◌, length, take, ◌==◌, if◌then◌else◌, arith,
}
use fastcgi_async_or_corouti.Cgicc.Entries.{
  count_breaks, is_break, make_loop, make_string, get_integer_value,
}

-- The characters that break no line.
unfoldable pub strip : Bytes → Bytes
strip [] = []
strip (c ∷ cs) = let rest = strip cs in if is_break c then rest else c ∷ rest

count_breaks-rest :
    (cr lf : ℕ) (s : Bytes)
    → (strip (count_breaks cr lf s).2 ≡ strip s) × (length (count_breaks cr lf s).2 ≤ length s)
unfolding count_breaks strip
count_breaks-rest cr lf [] = (refl, omega arith)
count_breaks-rest cr lf (c ∷ cs) =
    ground (
      arith,
      count_breaks-rest (if c == 13 then cr + 1 else cr) (if c == 13 then lf else lf + 1) cs,
    )

-- A break at the head is counted.
count_breaks-shorter :
    (c : ℕ) (cs : Bytes)
    → is_break c ≡ true
    → (strip (count_breaks 0 0 (c ∷ cs)).2 ≡ strip cs)
      × (length (count_breaks 0 0 (c ∷ cs)).2 ≤ length cs)
unfolding count_breaks
count_breaks-shorter c cs h =
    ground (arith, count_breaks-rest (if c == 13 then 1 else 0) (if c == 13 then 0 else 1) cs)

take_nil : (n : ℕ) → take {A = ℕ} n [] ≡ []
take_nil n = take_all n [] (omega arith)

take_cons : (n m c : ℕ) (cs : Bytes) → n ≡ suc m → take n (c ∷ cs) ≡ c ∷ take m cs
take_cons zero m c cs e = absurd (omega arith)
take_cons (suc n) m c cs e = let e' : n ≡ m = omega arith in ap (λ k. c ∷ take k cs) e'

take_zero : (n : ℕ) (s : Bytes) → n ≡ 0 → take n s ≡ []
take_zero zero s e = refl
take_zero (suc n) s e = absurd (omega arith)

make_loop-strip :
    (fuel avail len : ℕ) (src : Bytes)
    → length src ≤ fuel
    → make_loop fuel avail len false src ≡ take (avail - len) (strip src)
unfolding make_loop strip
make_loop-strip zero avail len [] h = sym (take_nil (avail - len))
make_loop-strip zero avail len (c ∷ cs) h = absurd (omega arith)
make_loop-strip (suc fuel) avail len [] h = sym (take_nil (avail - len))
make_loop-strip (suc fuel) avail len (c ∷ cs) h = elim (Bool-cases (is_break c)) [
  | inl b ↦
      let (same, short) = count_breaks-shorter c cs b in
      rw b (
        ground (
          arith,
          same,
          make_loop-strip fuel avail (len + 0) (count_breaks 0 0 (c ∷ cs)).2 (omega (arith, short)),
          take_zero (avail - len) (strip cs),
        ))
  | inr b ↦ rw b (
      ground (
        arith,
        make_loop-strip fuel avail (len + 1) cs (omega arith),
        take_zero (avail - len) (c ∷ strip cs),
        take_cons (avail - len) (avail - (len + 1)) c (strip cs),
      ))
]

-- `getStrippedValue` gives the characters of the value that break no line, in their order, up to the
-- number that is asked for.
pub make_string-strip :
    (max_len : ℕ) (value : Bytes) → make_string max_len false value ≡ take max_len (strip value)
unfolding make_string
make_string-strip max_len value =
    make_loop-strip (length value) max_len 0 value (omega arith)
    ∙ ap (λ n. take n (strip value)) (omega arith)

-- `getIntegerValue` gives a value within the bounds, if these are in order, and the value itself with no
-- mark exactly when it is within them.
pub get_integer_value_bounds :
    (value min max : ℕ)
    → min ≤ max
    → (min ≤ (get_integer_value value min max).0)
      × ((get_integer_value value min max).0 ≤ max)
      × (((get_integer_value value min max).1 ≡ false) ↔ ((min ≤ value) × (value ≤ max)))
unfolding get_integer_value
get_integer_value_bounds value min max h = ground arith
