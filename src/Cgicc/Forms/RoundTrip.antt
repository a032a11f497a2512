-- ===== src/Cgicc/Forms/RoundTrip.antt =====
-- The parser of form data against the encoding that HTML gives.
use fastcgi_async_or_corouti.Base.{
  IsByte, ArePairBytes, ◌⊎◌, inl, inr, ℕ, zero, suc, ◌/◌, ◌%◌, ◌≤◌, ◌<◌, ◌≡◌, refl, ap, ◌∙◌, true,
  none, some, Bytes, List, [], ◌∷◌, ◌++◌, length, length-append, All, All-append, arith,
}
use fastcgi_async_or_corouti.Cgicc.Url.{
  hex_char, char_to_hex, is_unreserved, encode_char, form_urlencode, form_urldecode,
}
use fastcgi_async_or_corouti.Cgicc.Url.Decoding.{form_urldecode-encode}
use fastcgi_async_or_corouti.Cgicc.Strings.{starts_with, cut}
use fastcgi_async_or_corouti.Cgicc.Forms.{pairs_loop, parse_pairs}
use fastcgi_async_or_corouti.Cgicc.Forms.Splitting.{IsOther, cut-append, cut-none}

-- application/x-www-form-urlencoded: the pairs apart by `&`, a name apart from its value by `=`.
unfoldable pub encode_form : List (Bytes × Bytes) → Bytes
encode_form [] = []
encode_form (p ∷ []) = form_urlencode p.0 ++ (61 ∷ form_urlencode p.1)
encode_form (p ∷ q ∷ ps) =
    form_urlencode p.0 ++ (61 ∷ (form_urlencode p.1 ++ (38 ∷ encode_form (q ∷ ps))))

hex_char-IsOther : (d n : ℕ) → n < 16 → (d ≡ 61) ⊎ (d ≡ 38) → IsOther d (hex_char n)
unfolding hex_char
hex_char-IsOther d n h (inl e) = ground arith
hex_char-IsOther d n h (inr e) = ground arith

unreserved-IsOther : (d c : ℕ) → (d ≡ 61) ⊎ (d ≡ 38) → is_unreserved c ≡ true → IsOther d c
unfolding is_unreserved
unreserved-IsOther d c (inl e) u = ground arith
unreserved-IsOther d c (inr e) u = ground arith

-- The three forms that the encoding of a character has.
encode_char_cases :
    (c : ℕ)
    → (encode_char c ≡ 43 ∷ [])
      ⊎ ((is_unreserved c ≡ true) × (encode_char c ≡ c ∷ []))
      ⊎ (encode_char c ≡ 37 ∷ (hex_char (c / 16) ∷ (hex_char (c % 16) ∷ [])))
unfolding encode_char char_to_hex
encode_char_cases c = ground arith

encode_char-IsOther : (d c : ℕ) → c < 256 → (d ≡ 61) ⊎ (d ≡ 38) → All (IsOther d) (encode_char c)
encode_char-IsOther d c h e = elim (encode_char_cases c) [
  | inl q ↦ rw q (ground (arith, e), tt)
  | inr (inl (u, q)) ↦ rw q (unreserved-IsOther d c e u, tt)
  | inr (inr q) ↦ rw q (
    ground (arith, e),
    (
      hex_char-IsOther d (c / 16) (omega arith) e,
      (hex_char-IsOther d (c % 16) (omega arith) e, tt),
    ),
  )
]

-- An encoded string holds no separator.
form_urlencode-IsOther :
    (d : ℕ) (s : Bytes) → (d ≡ 61) ⊎ (d ≡ 38) → All IsByte s → All (IsOther d) (form_urlencode s)
unfolding form_urlencode
form_urlencode-IsOther d [] e h = tt
form_urlencode-IsOther d (c ∷ cs) e (b, h) =
    All-append (IsOther d) (encode_char c) (form_urlencode cs) (encode_char-IsOther d c b e)
      (form_urlencode-IsOther d cs e h)

last_pair :
    (fuel : ℕ) (rest a b : Bytes)
    → cut (61 ∷ []) rest ≡ some (a, b)
    → cut (38 ∷ []) b ≡ none
    → pairs_loop (suc fuel) rest ≡ (form_urldecode a, form_urldecode b) ∷ []
unfolding pairs_loop
last_pair fuel rest a b e f = ground arith

next_pair :
    (fuel : ℕ) (rest a b c d : Bytes)
    → cut (61 ∷ []) rest ≡ some (a, b)
    → cut (38 ∷ []) b ≡ some (c, d)
    → pairs_loop (suc fuel) rest ≡ (form_urldecode a, form_urldecode c) ∷ pairs_loop fuel d
unfolding pairs_loop
next_pair fuel rest a b c d e f = ground arith

decoded :
    (p : Bytes × Bytes)
    → ArePairBytes p
    → (form_urldecode (form_urlencode p.0), form_urldecode (form_urlencode p.1)) ≡ p
decoded p (h, k) = rw (form_urldecode-encode p.0 h, form_urldecode-encode p.1 k) refl

pairs_loop-last :
    (fuel : ℕ) (p : Bytes × Bytes)
    → ArePairBytes p
    → pairs_loop (suc fuel) (form_urlencode p.0 ++ (61 ∷ form_urlencode p.1)) ≡ p ∷ []
pairs_loop-last fuel p (h, k) =
    last_pair fuel _ (form_urlencode p.0) (form_urlencode p.1)
      (cut-append 61 (form_urlencode p.0) (form_urlencode p.1)
        (form_urlencode-IsOther 61 p.0 (inl refl) h))
      (cut-none 38 (form_urlencode p.1) (form_urlencode-IsOther 38 p.1 (inr refl) k))
    ∙ ap (λ t. t ∷ []) (decoded p (h, k))

pairs_loop-more :
    (fuel : ℕ) (p : Bytes × Bytes) (rest : Bytes)
    → ArePairBytes p
    → pairs_loop (suc fuel) (form_urlencode p.0 ++ (61 ∷ (form_urlencode p.1 ++ (38 ∷ rest))))
      ≡ p ∷ pairs_loop fuel rest
pairs_loop-more fuel p rest (h, k) =
    next_pair fuel _ (form_urlencode p.0) (form_urlencode p.1 ++ (38 ∷ rest)) (form_urlencode p.1)
      rest
      (cut-append 61 (form_urlencode p.0) (form_urlencode p.1 ++ (38 ∷ rest))
        (form_urlencode-IsOther 61 p.0 (inl refl) h))
      (cut-append 38 (form_urlencode p.1) rest (form_urlencode-IsOther 38 p.1 (inr refl) k))
    ∙ ap (λ t. t ∷ pairs_loop fuel rest) (decoded p (h, k))

pairs_loop-encode_form :
    (fuel : ℕ) (ps : List (Bytes × Bytes))
    → All ArePairBytes ps
    → length (encode_form ps) ≤ fuel
    → pairs_loop fuel (encode_form ps) ≡ ps
unfolding encode_form
pairs_loop-encode_form zero [] h le = unfold pairs_loop in refl
pairs_loop-encode_form (suc fuel) [] h le = unfold pairs_loop cut starts_with in refl
pairs_loop-encode_form zero (p ∷ []) h le =
    absurd (omega (arith, length-append (form_urlencode p.0) (61 ∷ form_urlencode p.1)))
pairs_loop-encode_form zero (p ∷ q ∷ ps) h le = absurd (
    omega (
      arith,
      length-append (form_urlencode p.0) (61 ∷ (form_urlencode p.1 ++ (38 ∷ encode_form (q ∷ ps)))),
    ))
pairs_loop-encode_form (suc fuel) (p ∷ []) (h, k) le = pairs_loop-last fuel p h
pairs_loop-encode_form (suc fuel) (p ∷ q ∷ ps) (h, k) le =
    pairs_loop-more fuel p (encode_form (q ∷ ps)) h
    ∙ ap (λ t. p ∷ t)
        (pairs_loop-encode_form fuel (q ∷ ps) k (
          omega (
            arith,
            length-append (form_urlencode p.0)
                (61 ∷ (form_urlencode p.1 ++ (38 ∷ encode_form (q ∷ ps)))),
            length-append (form_urlencode p.1) (38 ∷ encode_form (q ∷ ps)),
          )))

-- Form data that a client encodes is parsed into its pairs, in their order.
pub parse_pairs-encode_form :
    (ps : List (Bytes × Bytes)) → All ArePairBytes ps → parse_pairs (encode_form ps) ≡ ps
unfolding parse_pairs
parse_pairs-encode_form ps h = pairs_loop-encode_form (length (encode_form ps)) ps h (omega arith)
