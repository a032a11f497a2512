-- ===== src/Cgicc/Forms/Cookies.antt =====
-- The parser of cookies against an encoding of them.
use fastcgi_async_or_corouti.Base.{
  ◌⊎◌, inl, inr, ℕ, zero, suc, ◌≤◌, ◌≡◌, refl, ap, sym, ◌∙◌, true, none, some, Bytes, List, [], ◌∷◌,
  ◌++◌, append_assoc, length, length-append, All, All-append, arith,
}
use fastcgi_async_or_corouti.Cgicc.Strings.{cut, is_space}
use fastcgi_async_or_corouti.Cgicc.Forms.{skip_spaces, parse_cookie, cookies_loop, parse_cookies}
use fastcgi_async_or_corouti.Cgicc.Forms.Splitting.{IsOther, cut-append, cut-none}

-- A name without `=` and `;` that has no white space in front, and a value without `;`.
pub record IsCookie (p : Bytes × Bytes) : Type 0 where
  pub name_ends : All (IsOther 61) p.0
  pub name_whole : All (IsOther 59) p.0
  pub name_first : skip_spaces p.0 ≡ p.0
  pub value_whole : All (IsOther 59) p.1

-- The cookies apart by a semicolon and a space, a name apart from its value by `=`.
unfoldable pub encode_cookies : List (Bytes × Bytes) → Bytes
encode_cookies [] = []
encode_cookies (p ∷ []) = p.0 ++ (61 ∷ p.1)
encode_cookies (p ∷ q ∷ ps) = (p.0 ++ (61 ∷ p.1)) ++ (59 ∷ (32 ∷ encode_cookies (q ∷ ps)))

abbrev IsSpace : ℕ → Type 0
IsSpace c = is_space c ≡ true

space-IsOther : (d : ℕ) (s : Bytes) → (d ≡ 61) ⊎ (d ≡ 59) → All IsSpace s → All (IsOther d) s
unfolding is_space
space-IsOther d [] e h = tt
space-IsOther d (c ∷ cs) (inl e) (q, h) = (ground arith, space-IsOther d cs (inl e) h)
space-IsOther d (c ∷ cs) (inr e) (q, h) = (ground arith, space-IsOther d cs (inr e) h)

skip_spaces-append : (s t : Bytes) → All IsSpace s → skip_spaces (s ++ t) ≡ skip_spaces t
unfolding skip_spaces
skip_spaces-append [] t h = refl
skip_spaces-append (c ∷ cs) t (q, h) = ground (arith, skip_spaces-append cs t h)

one_cookie :
    (bytes a b : Bytes)
    → cut (61 ∷ []) bytes ≡ some (a, b)
    → parse_cookie bytes ≡ (skip_spaces a, b) ∷ []
unfolding parse_cookie
one_cookie bytes a b e = ground arith

no_cookie : (bytes : Bytes) → cut (61 ∷ []) bytes ≡ none → parse_cookie bytes ≡ []
unfolding parse_cookie
no_cookie bytes e = ground arith

-- The text of one cookie, white space before it.
parse_cookie-text :
    (lead : Bytes) (p : Bytes × Bytes)
    → All IsSpace lead
    → IsCookie p
    → parse_cookie (lead ++ (p.0 ++ (61 ∷ p.1))) ≡ p ∷ []
parse_cookie-text lead p s h =
    let found : cut (61 ∷ []) (lead ++ (p.0 ++ (61 ∷ p.1))) ≡ some (lead ++ p.0, p.1) =
      ap (cut (61 ∷ [])) (sym (append_assoc lead p.0 (61 ∷ p.1)))
      ∙ cut-append 61 (lead ++ p.0) p.1
          (All-append (IsOther 61) lead p.0 (space-IsOther 61 lead (inl refl) s) h.name_ends) in
    let name : skip_spaces (lead ++ p.0) ≡ p.0 = skip_spaces-append lead p.0 s ∙ h.name_first in
    one_cookie _ (lead ++ p.0) p.1 found ∙ ap (λ n. (n, p.1) ∷ []) name

text-IsOther :
    (lead : Bytes) (p : Bytes × Bytes)
    → All IsSpace lead
    → IsCookie p
    → All (IsOther 59) (lead ++ (p.0 ++ (61 ∷ p.1)))
text-IsOther lead p s h =
    All-append (IsOther 59) lead (p.0 ++ (61 ∷ p.1)) (space-IsOther 59 lead (inr refl) s)
      (All-append (IsOther 59) p.0 (61 ∷ p.1) h.name_whole (ground arith, h.value_whole))

last_cookie :
    (fuel : ℕ) (rest : Bytes)
    → cut (59 ∷ []) rest ≡ none
    → cookies_loop (suc fuel) rest ≡ parse_cookie rest
unfolding cookies_loop
last_cookie fuel rest e = ground arith

next_cookie :
    (fuel : ℕ) (rest a b : Bytes)
    → cut (59 ∷ []) rest ≡ some (a, b)
    → cookies_loop (suc fuel) rest ≡ parse_cookie a ++ cookies_loop fuel b
unfolding cookies_loop
next_cookie fuel rest a b e = ground arith

cookies_loop-encode :
    (fuel : ℕ) (lead : Bytes) (ps : List (Bytes × Bytes))
    → All IsSpace lead
    → All IsCookie ps
    → length (encode_cookies ps) ≤ fuel
    → cookies_loop (suc fuel) (lead ++ encode_cookies ps) ≡ ps
unfolding encode_cookies
cookies_loop-encode fuel lead [] s h le =
    last_cookie fuel _
      (cut-none 59 _ (All-append (IsOther 59) lead [] (space-IsOther 59 lead (inr refl) s) tt))
    ∙ no_cookie _
        (cut-none 61 _ (All-append (IsOther 61) lead [] (space-IsOther 61 lead (inl refl) s) tt))
cookies_loop-encode fuel lead (p ∷ []) s (h, k) le =
    last_cookie fuel _ (cut-none 59 _ (text-IsOther lead p s h)) ∙ parse_cookie-text lead p s h
cookies_loop-encode zero lead (p ∷ q ∷ ps) s (h, k) le =
    absurd (omega (arith, length-append (p.0 ++ (61 ∷ p.1)) (59 ∷ (32 ∷ encode_cookies (q ∷ ps)))))
cookies_loop-encode (suc fuel) lead (p ∷ q ∷ ps) s (h, k) le =
    let text = lead ++ (p.0 ++ (61 ∷ p.1)) in
    let found : cut (59 ∷ [])
          (lead ++ ((p.0 ++ (61 ∷ p.1)) ++ (59 ∷ (32 ∷ encode_cookies (q ∷ ps)))))
        ≡ some (text, 32 ∷ encode_cookies (q ∷ ps)) =
      ap (cut (59 ∷ []))
        (sym (append_assoc lead (p.0 ++ (61 ∷ p.1)) (59 ∷ (32 ∷ encode_cookies (q ∷ ps)))))
      ∙ cut-append 59 text (32 ∷ encode_cookies (q ∷ ps)) (text-IsOther lead p s h) in
    next_cookie (suc fuel) _ text (32 ∷ encode_cookies (q ∷ ps)) found
    ∙ ap (λ t. t ++ cookies_loop (suc fuel) (32 ∷ encode_cookies (q ∷ ps)))
        (parse_cookie-text lead p s h)
    ∙ ap (λ t. p ∷ t)
        (cookies_loop-encode fuel (32 ∷ []) (q ∷ ps) (unfold is_space in refl, tt) k
          (omega (arith, length-append (p.0 ++ (61 ∷ p.1)) (59 ∷ (32 ∷ encode_cookies (q ∷ ps))))))

-- A Cookie header that holds cookies whose names have no `=`, no `;` and no white space in front, and
-- whose values have no `;`, is parsed into these cookies, in their order.
pub parse_cookies-encode :
    (ps : List (Bytes × Bytes)) → All IsCookie ps → parse_cookies (encode_cookies ps) ≡ ps
unfolding parse_cookies
parse_cookies-encode ps h =
    cookies_loop-encode (length (encode_cookies ps)) [] ps tt h (omega arith)
