-- ===== src/Cgicc/Forms/Loops.antt =====
-- The loops of the parsers on any input.
use fastcgi_async_or_corouti.Base.{
  ℕ, zero, suc, ◌≤◌, ◌<◌, ◌≡◌, refl, sym, ap, ◌∙◌, Bool, true, false, Option, none, some, Bytes,
  List, [], ◌∷◌, ◌++◌, length, length-drop, if◌then◌else◌, arith,
}
use fastcgi_async_or_corouti.Cgicc.Url.{form_urldecode}
use fastcgi_async_or_corouti.Cgicc.Strings.{starts_with, cut}
use fastcgi_async_or_corouti.Cgicc.Forms.{
  Forms, parse_mime, last_part, parts_loop, pairs_loop, parse_pairs, parse_cookie, cookies_loop,
  parse_cookies,
}

abbrev IsShorter : Bytes → Option (Bytes × Bytes) → Type 0
IsShorter s none = Unit {0}
IsShorter s (some p) = length p.1 < length s

cut_longer :
    (c : ℕ) (cs : Bytes) (o : Option (Bytes × Bytes))
    → IsShorter cs o
    → IsShorter (c ∷ cs) (elim o [ none ↦ none | some p ↦ some (c ∷ p.0, p.1) ])
cut_longer c cs none h = tt
cut_longer c cs (some p) h = omega (arith, h)

choose-IsShorter :
    (s : Bytes) (b : Bool) (o q : Option (Bytes × Bytes))
    → IsShorter s o
    → IsShorter s q
    → IsShorter s (if b then o else q)
choose-IsShorter s true o q h k = h
choose-IsShorter s false o q h k = k

-- What is behind a separator is shorter than the string.
cut-IsShorter : (x : ℕ) (xs s : Bytes) → IsShorter s (cut (x ∷ xs) s)
unfolding cut starts_with
cut-IsShorter x xs [] = tt
cut-IsShorter x xs (c ∷ cs) =
    choose-IsShorter (c ∷ cs) (starts_with (x ∷ xs) (c ∷ cs)) _ _
      (omega (arith, length-drop (length (x ∷ xs)) (c ∷ cs)))
      (cut_longer c cs (cut (x ∷ xs) cs) (cut-IsShorter x xs cs))

abbrev cookies_round :
    Option (Bytes × Bytes) → Bytes → (Bytes → List (Bytes × Bytes)) → List (Bytes × Bytes)
cookies_round o rest more = elim o [
  | none ↦ parse_cookie rest
  | some p ↦ parse_cookie p.0 ++ more p.1
]

cookies_round_eq :
    (o : Option (Bytes × Bytes)) (rest : Bytes) (f g : Bytes → List (Bytes × Bytes))
    → IsShorter rest o
    → ((s : Bytes) → length s < length rest → f s ≡ g s)
    → cookies_round o rest f ≡ cookies_round o rest g
cookies_round_eq none rest f g h e = refl
cookies_round_eq (some p) rest f g h e = ap (λ t. parse_cookie p.0 ++ t) (e p.1 h)

cookies_loop_enough :
    (m n : ℕ) (rest : Bytes)
    → length rest < m
    → length rest < n
    → cookies_loop m rest ≡ cookies_loop n rest
unfolding cookies_loop
cookies_loop_enough zero n rest h k = absurd (omega arith)
cookies_loop_enough (suc m) zero rest h k = absurd (omega arith)
cookies_loop_enough (suc m) (suc n) rest h k =
    cookies_round_eq (cut (59 ∷ []) rest) rest (cookies_loop m) (cookies_loop n)
      (cut-IsShorter 59 [] rest) (λ s l. cookies_loop_enough m n s (omega arith) (omega arith))

-- `parseCookies` satisfies the equation of its loop with no bound on the rounds: where there is no `;`
-- the string is one cookie, else the cookie before it is taken and the loop goes on behind it.
pub parse_cookies_lem :
    (bytes : Bytes)
    → parse_cookies bytes ≡ (elim (cut (59 ∷ []) bytes) [
      | none ↦ parse_cookie bytes
      | some p ↦ parse_cookie p.0 ++ parse_cookies p.1
    ])
unfolding parse_cookies cookies_loop
parse_cookies_lem bytes =
    cookies_round_eq (cut (59 ∷ []) bytes) bytes (cookies_loop (length bytes)) parse_cookies
      (cut-IsShorter 59 [] bytes)
      (λ s l. cookies_loop_enough (length bytes) (suc (length s)) s l (omega arith))

abbrev value_round :
    Bytes → Bytes → Option (Bytes × Bytes) → (Bytes → List (Bytes × Bytes)) → List (Bytes × Bytes)
value_round a b o more = elim o [
  | none ↦ (form_urldecode a, form_urldecode b) ∷ []
  | some q ↦ (form_urldecode a, form_urldecode q.0) ∷ more q.1
]

abbrev pair_round : Option (Bytes × Bytes) → (Bytes → List (Bytes × Bytes)) → List (Bytes × Bytes)
pair_round o more = elim o [ none ↦ [] | some p ↦ value_round p.0 p.1 (cut (38 ∷ []) p.1) more ]

value_round_eq :
    (a b : Bytes) (o : Option (Bytes × Bytes)) (rest : Bytes) (f g : Bytes → List (Bytes × Bytes))
    → length b < length rest
    → IsShorter b o
    → ((s : Bytes) → length s < length rest → f s ≡ g s)
    → value_round a b o f ≡ value_round a b o g
value_round_eq a b none rest f g l h e = refl
value_round_eq a b (some q) rest f g l h e =
    ap (λ t. (form_urldecode a, form_urldecode q.0) ∷ t) (e q.1 (omega (arith, h, l)))

pair_round_eq :
    (o : Option (Bytes × Bytes)) (rest : Bytes) (f g : Bytes → List (Bytes × Bytes))
    → IsShorter rest o
    → ((s : Bytes) → length s < length rest → f s ≡ g s)
    → pair_round o f ≡ pair_round o g
pair_round_eq none rest f g h e = refl
pair_round_eq (some p) rest f g h e =
    value_round_eq p.0 p.1 (cut (38 ∷ []) p.1) rest f g h (cut-IsShorter 38 [] p.1) e

pairs_loop_empty : (n : ℕ) → pairs_loop n [] ≡ []
unfolding pairs_loop cut starts_with
pairs_loop_empty zero = refl
pairs_loop_empty (suc n) = refl

pairs_loop_enough :
    (m n : ℕ) (rest : Bytes)
    → length rest ≤ m
    → length rest ≤ n
    → pairs_loop m rest ≡ pairs_loop n rest
unfolding pairs_loop
pairs_loop_enough m n [] h k = pairs_loop_empty m ∙ sym (pairs_loop_empty n)
pairs_loop_enough zero n (c ∷ cs) h k = absurd (omega arith)
pairs_loop_enough (suc m) zero (c ∷ cs) h k = absurd (omega arith)
pairs_loop_enough (suc m) (suc n) (c ∷ cs) h k =
    pair_round_eq (cut (61 ∷ []) (c ∷ cs)) (c ∷ cs) (pairs_loop m) (pairs_loop n)
      (cut-IsShorter 61 [] (c ∷ cs)) (λ s l. pairs_loop_enough m n s (omega arith) (omega arith))

-- `parseFormInput` on form data satisfies the equation of its loop with no bound on the rounds: where
-- there is no `=` it ends, where there is no `&` behind it the rest is the last value, else it takes a
-- pair and goes on behind the `&`.
pub parse_pairs_lem :
    (bytes : Bytes)
    → parse_pairs bytes ≡ (elim (cut (61 ∷ []) bytes) [
      | none ↦ []
      | some p ↦ elim (cut (38 ∷ []) p.1) [
        | none ↦ (form_urldecode p.0, form_urldecode p.1) ∷ []
        | some q ↦ (form_urldecode p.0, form_urldecode q.0) ∷ parse_pairs q.1
      ]
    ])
unfolding parse_pairs
parse_pairs_lem bytes =
    pairs_loop_enough (length bytes) (suc (length bytes)) bytes (omega arith) (omega arith)
    ∙ (unfold pairs_loop in
        pair_round_eq (cut (61 ∷ []) bytes) bytes (pairs_loop (length bytes)) parse_pairs
          (cut-IsShorter 61 [] bytes)
          (λ s l. pairs_loop_enough (length bytes) (length s) s (omega arith) (omega arith)))

abbrev mime_round : Option Forms → (Forms → Option Forms) → Option Forms
mime_round o more = elim o [ none ↦ none | some forms ↦ more forms ]

abbrev part_round :
    Option (Bytes × Bytes) → Bytes → Bytes → Forms → (Bytes → Forms → Option Forms) → Option Forms
part_round o sep2 rest forms more = elim o [
  | none ↦ last_part sep2 rest forms
  | some p ↦ mime_round (parse_mime p.0 forms) (more p.1)
]

mime_round_eq :
    (o : Option Forms) (f g : Forms → Option Forms)
    → ((forms : Forms) → f forms ≡ g forms)
    → mime_round o f ≡ mime_round o g
mime_round_eq none f g e = refl
mime_round_eq (some forms) f g e = e forms

part_round_eq :
    (o : Option (Bytes × Bytes)) (sep2 rest : Bytes) (forms : Forms)
    (f g : Bytes → Forms → Option Forms)
    → IsShorter rest o
    → ((s : Bytes) → length s < length rest → (forms' : Forms) → f s forms' ≡ g s forms')
    → part_round o sep2 rest forms f ≡ part_round o sep2 rest forms g
part_round_eq none sep2 rest forms f g h e = refl
part_round_eq (some p) sep2 rest forms f g h e =
    mime_round_eq (parse_mime p.0 forms) (f p.1) (g p.1) (e p.1 h)

-- Any two numbers of rounds above the length of the data give the same parts.
pub parts_loop_enough :
    (m n : ℕ) (x : ℕ) (xs sep2 rest : Bytes) (forms : Forms)
    → length rest < m
    → length rest < n
    → parts_loop m (x ∷ xs) sep2 rest forms ≡ parts_loop n (x ∷ xs) sep2 rest forms
unfolding parts_loop
parts_loop_enough zero n x xs sep2 rest forms h k = absurd (omega arith)
parts_loop_enough (suc m) zero x xs sep2 rest forms h k = absurd (omega arith)
parts_loop_enough (suc m) (suc n) x xs sep2 rest forms h k =
    part_round_eq (cut (x ∷ xs) rest) sep2 rest forms (parts_loop m (x ∷ xs) sep2)
      (parts_loop n (x ∷ xs) sep2) (cut-IsShorter x xs rest)
      (λ s l forms'. parts_loop_enough m n x xs sep2 s forms' (omega arith) (omega arith))
