-- ===== src/Cgicc/Forms/Splitting.antt =====
-- `cut` at a single character, and at a separator of several.
use fastcgi_async_or_corouti.Base.{
  append_assoc, ℕ, ◌≡◌, ◌≢◌, refl, Bool, true, false, not, ◌&&◌, none, some, Bytes, [], ◌∷◌, ◌++◌,
  All, drop-append_self, arith,
}
use fastcgi_async_or_corouti.Cgicc.Strings.{starts_with, cut}

-- A character that is not the given one.
abbrev pub IsOther : ℕ → ℕ → Type 0
IsOther d c = c ≢ d

-- The first place of a character is the one behind a string that does not hold it.
pub cut-append :
    (d : ℕ) (a b : Bytes) → All (IsOther d) a → cut (d ∷ []) (a ++ (d ∷ b)) ≡ some (a, b)
unfolding cut starts_with
cut-append d [] b h = ground arith
cut-append d (c ∷ cs) b (n, h) = ground (arith, cut-append d cs b h)

pub cut-none : (d : ℕ) (a : Bytes) → All (IsOther d) a → cut (d ∷ []) a ≡ none
unfolding cut starts_with
cut-none d [] h = refl
cut-none d (c ∷ cs) (n, h) = ground (arith, cut-none d cs h)

-- The separator begins at no place within the first string, if the second follows it.
unfoldable pub absent : Bytes → Bytes → Bytes → Bool
absent separator [] s = true
absent separator (c ∷ cs) s = not (starts_with separator (c ∷ (cs ++ s))) && absent separator cs s

starts_with_self : (separator s : Bytes) → starts_with separator (separator ++ s) ≡ true
unfolding starts_with
starts_with_self [] s = refl
starts_with_self (x ∷ xs) s = ground (arith, starts_with_self xs s)

cut_self : (x : ℕ) (xs s : Bytes) → cut (x ∷ xs) ((x ∷ xs) ++ s) ≡ some ([], s)
unfolding cut
cut_self x xs s = ground (arith, starts_with_self (x ∷ xs) s, drop-append_self (x ∷ xs) s)

-- The separator is found behind a string where it does not begin.
pub cut-absent :
    (x : ℕ) (xs pre s : Bytes)
    → absent (x ∷ xs) pre ((x ∷ xs) ++ s) ≡ true
    → cut (x ∷ xs) (pre ++ ((x ∷ xs) ++ s)) ≡ some (pre, s)
unfolding absent cut
cut-absent x xs [] s h = cut_self x xs s
cut-absent x xs (c ∷ cs) s h = ground (arith, h, cut-absent x xs cs s)

pub cut-absent-none :
    (x : ℕ) (xs pre s : Bytes)
    → absent (x ∷ xs) pre s ≡ true
    → cut (x ∷ xs) s ≡ none
    → cut (x ∷ xs) (pre ++ s) ≡ none
unfolding absent cut
cut-absent-none x xs [] s h k = k
cut-absent-none x xs (c ∷ cs) s h k = ground (arith, h, cut-absent-none x xs cs s)

pub cut-absent-some :
    (x : ℕ) (xs pre s p q : Bytes)
    → absent (x ∷ xs) pre s ≡ true
    → cut (x ∷ xs) s ≡ some (p, q)
    → cut (x ∷ xs) (pre ++ s) ≡ some (pre ++ p, q)
unfolding absent cut
cut-absent-some x xs [] s p q h k = k
cut-absent-some x xs (c ∷ cs) s p q h k = ground (arith, h, cut-absent-some x xs cs s p q)

pub absent-append :
    (sep a b s : Bytes)
    → absent sep a (b ++ s) ≡ true
    → absent sep b s ≡ true
    → absent sep (a ++ b) s ≡ true
unfolding absent
absent-append sep [] b s h k = k
absent-append sep (c ∷ cs) b s h k =
    ground (arith, h, append_assoc cs b s, absent-append sep cs b s)

-- It does not begin where its first character is not.
pub absent-other : (x : ℕ) (xs pre s : Bytes) → All (IsOther x) pre → absent (x ∷ xs) pre s ≡ true
unfolding absent starts_with
absent-other x xs [] s h = refl
absent-other x xs (c ∷ cs) s (n, h) = ground (arith, absent-other x xs cs s h)

abbrev pub EndsIn : ℕ → Bytes → Type 0
EndsIn d [] = Unit {0}
EndsIn d (c ∷ []) = c ≡ d
EndsIn d (c ∷ e ∷ cs) = EndsIn d (e ∷ cs)

abbrev pub LastOnly : ℕ → Bytes → Type 0
LastOnly d [] = Unit {0}
LastOnly d (c ∷ []) = Unit {0}
LastOnly d (c ∷ e ∷ cs) = IsOther d c × LastOnly d (e ∷ cs)

starts_with-end :
    (d : ℕ) (separator a s : Bytes) (c : ℕ)
    → LastOnly d separator
    → EndsIn d (c ∷ a)
    → starts_with separator (c ∷ (a ++ s)) ≡ true
    → starts_with separator (c ∷ a) ≡ true
unfolding starts_with
starts_with-end d [] a s c l e h = refl
starts_with-end d (x ∷ []) a s c l e h = ground arith
starts_with-end d (x ∷ y ∷ ys) [] s c l e h = absurd (ground (arith, l, e, h))
starts_with-end d (x ∷ y ∷ ys) (b ∷ a) s c l e h =
    ground (arith, h, starts_with-end d (y ∷ ys) a s b l.1 e)

cut-step :
    (x : ℕ) (xs : Bytes) (c : ℕ) (cs : Bytes)
    → cut (x ∷ xs) (c ∷ cs) ≡ none
    → (starts_with (x ∷ xs) (c ∷ cs) ≡ false) × (cut (x ∷ xs) cs ≡ none)
unfolding cut
cut-step x xs c cs h = ground (arith, h)

EndsIn-tail : (d c : ℕ) (cs : Bytes) → EndsIn d (c ∷ cs) → EndsIn d cs
EndsIn-tail d c [] h = tt
EndsIn-tail d c (e ∷ cs) h = h

not_true : (b c : Bool) → (b ≡ true → c ≡ true) → c ≡ false → b ≡ false
not_true true c f e = absurd (ground (arith, f refl, e))
not_true false c f e = refl

-- A separator in which a character is the last only begins at no place within a string that it is not
-- in and that ends in this character, whatever follows the string.
pub absent-end :
    (d x : ℕ) (xs a s : Bytes)
    → LastOnly d (x ∷ xs)
    → EndsIn d a
    → cut (x ∷ xs) a ≡ none
    → absent (x ∷ xs) a s ≡ true
unfolding absent
absent-end d x xs [] s l e h = refl
absent-end d x xs (c ∷ cs) s l e h =
    let (here, later) = cut-step x xs c cs h in
    let first =
      not_true (starts_with (x ∷ xs) (c ∷ (cs ++ s))) (starts_with (x ∷ xs) (c ∷ cs))
        (starts_with-end d (x ∷ xs) cs s c l e) here in
    rw (first, absent-end d x xs cs s l (EndsIn-tail d c cs e) later) refl

pub EndsIn-append : (d c : ℕ) (a b : Bytes) → EndsIn d (c ∷ b) → EndsIn d (a ++ (c ∷ b))
EndsIn-append d c [] b h = h
EndsIn-append d c (x ∷ []) b h = h
EndsIn-append d c (x ∷ y ∷ a) b h = EndsIn-append d c (y ∷ a) b h

pub LastOnly-append :
    (d c : ℕ) (a b : Bytes) → All (IsOther d) a → LastOnly d (c ∷ b) → LastOnly d (a ++ (c ∷ b))
LastOnly-append d c [] b h l = l
LastOnly-append d c (x ∷ []) b (n, h) l = (n, l)
LastOnly-append d c (x ∷ y ∷ a) b (n, h) l = (n, LastOnly-append d c (y ∷ a) b h l)

starts_with-without :
    (d : ℕ) (a b s : Bytes) → All (IsOther d) s → starts_with (a ++ (d ∷ b)) s ≡ false
unfolding starts_with
starts_with-without d [] b [] h = refl
starts_with-without d [] b (c ∷ cs) (n, h) = ground arith
starts_with-without d (x ∷ a) b [] h = refl
starts_with-without d (x ∷ a) b (c ∷ cs) (n, h) = ground (arith, starts_with-without d a b cs h)

-- A string without a character of the separator does not hold the separator.
pub cut-without : (d : ℕ) (a b s : Bytes) → All (IsOther d) s → cut (a ++ (d ∷ b)) s ≡ none
unfolding cut
cut-without d a b [] h = rw (starts_with-without d a b [] h) refl
cut-without d a b (c ∷ cs) h =
    ground (arith, starts_with-without d a b (c ∷ cs) h, cut-without d a b cs h.1)
