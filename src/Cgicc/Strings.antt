-- ===== src/Cgicc/Strings.antt =====
-- Searches and comparisons of cocgi/cgicc_lib/CgiUtils.cpp on strings.
use fastcgi_async_or_corouti.Base.{
  ℕ, ◌-◌, Bool, true, false, ◌&&◌, Option, none, some, Bytes, [], ◌∷◌, length, take, drop, leb,
  ◌==◌, if◌then◌else◌,
}

unfoldable pub starts_with : Bytes → Bytes → Bool
starts_with [] s = true
starts_with (x ∷ xs) [] = false
starts_with (x ∷ xs) (c ∷ cs) = x == c && starts_with xs cs

-- `find`: what is before the first place where the separator stands, and what is behind it.
unfoldable pub cut : Bytes → Bytes → Option (Bytes × Bytes)
cut separator [] = if starts_with separator [] then some ([], []) else none
cut separator (c ∷ cs) =
    let later = cut separator cs in
    if starts_with separator (c ∷ cs)
    then some ([], drop (length separator) (c ∷ cs))
    else elim later [ none ↦ none | some p ↦ some (c ∷ p.0, p.1) ]

unfoldable pub extract_between : Bytes → Bytes → Bytes → Bytes
extract_between bytes separator1 separator2 = elim (cut separator1 bytes) [
  | none ↦ []
  | some p ↦ elim (cut separator2 p.1) [ none ↦ [] | some q ↦ q.0 ]
]

-- `toupper` and `isspace` of the C locale.
unfoldable pub to_upper : ℕ → ℕ
to_upper c = if leb 97 c && leb c 122 then c - 32 else c

unfoldable pub is_space : ℕ → Bool
is_space c = if c == 32 then true else leb 9 c && leb c 13

-- The loop of `stringsAreEqual`, and what it returns at the end of a string.
unfoldable pub compare_loop : Bytes → Bytes → Bool → Bool
unfolding to_upper
compare_loop [] ds good = good
compare_loop (c ∷ cs) [] good = good
compare_loop (c ∷ cs) (d ∷ ds) good =
    let rest = compare_loop cs ds good in if to_upper c == to_upper d then rest else false

-- `stringsAreEqual` with a length.
unfoldable pub strings_are_equal : Bytes → Bytes → ℕ → Bool
strings_are_equal s1 s2 n =
    if leb n (length s1) && leb n (length s2)
    then compare_loop (take n s1) (take n s2) true
    else compare_loop s1 s2 false

-- `stringsAreEqual` on whole strings.
unfoldable pub same_strings : Bytes → Bytes → Bool
unfolding compare_loop
same_strings s1 s2 = compare_loop s1 s2 (length s2 == length s1)
