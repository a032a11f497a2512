-- ===== src/Cgicc/Object/Searches.antt =====
-- What the searches among the entries find.
use fastcgi_async_or_corouti.Base.{
  ◌≡◌, refl, ◌∙◌, Bool-cases, inl, inr, Bool, true, false, Option, none, some, Bytes, List, [], ◌∷◌,
  All,
}
use fastcgi_async_or_corouti.Cgicc.Strings.{same_strings}
use fastcgi_async_or_corouti.Cgicc.Object.{
  Cgicc, find_if, fe_name_compare, copy_if, is_filled, find_entries, get_element,
}

abbrev pub first {ℓ} : {A : Type ℓ} → List A → Option A
first [] = none
first (x ∷ xs) = some x

find_if-copy_if {ℓ} :
    {A : Type ℓ} (p : A → Bool) (xs : List A) → find_if p xs ≡ first (copy_if p xs)
unfolding find_if copy_if
find_if-copy_if p [] = refl
find_if-copy_if p (x ∷ xs) = elim (Bool-cases (p x)) [
  | inl b ↦ rw b refl
  | inr b ↦ rw b (find_if-copy_if p xs)
]

copy_if-All {ℓ} : {A : Type ℓ} (p : A → Bool) (xs : List A) → All (λ x. p x ≡ true) (copy_if p xs)
unfolding copy_if
copy_if-All p [] = tt
copy_if-All p (x ∷ xs) = elim (Bool-cases (p x)) [
  | inl b ↦ rw b (b, copy_if-All p xs)
  | inr b ↦ rw b (copy_if-All p xs)
]

is_filled-first : (ps : List (Bytes × Bytes)) → is_filled ps ≡ false → first ps ≡ none
is_filled-first [] h = refl
is_filled-first (p ∷ ps) h = cc

-- `getElement` with a vector gives elements of the name that is asked for only, letters of both cases
-- being the same; the first of them is the one that `getElement` without one finds; and where it
-- returns false, that one finds none.
pub find_entries_lem :
    (name : Bytes) (cgi : Cgicc)
    → All (λ p. same_strings name p.0 ≡ true) (find_entries name true cgi).1
      × (get_element name cgi ≡ first (find_entries name true cgi).1)
      × ((find_entries name true cgi).0 ≡ false → get_element name cgi ≡ none)
unfolding find_entries fe_name_compare
find_entries_lem name cgi =
    let same = find_if-copy_if (fe_name_compare name) cgi.forms.form_data in
    (
      copy_if-All (fe_name_compare name) cgi.forms.form_data,
      same,
      λ h. same ∙ is_filled-first (copy_if (fe_name_compare name) cgi.forms.form_data) h,
    )
