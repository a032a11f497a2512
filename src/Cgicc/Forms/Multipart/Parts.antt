-- ===== src/Cgicc/Forms/Multipart/Parts.antt =====
-- The parser on all parts of a multipart form.
use fastcgi_async_or_corouti.Base.{
  ℕ, zero, suc, ◌-◌, ◌≤◌, ◌<◌, ◌≡◌, refl, sym, ap, ◌∙◌, true, false, Option, none, some, Bytes,
  List, [], ◌∷◌, ◌++◌, append_assoc, append-nil, length, length-append, drop, All, codes, arith,
}
use fastcgi_async_or_corouti.Cgicc.Strings.{
  starts_with, strings_are_equal, compare_loop, to_upper, cut,
}
use fastcgi_async_or_corouti.Cgicc.Forms.{
  Forms, parse_mime, last_part, parts_loop, parse_multipart, boundary_of, behind_first, parse_parts,
  is_standard, multipart_type, parse_form_input,
}
use fastcgi_async_or_corouti.Cgicc.Forms.Splitting.{
  IsOther, absent, cut-absent, cut-absent-none, EndsIn, LastOnly, absent-end, EndsIn-append,
  LastOnly-append,
}
use fastcgi_async_or_corouti.Cgicc.Forms.{cgicc, standard_type, parse_pairs}
use fastcgi_async_or_corouti.Base.{ArePairBytes}
use fastcgi_async_or_corouti.Cgicc.Forms.RoundTrip.{encode_form, parse_pairs-encode_form}
use fastcgi_async_or_corouti.Cgicc.Forms.Cookies.{IsCookie, encode_cookies, parse_cookies-encode}
use fastcgi_async_or_corouti.Cgicc.Forms.Whole.{
  parse_form_input-standard, standard_lem, cgicc-parsed,
}
use fastcgi_async_or_corouti.Cgicc.Forms.Multipart.{with_part, parse_mime-part}
use fastcgi_async_or_corouti.Cgicc.Forms.Multipart.Format.{
  separator, terminator, Part, head_of, value_of, part_of, encode_parts, IsPart, IsBoundary,
  fields_in, files_in, encode_multipart, type_of, field, upload,
}

part-EndsIn : (p : Part) → EndsIn 10 (part_of p)
part-EndsIn p =
    let tail = EndsIn-append 10 13 (codes "\r\n\r\n" ++ value_of p) (10 ∷ []) refl in
    EndsIn-append 10 13 (head_of p) (10 ∷ (codes "\r\n" ++ (value_of p ++ codes "\r\n"))) tail

separator-LastOnly :
    (boundary : Bytes) → All (IsOther 10) boundary → LastOnly 10 (separator boundary)
separator-LastOnly boundary h =
    LastOnly-append 10 13 (codes "--" ++ boundary) (10 ∷ []) (ground arith, (ground arith, h))
      (ground arith, tt)

terminator-LastOnly :
    (boundary : Bytes) → All (IsOther 10) boundary → LastOnly 10 (terminator boundary)
terminator-LastOnly boundary h =
    LastOnly-append 10 45 (codes "--" ++ boundary) (codes "-\r\n") (ground arith, (ground arith, h))
      (ground arith, (ground arith, (ground arith, tt)))

next_part :
    (boundary : Bytes) (p : Part) (rest : Bytes)
    → IsBoundary boundary
    → IsPart boundary p
    → cut (separator boundary) (part_of p ++ (separator boundary ++ rest)) ≡ some (part_of p, rest)
next_part boundary p rest b h = cut-absent 45 (45 ∷ (boundary ++ codes "\r\n")) (part_of p) rest (
    absent-end 10 45 (45 ∷ (boundary ++ codes "\r\n")) (part_of p) _
      (separator-LastOnly boundary b.one_line) (part-EndsIn p) h.apart)

no_next_part :
    (boundary : Bytes) (p : Part)
    → IsBoundary boundary
    → IsPart boundary p
    → cut (separator boundary) (part_of p ++ terminator boundary) ≡ none
no_next_part boundary p b h =
    cut-absent-none 45 (45 ∷ (boundary ++ codes "\r\n")) (part_of p) (terminator boundary)
      (absent-end 10 45 (45 ∷ (boundary ++ codes "\r\n")) (part_of p) (terminator boundary)
        (separator-LastOnly boundary b.one_line) (part-EndsIn p) h.apart)
      b.distinct

with_parts : List Part → Forms → Forms
with_parts ps forms = record {
  form_data = forms.form_data ++ fields_in ps;
  form_files = forms.form_files ++ files_in ps;
}

with_parts-cons :
    (p : Part) (ps : List Part) (forms : Forms)
    → with_parts ps (with_part p forms) ≡ with_parts (p ∷ ps) forms
unfolding with_part with_parts
with_parts-cons (field name value) ps forms =
    ap (λ l. record { form_data = l; form_files = forms.form_files ++ files_in ps })
      (append_assoc forms.form_data ((name, value) ∷ []) (fields_in ps))
with_parts-cons (upload name filename type value) ps forms =
    ap (λ l. record { form_data = forms.form_data ++ fields_in ps; form_files = l })
      (append_assoc forms.form_files ((name, value) ∷ []) (files_in ps))

with_parts-nil : (forms : Forms) → with_parts [] forms ≡ forms
unfolding with_parts
with_parts-nil forms =
    ap (λ l. record { form_data = l; form_files = forms.form_files ++ [] })
      (append-nil forms.form_data)
    ∙ ap (λ l. record { form_data = forms.form_data; form_files = l }) (append-nil forms.form_files)

abbrev round : ℕ → Bytes → Bytes → Bytes → Forms → Option (Bytes × Bytes) → Option Forms
round fuel sep1 sep2 rest forms o = elim o [
  | none ↦ last_part sep2 rest forms
  | some p ↦ elim (parse_mime p.0 forms) [
    | none ↦ none
    | some forms' ↦ parts_loop fuel sep1 sep2 p.1 forms'
  ]
]

abbrev and_then : (Forms → Option Forms) → Option Forms → Option Forms
and_then f o = elim o [ none ↦ none | some forms ↦ f forms ]

-- The last part is found before the terminator.
last_part_lem :
    (boundary : Bytes) (p : Part) (forms : Forms)
    → IsBoundary boundary
    → IsPart boundary p
    → last_part (terminator boundary) (part_of p ++ terminator boundary) forms
      ≡ some (with_part p forms)
last_part_lem boundary p forms b h =
    let text = 45 ∷ (boundary ++ codes "--\r\n") in
    let found : cut (terminator boundary) (part_of p ++ terminator boundary)
        ≡ some (part_of p, []) =
      ap (λ t. cut (terminator boundary) (part_of p ++ t)) (sym (append-nil (terminator boundary)))
      ∙ cut-absent 45 text (part_of p) [] (
          absent-end 10 45 text (part_of p) _ (terminator-LastOnly boundary b.one_line)
            (part-EndsIn p) h.closed) in
    ap (λ o. elim o [ none ↦ some forms | some r ↦ parse_mime r.0 forms ]) found
    ∙ parse_mime-part boundary p forms h

parts_loop-encode :
    (fuel : ℕ) (boundary : Bytes) (p : Part) (ps : List Part) (forms : Forms)
    → length ps < fuel
    → IsBoundary boundary
    → All (IsPart boundary) (p ∷ ps)
    → parts_loop fuel (separator boundary) (terminator boundary) (encode_parts boundary p ps) forms
      ≡ some (with_parts (p ∷ ps) forms)
unfolding parts_loop encode_parts
parts_loop-encode zero boundary p ps forms l b h = absurd (omega (arith, l))
parts_loop-encode (suc fuel) boundary p [] forms l b (h, hs) =
    let sep1 = separator boundary in
    let sep2 = terminator boundary in
    ap (round fuel sep1 sep2 (part_of p ++ sep2) forms) (no_next_part boundary p b h)
    ∙ last_part_lem boundary p forms b h
    ∙ ap some (sym (with_parts-nil (with_part p forms)) ∙ with_parts-cons p [] forms)
parts_loop-encode (suc fuel) boundary p (q ∷ qs) forms l b (h, hs) =
    let sep1 = separator boundary in
    let sep2 = terminator boundary in
    let rest = encode_parts boundary q qs in
    ap (round fuel sep1 sep2 (part_of p ++ (sep1 ++ rest)) forms) (next_part boundary p rest b h)
    ∙ ap (and_then (parts_loop fuel sep1 sep2 rest)) (parse_mime-part boundary p forms h)
    ∙ parts_loop-encode fuel boundary q qs (with_part p forms) (omega (arith, l)) b hs
    ∙ ap some (with_parts-cons p (q ∷ qs) forms)

length-parts :
    (boundary : Bytes) (p : Part) (ps : List Part) → length ps ≤ length (encode_parts boundary p ps)
unfolding encode_parts
length-parts boundary p [] = omega arith
length-parts boundary p (q ∷ qs) = omega (
  arith,
  length-parts boundary q qs,
  length-append (part_of p) (separator boundary ++ encode_parts boundary q qs),
  length-append (separator boundary) (encode_parts boundary q qs),
)

boundary_lem : (boundary : Bytes) → boundary_of (type_of boundary) ≡ boundary
unfolding boundary_of cut starts_with
boundary_lem boundary = refl

first_lem :
    (boundary rest : Bytes) → behind_first (separator boundary) (separator boundary ++ rest) ≡ rest
unfolding behind_first absent
first_lem boundary rest =
    ap
      (λ o. elim o [
        | none ↦ drop (length (separator boundary) - 1) (separator boundary ++ rest)
        | some p ↦ p.1
      ])
      (cut-absent 45 (45 ∷ (boundary ++ codes "\r\n")) [] rest refl)

parse_parts-encode :
    (boundary : Bytes) (p : Part) (ps : List Part) (forms : Forms)
    → IsBoundary boundary
    → All (IsPart boundary) (p ∷ ps)
    → parse_parts boundary (encode_multipart boundary p ps) forms ≡ some (with_parts (p ∷ ps) forms)
unfolding parse_parts
parse_parts-encode boundary p ps forms b h =
    let rest = encode_parts boundary p ps in
    ap (λ r. parts_loop (suc (length r)) (separator boundary) (terminator boundary) r forms)
      (first_lem boundary rest)
    ∙ parts_loop-encode (suc (length rest)) boundary p ps forms
        (omega (arith, length-parts boundary p ps)) b h

is_other_type :
    (boundary : Bytes)
    → (is_standard (type_of boundary) ≡ false)
      × (strings_are_equal multipart_type (type_of boundary) (length multipart_type) ≡ true)
unfolding strings_are_equal compare_loop to_upper
is_other_type boundary = (ground arith, ground arith)

multipart_lem :
    (bytes boundary : Bytes) (forms : Forms)
    → parse_multipart bytes (type_of boundary) forms ≡ parse_parts boundary bytes forms
unfolding parse_multipart
multipart_lem bytes boundary forms = ap (λ l. parse_parts l bytes forms) (boundary_lem boundary)

parse_form_input-multipart :
    (boundary : Bytes) (p : Part) (ps : List Part) (forms : Forms)
    → IsBoundary boundary
    → All (IsPart boundary) (p ∷ ps)
    → parse_form_input (encode_multipart boundary p ps) (type_of boundary) forms
      ≡ some (with_parts (p ∷ ps) forms)
unfolding parse_form_input
parse_form_input-multipart boundary p ps forms b h =
    let (other, same) = is_other_type boundary in
    rw (other, same)
      (multipart_lem (encode_multipart boundary p ps) boundary forms
        ∙ parse_parts-encode boundary p ps forms b h)

-- A request whose body is a multipart form of fields and files, with form data in its query string and
-- with cookies, gives the fields in their order, then the pairs of the query string, the names and the data
-- of the files in their order, and the cookies: the boundary is of one line and its separator not in its
-- terminator, a name has no quote, `=` or carriage return, the name of a file no quote or carriage return,
-- and it is not empty when it is decoded, the type of a file has no carriage return, and neither the
-- separator nor the terminator is in a part.
pub cgicc-multipart :
    (boundary : Bytes) (p : Part) (ps : List Part) (query cookies : List (Bytes × Bytes))
    → IsBoundary boundary
    → All (IsPart boundary) (p ∷ ps)
    → All ArePairBytes query
    → All IsCookie cookies
    → cgicc
        (encode_form query)
        (encode_cookies cookies)
        (encode_multipart boundary p ps)
        (type_of boundary)
      ≡ some (record {
        elements = fields_in (p ∷ ps) ++ query;
        files = files_in (p ∷ ps);
        cookies = cookies;
      })
unfolding with_parts
cgicc-multipart boundary p ps query cookies b h hq hc =
    let first = with_parts (p ∷ ps) (record { form_data = []; form_files = [] }) in
    cgicc-parsed (encode_form query) (encode_cookies cookies) (encode_multipart boundary p ps)
      (type_of boundary) first
      (record first { form_data = first.form_data ++ parse_pairs (encode_form query) })
      (parse_form_input-multipart boundary p ps _ b h)
      (parse_form_input-standard (encode_form query) standard_type first standard_lem)
    ∙ rw (parse_pairs-encode_form query hq, parse_cookies-encode cookies hc) refl
