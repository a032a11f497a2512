-- ===== src/Cgicc/Forms/Multipart.antt =====
-- One part of multipart/form-data in the parser.
pub mod Format
pub mod Parts
use fastcgi_async_or_corouti.Base.{
  ℕ, zero, suc, ◌+◌, ◌-◌, ◌%◌, ◌^◌, ◌≤◌, ◌<◌, ◌≡◌, refl, sym, ap, ◌∙◌, true, false, Option, none,
  some, Bytes, List, [], ◌∷◌, ◌++◌, append_assoc, append-nil, length, length-append, take, drop,
  take-append_self, All, All-append, codes, leb, ◌==◌, if◌then◌else◌, arith,
}
use fastcgi_async_or_corouti.Cgicc.Url.{form_urldecode}
use fastcgi_async_or_corouti.Cgicc.Strings.{
  starts_with, strings_are_equal, compare_loop, to_upper, cut, extract_between,
}
use fastcgi_async_or_corouti.Cgicc.Forms.{
  Forms, MultipartHeader, parse_header, store_part, parse_mime, last_part, parts_loop,
  parse_multipart, boundary_of, behind_first, parse_parts, is_standard, multipart_type,
  parse_form_input,
}
use fastcgi_async_or_corouti.Cgicc.Forms.Splitting.{
  IsOther, cut-append, cut-absent-some, absent-append, cut-none, absent, cut-absent,
  cut-absent-none, absent-other, EndsIn, LastOnly, absent-end, EndsIn-append, LastOnly-append,
  cut-without,
}
use fastcgi_async_or_corouti.Cgicc.Forms.Multipart.Format.{
  separator, terminator, Part, name_head, file_head, head_of, value_of, part_of, encode_parts,
  IsName, IsFile, IsHead, IsPart, IsBoundary, fields_in, files_in, encode_multipart, type_of, field,
  upload,
}

abbrev before : Option (Bytes × Bytes) → Bytes
before o = elim o [ none ↦ [] | some q ↦ q.0 ]

abbrev between : Option (Bytes × Bytes) → Bytes
between o = elim o [ none ↦ [] | some p ↦ before (cut (codes "\"") p.1) ]

-- What is behind the quote that ends the name.
name_lem :
    (name rest : Bytes)
    → All (IsOther 34) name
    → extract_between (name_head name ++ rest) (codes "name=\"") (codes "\"") ≡ name
unfolding extract_between cut starts_with
name_lem name rest h =
    ap (λ t. before (cut (34 ∷ []) t)) (append_assoc name (34 ∷ []) rest)
    ∙ ap before (cut-append 34 name rest h)

-- No file is named in the first part of a head.
unnamed : (name : Bytes) → All (IsOther 61) name → cut (codes "filename=\"") (name_head name) ≡ none
unfolding absent starts_with
unnamed name h =
    let without : All (IsOther 61) (name ++ codes "\"") =
      All-append (IsOther 61) name _ h (ground arith, tt) in
    cut-absent-none 102 (codes "ilename=\"") (codes "Content-Disposition: form-data; name=\"")
      (name ++ codes "\"") refl (cut-without 61 (codes "filename") (codes "\"") _ without)

name_head-EndsIn : (name : Bytes) → EndsIn 34 (name_head name)
name_head-EndsIn name =
    EndsIn-append 34 61 (codes "Content-Disposition: form-data; name") (34 ∷ (name ++ codes "\""))
      (EndsIn-append 34 34 (34 ∷ name) [] refl)

filename_absent :
    (name rest : Bytes)
    → All (IsOther 61) name
    → absent (codes "filename=\"") (name_head name) rest ≡ true
filename_absent name rest h =
    absent-end 34 102 (codes "ilename=\"") (name_head name) rest (ground arith)
      (name_head-EndsIn name) (unnamed name h)

no_filename :
    (name : Bytes)
    → All (IsOther 61) name
    → extract_between (name_head name ++ codes "\r\n\r\n") (codes "filename=\"") (codes "\"") ≡ []
unfolding extract_between starts_with cut
no_filename name h = ap between (
    cut-absent-none 102 (codes "ilename=\"") (name_head name) (codes "\r\n\r\n")
      (filename_absent name (codes "\r\n\r\n") h) refl)

-- What is behind the quote that ends the name of a file.
abbrev file_tail : Bytes → Bytes
file_tail type = codes "\r\nContent-Type: " ++ type

filename_cut :
    (filename type : Bytes)
    → cut (codes "filename=\"") (file_head filename type ++ codes "\r\n\r\n")
      ≡ some (codes "; ", (filename ++ (34 ∷ file_tail type)) ++ codes "\r\n\r\n")
unfolding cut starts_with
filename_cut filename type = refl

filename_lem :
    (name filename type : Bytes)
    → All (IsOther 61) name
    → All (IsOther 34) filename
    → extract_between
        ((name_head name ++ file_head filename type) ++ codes "\r\n\r\n")
        (codes "filename=\"")
        (codes "\"")
      ≡ filename
unfolding extract_between
filename_lem name filename type h k =
    let rest : Bytes = file_head filename type ++ codes "\r\n\r\n" in
    ap (λ t. between (cut (codes "filename=\"") t))
      (append_assoc (name_head name) (file_head filename type) (codes "\r\n\r\n"))
    ∙ ap between (
        cut-absent-some 102 (codes "ilename=\"") (name_head name) rest (codes "; ") _
          (filename_absent name rest h) (filename_cut filename type))
    ∙ ap (λ t. before (cut (34 ∷ []) t))
        (append_assoc filename (34 ∷ file_tail type) (codes "\r\n\r\n"))
    ∙ ap before (cut-append 34 filename (file_tail type ++ codes "\r\n\r\n") k)

value_lem :
    (value : Bytes)
    → length value < 2 ^ 64 - 2
    → take ((length (value ++ codes "\r\n") + (2 ^ 64 - 2)) % 2 ^ 64) (value ++ codes "\r\n")
      ≡ value
value_lem value h =
    let e : (length (value ++ codes "\r\n") + (2 ^ 64 - 2)) % 2 ^ 64 ≡ length value =
      omega (arith, length-append value (codes "\r\n")) in
    rw e (take-append_self value (codes "\r\n"))

-- The part stored: its name and its value among the fields or the files.
unfoldable pub with_part : Part → Forms → Forms
with_part (field name value) forms = record forms {
  form_data = forms.form_data ++ ((name, value) ∷ []);
}
with_part (upload name filename type value) forms = record forms {
  form_files = forms.form_files ++ ((name, value) ∷ []);
}

abbrev stored_by : Bytes → Bytes → Bytes → Forms → Forms
stored_by file name value forms = elim file [
  | [] ↦ record forms { form_data = forms.form_data ++ ((name, value) ∷ []) }
  | c ∷ cs ↦ record forms { form_files = forms.form_files ++ ((name, value) ∷ []) }
]

as_file :
    (file name value : Bytes) (forms : Forms)
    → 0 < length file
    → stored_by file name value forms
      ≡ record forms { form_files = forms.form_files ++ ((name, value) ∷ []) }
as_file [] name value forms h = absurd (omega arith)
as_file (c ∷ cs) name value forms h = refl

nothing_decoded : form_urldecode [] ≡ []
unfolding form_urldecode
nothing_decoded = refl

store_part_lem :
    (p : Part) (forms : Forms)
    → IsHead p
    → store_part (parse_header (head_of p ++ codes "\r\n\r\n")) (value_of p) forms
      ≡ with_part p forms
unfolding with_part parse_header
store_part_lem (field name value) forms h =
    ap
      (λ f.
        stored_by (form_urldecode f)
          (extract_between (name_head name ++ codes "\r\n\r\n") (codes "name=\"") (codes "\""))
          value forms)
      (no_filename name h.no_equals)
    ∙ ap (λ n. stored_by (form_urldecode []) n value forms)
        (name_lem name (codes "\r\n\r\n") h.no_quote)
    ∙ ap (λ f. stored_by f name value forms) nothing_decoded
store_part_lem (upload name filename type value) forms (h, k) =
    let text : Bytes = (name_head name ++ file_head filename type) ++ codes "\r\n\r\n" in
    ap
      (λ f.
        stored_by (form_urldecode f) (extract_between text (codes "name=\"") (codes "\"")) value
          forms)
      (filename_lem name filename type h.no_equals k.no_quote)
    ∙ ap
        (λ t.
          stored_by (form_urldecode filename) (extract_between t (codes "name=\"") (codes "\""))
            value forms)
        (append_assoc (name_head name) (file_head filename type) (codes "\r\n\r\n"))
    ∙ ap (λ n. stored_by (form_urldecode filename) n value forms)
        (name_lem name (file_head filename type ++ codes "\r\n\r\n") h.no_quote)
    ∙ as_file (form_urldecode filename) name value forms k.not_empty

abbrev mime : Forms → Option (Bytes × Bytes) → Option Forms
mime forms o = elim o [
  | none ↦ none
  | some p ↦
      let value = take ((length p.1 + (2 ^ 64 - 2)) % 2 ^ 64) p.1 in
      some (store_part (parse_header (p.0 ++ codes "\r\n\r\n")) value forms)
]

-- No empty line begins in the head.
name_head-IsOther : (name : Bytes) → All (IsOther 13) name → All (IsOther 13) (name_head name)
name_head-IsOther name h =
    let literal : All (IsOther 13) (codes "Content-Disposition: form-data; name=\"") =
      omega arith in
    All-append (IsOther 13) (codes "Content-Disposition: form-data; name=\"") _ literal
      (All-append (IsOther 13) name (codes "\"") h (ground arith, tt))

abbrev break : Bytes
break = codes "\r\n\r\n"

tail_absent : (type s : Bytes) → All (IsOther 13) type → absent break (file_tail type) s ≡ true
unfolding absent starts_with
tail_absent type s h = absent-other 13 (codes "\n\r\n") type s h

head_absent : (p : Part) (s : Bytes) → IsHead p → absent break (head_of p) s ≡ true
head_absent (field name value) s h =
    absent-other 13 (codes "\n\r\n") (name_head name) s (name_head-IsOther name h.no_return)
head_absent (upload name filename type value) s (h, k) =
    let other = absent-other 13 (codes "\n\r\n") in
    absent-append break (name_head name) (file_head filename type) s
      (other (name_head name) _ (name_head-IsOther name h.no_return))
      (absent-append break (codes "; filename=\"") (filename ++ (34 ∷ file_tail type)) s
        (other (codes "; filename=\"") _ (omega arith))
        (absent-append break filename (34 ∷ file_tail type) s (other filename _ k.no_return) (
          absent-append break (34 ∷ []) (file_tail type) s (other (34 ∷ []) _ (ground arith, tt))
            (tail_absent type s k.type_line))))

-- The empty line is found behind the head.
cut-part_of :
    (p : Part) → IsHead p → cut break (part_of p) ≡ some (head_of p, value_of p ++ codes "\r\n")
cut-part_of p h =
    cut-absent 13 (codes "\n\r\n") (head_of p) (value_of p ++ codes "\r\n")
      (head_absent p (break ++ (value_of p ++ codes "\r\n")) h)

pub parse_mime-part :
    (boundary : Bytes) (p : Part) (forms : Forms)
    → IsPart boundary p
    → parse_mime (part_of p) forms ≡ some (with_part p forms)
unfolding parse_mime
parse_mime-part boundary p forms h =
    ap (mime forms) (cut-part_of p h.is_head)
    ∙ ap (λ v. some (store_part (parse_header (head_of p ++ codes "\r\n\r\n")) v forms))
        (value_lem (value_of p) h.short)
    ∙ ap some (store_part_lem p forms h.is_head)
