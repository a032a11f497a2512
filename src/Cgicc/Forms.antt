-- ===== src/Cgicc/Forms.antt =====
-- The class `Cgicc` of cocgi/cgicc_lib/Cgicc.cpp: its constructor, and the functions that it calls.
pub mod Splitting
pub mod RoundTrip
pub mod Cookies
pub mod Whole
pub mod Loops
pub mod Multipart
pub mod Carried
use fastcgi_async_or_corouti.Base.{
  ℕ, zero, suc, ◌+◌, ◌-◌, ◌%◌, ◌^◌, Bool, true, false, Option, none, some, Bytes, List, [], ◌∷◌,
  ◌++◌, length, take, drop, if◌then◌else◌, codes,
}
use fastcgi_async_or_corouti.Cgi.{CgiData, CgiParser}
use fastcgi_async_or_corouti.Cgicc.Url.{form_urldecode}
use fastcgi_async_or_corouti.Cgicc.Strings.{cut, extract_between, is_space, strings_are_equal}

-- fFormData and fFormFiles; of a file its name and its data.
pub record Forms : Type 0 where
  pub form_data : List (Bytes × Bytes)
  pub form_files : List (Bytes × Bytes)

-- The loop over the pairs of application/x-www-form-urlencoded, from `oldPos` on.
unfoldable pub pairs_loop : ℕ → Bytes → List (Bytes × Bytes)
pairs_loop zero rest = []
pairs_loop (suc fuel) rest = elim (cut (61 ∷ []) rest) [
  | none ↦ []
  | some p ↦ elim (cut (38 ∷ []) p.1) [
    | none ↦ (form_urldecode p.0, form_urldecode p.1) ∷ []
    | some q ↦ (form_urldecode p.0, form_urldecode q.0) ∷ pairs_loop fuel q.1
  ]
]

-- A round that goes on takes a byte at least, so `length` rounds are enough.
unfoldable pub parse_pairs : Bytes → List (Bytes × Bytes)
unfolding pairs_loop
parse_pairs bytes = pairs_loop (length bytes) bytes

pub record MultipartHeader : Type 0 where
  pub content_disposition : Bytes
  pub name : Bytes
  pub filename : Bytes
  pub content_type : Bytes

unfoldable pub parse_header : Bytes → MultipartHeader
parse_header bytes = record {
  content_disposition = extract_between bytes (codes "Content-Disposition: ") (codes ";");
  name = extract_between bytes (codes "name=\"") (codes "\"");
  filename = form_urldecode (extract_between bytes (codes "filename=\"") (codes "\""));
  content_type = extract_between bytes (codes "Content-Type: ") (codes "\r\n\r\n");
}

abbrev pub store_part : MultipartHeader → Bytes → Forms → Forms
store_part head value forms = elim head.filename [
  | [] ↦ record forms { form_data = forms.form_data ++ ((head.name, value) ∷ []) }
  | c ∷ cs ↦ record forms { form_files = forms.form_files ++ ((head.name, value) ∷ []) }
]

-- `none` is the exception "Malformed input". The length of the value is a `size_t`.
unfoldable pub parse_mime : Bytes → Forms → Option Forms
unfolding parse_header
parse_mime bytes forms = elim (cut (codes "\r\n\r\n") bytes) [
  | none ↦ none
  | some p ↦
      let value = take ((length p.1 + (2 ^ 64 - 2)) % 2 ^ 64) p.1 in
      some (store_part (parse_header (p.0 ++ codes "\r\n\r\n")) value forms)
]

abbrev pub last_part : Bytes → Bytes → Forms → Option Forms
last_part sep2 rest forms = elim (cut sep2 rest) [
  | none ↦ some forms
  | some p ↦ parse_mime p.0 forms
]

-- The loop over the parts of multipart/form-data, from `oldPos` on, and the last part behind it.
unfoldable pub parts_loop : ℕ → Bytes → Bytes → Bytes → Forms → Option Forms
parts_loop zero sep1 sep2 rest forms = some forms
parts_loop (suc fuel) sep1 sep2 rest forms = elim (cut sep1 rest) [
  | none ↦ last_part sep2 rest forms
  | some p ↦ elim (parse_mime p.0 forms) [
    | none ↦ none
    | some forms' ↦ parts_loop fuel sep1 sep2 p.1 forms'
  ]
]

-- `pos` may be npos, which is -1: then 8 characters of the type are dropped.
unfoldable pub boundary_of : Bytes → Bytes
boundary_of content_type = elim (cut (codes "boundary=") content_type) [
  | none ↦ drop 8 content_type
  | some p ↦ p.1
]

-- `start` may be npos: then one less of the data is dropped than the separator has.
unfoldable pub behind_first : Bytes → Bytes → Bytes
behind_first sep1 bytes = elim (cut sep1 bytes) [
  | none ↦ drop (length sep1 - 1) bytes
  | some p ↦ p.1
]

-- Each round but the last takes a separator off the data.
unfoldable pub parse_parts : Bytes → Bytes → Forms → Option Forms
unfolding behind_first parts_loop
parse_parts boundary bytes forms =
    let sep1 = codes "--" ++ (boundary ++ codes "\r\n") in
    let sep2 = codes "--" ++ (boundary ++ codes "--\r\n") in
    let rest = behind_first sep1 bytes in parts_loop (suc (length rest)) sep1 sep2 rest forms

unfoldable pub parse_multipart : Bytes → Bytes → Forms → Option Forms
parse_multipart bytes content_type forms = parse_parts (boundary_of content_type) bytes forms

abbrev pub standard_type : Bytes
standard_type = codes "application/x-www-form-urlencoded"

abbrev pub multipart_type : Bytes
multipart_type = codes "multipart/form-data"

abbrev pub is_standard : Bytes → Bool
is_standard [] = true
is_standard (c ∷ cs) = strings_are_equal (c ∷ cs) standard_type (length standard_type)

unfoldable pub parse_form_input : Bytes → Bytes → Forms → Option Forms
parse_form_input [] content_type forms = some forms
parse_form_input (b ∷ bs) content_type forms =
    if is_standard content_type
    then some (record forms { form_data = forms.form_data ++ parse_pairs (b ∷ bs) })
    else if strings_are_equal multipart_type content_type (length multipart_type)
    then parse_multipart (b ∷ bs) content_type forms
    else some forms

-- The name without the white space before it.
unfoldable pub skip_spaces : Bytes → Bytes
skip_spaces [] = []
skip_spaces (c ∷ cs) = let rest = skip_spaces cs in if is_space c then rest else c ∷ cs

-- The cookies that `parseCookie` adds: one, or none without a `=`.
unfoldable pub parse_cookie : Bytes → List (Bytes × Bytes)
unfolding skip_spaces
parse_cookie bytes = elim (cut (61 ∷ []) bytes) [ none ↦ [] | some p ↦ (skip_spaces p.0, p.1) ∷ [] ]

unfoldable pub cookies_loop : ℕ → Bytes → List (Bytes × Bytes)
unfolding parse_cookie
cookies_loop zero rest = []
cookies_loop (suc fuel) rest = elim (cut (59 ∷ []) rest) [
  | none ↦ parse_cookie rest
  | some p ↦ parse_cookie p.0 ++ cookies_loop fuel p.1
]

-- Each round but the last takes a byte at least. On an empty string there is no cookie.
unfoldable pub parse_cookies : Bytes → List (Bytes × Bytes)
unfolding cookies_loop
parse_cookies bytes = cookies_loop (suc (length bytes)) bytes

-- The constructor: the posted data, then the query string, whose type is the default argument, then the
-- cookies.
unfoldable pub cgicc : CgiParser
cgicc query cookie posted type =
    elim (parse_form_input posted type (record { form_data = []; form_files = [] })) [
      | none ↦ none
      | some forms ↦ elim (parse_form_input query standard_type forms) [
        | none ↦ none
        | some all ↦ some (record {
          elements = all.form_data;
          files = all.form_files;
          cookies = parse_cookies cookie;
        })
      ]
    ]
