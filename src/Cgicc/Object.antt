-- ===== src/Cgicc/Object.antt =====
-- The class `Cgicc` of cocgi/cgicc_lib as an object: searches among its entries, copies, assignment.
pub mod Copies
pub mod Searches
use fastcgi_async_or_corouti.Base.{
  ℕ, Bool, true, false, not, Option, none, some, Bytes, List, [], ◌∷◌, if◌then◌else◌, codes,
}
use fastcgi_async_or_corouti.Cgicc.Strings.{same_strings}
use fastcgi_async_or_corouti.Cgicc.Forms.{Forms, standard_type, parse_form_input, parse_cookies}

-- The data members.
pub record Cgicc : Type 0 where
  pub query_string : Bytes
  pub cookie : Bytes
  pub post_data : Bytes
  pub query_type : Bytes
  pub forms : Forms
  pub cookies : List (Bytes × Bytes)

abbrev pub no_forms : Forms
no_forms = record { form_data = []; form_files = [] }

-- The two calls of `parseFormInput` that the constructor and the assignment make; none if one throws.
unfoldable pub parse_forms : Bytes → Bytes → Bytes → Option Forms
parse_forms post_data query_type query_string =
    elim (parse_form_input post_data query_type no_forms) [
      | none ↦ none
      | some forms ↦ parse_form_input query_string standard_type forms
    ]

unfoldable pub new_cgicc : Bytes → Bytes → Bytes → Bytes → Option Cgicc
new_cgicc query cookie posted type = elim (parse_forms posted type query) [
  | none ↦ none
  | some forms ↦ some (record {
    query_string = query;
    cookie = cookie;
    post_data = posted;
    query_type = type;
    forms = forms;
    cookies = parse_cookies cookie;
  })
]

-- `operator=`: the entries are parsed anew, from the strings of the object that is assigned to.
unfoldable pub assign_from : Cgicc → Cgicc → Option Cgicc
assign_from cgi this = elim (parse_forms this.post_data this.query_type this.query_string) [
  | none ↦ none
  | some forms ↦ some (record this { forms = forms })
]

-- The copy constructor.
unfoldable pub copy : Cgicc → Option Cgicc
unfolding assign_from
copy cgi = assign_from cgi (record {
  query_string = cgi.query_string;
  cookie = cgi.cookie;
  post_data = cgi.post_data;
  query_type = cgi.query_type;
  forms = no_forms;
  cookies = [];
})

-- `operator()` of `FE_nameCompare`, `FE_valueCompare` and `FF_compare`.
unfoldable pub fe_name_compare : Bytes → Bytes × Bytes → Bool
fe_name_compare name entry = same_strings name entry.0

unfoldable pub fe_value_compare : Bytes → Bytes × Bytes → Bool
fe_value_compare value entry = same_strings value entry.1

unfoldable pub ff_compare : Bytes → Bytes × Bytes → Bool
ff_compare name file = same_strings name file.0

-- The first element that a test accepts.
unfoldable pub find_if {ℓ} : {A : Type ℓ} → (A → Bool) → List A → Option A
find_if p [] = none
find_if p (x ∷ xs) = let rest = find_if p xs in if p x then some x else rest

unfoldable pub copy_if {ℓ} : {A : Type ℓ} → (A → Bool) → List A → List A
copy_if p [] = []
copy_if p (x ∷ xs) = let rest = copy_if p xs in if p x then x ∷ rest else rest

abbrev pub get_element : Bytes → Cgicc → Option (Bytes × Bytes)
get_element name cgi = find_if (fe_name_compare name) cgi.forms.form_data

abbrev pub get_element_by_value : Bytes → Cgicc → Option (Bytes × Bytes)
get_element_by_value value cgi = find_if (fe_value_compare value) cgi.forms.form_data

abbrev pub get_file : Bytes → Cgicc → Option (Bytes × Bytes)
get_file name cgi = find_if (ff_compare name) cgi.forms.form_files

abbrev pub is_filled : List (Bytes × Bytes) → Bool
is_filled [] = false
is_filled (p ∷ ps) = true

unfoldable pub find_entries : Bytes → Bool → Cgicc → Bool × List (Bytes × Bytes)
find_entries param by_name cgi =
    let result =
      if by_name
      then copy_if (fe_name_compare param) cgi.forms.form_data
      else copy_if (fe_value_compare param) cgi.forms.form_data in
    (is_filled result, result)

unfoldable pub query_checkbox : Bytes → Cgicc → Bool
query_checkbox name cgi = elim (get_element name cgi) [
  | none ↦ false
  | some p ↦ same_strings p.1 (codes "on")
]

-- `operator()`
unfoldable pub value_of : Bytes → Cgicc → Bytes
value_of name cgi = elim (get_element name cgi) [ none ↦ [] | some p ↦ p.1 ]
