-- ===== src/Cgicc/Forms/Multipart/Format.antt =====
-- multipart/form-data as a browser sends it.
use fastcgi_async_or_corouti.Base.{
  ◌-◌, ◌^◌, ◌<◌, ◌≡◌, none, Bytes, List, [], ◌∷◌, ◌++◌, length, All, codes,
}
use fastcgi_async_or_corouti.Cgicc.Url.{form_urldecode}
use fastcgi_async_or_corouti.Cgicc.Strings.{cut}
use fastcgi_async_or_corouti.Cgicc.Forms.Splitting.{IsOther}

abbrev pub separator : Bytes → Bytes
separator boundary = codes "--" ++ (boundary ++ codes "\r\n")

abbrev pub terminator : Bytes → Bytes
terminator boundary = codes "--" ++ (boundary ++ codes "--\r\n")

-- A field, or a file with its name, the name of the file and its type.
pub data Part : Type 0 where
  field : (name value : Bytes) → Part
  upload : (name filename type value : Bytes) → Part

abbrev pub name_head : Bytes → Bytes
name_head name = codes "Content-Disposition: form-data; name=\"" ++ (name ++ codes "\"")

abbrev pub file_head : Bytes → Bytes → Bytes
file_head filename type =
    codes "; filename=\"" ++ (filename ++ (34 ∷ (codes "\r\nContent-Type: " ++ type)))

-- The head of a part, without the empty line behind it.
abbrev pub head_of : Part → Bytes
head_of (field name value) = name_head name
head_of (upload name filename type value) = name_head name ++ file_head filename type

abbrev pub value_of : Part → Bytes
value_of (field name value) = value
value_of (upload name filename type value) = value

-- What stands between two separators.
abbrev pub part_of : Part → Bytes
part_of p = head_of p ++ (codes "\r\n\r\n" ++ (value_of p ++ codes "\r\n"))

-- The parts behind the first separator.
unfoldable pub encode_parts : Bytes → Part → List Part → Bytes
encode_parts boundary p [] = part_of p ++ terminator boundary
encode_parts boundary p (q ∷ ps) = part_of p ++ (separator boundary ++ encode_parts boundary q ps)

-- A name without quotes, `=` and line breaks.
pub record IsName (name : Bytes) : Type 0 where
  pub no_quote : All (IsOther 34) name
  pub no_equals : All (IsOther 61) name
  pub no_return : All (IsOther 13) name

-- The name of a file without quotes and line breaks that is not empty when it is decoded, and a type
-- without line breaks.
pub record IsFile (filename type : Bytes) : Type 0 where
  pub no_quote : All (IsOther 34) filename
  pub no_return : All (IsOther 13) filename
  pub not_empty : 0 < length (form_urldecode filename)
  pub type_line : All (IsOther 13) type

abbrev pub IsHead : Part → Type 0
IsHead (field name value) = IsName name
IsHead (upload name filename type value) = IsName name × IsFile filename type

-- A part in which neither separator is.
pub record IsPart (boundary : Bytes) (p : Part) : Type 0 where
  pub is_head : IsHead p
  pub short : length (value_of p) < 2 ^ 64 - 2
  pub apart : cut (separator boundary) (part_of p) ≡ none
  pub closed : cut (terminator boundary) (part_of p) ≡ none

-- A boundary of one line whose separator is not in its terminator.
pub record IsBoundary (boundary : Bytes) : Type 0 where
  pub one_line : All (IsOther 10) boundary
  pub distinct : cut (separator boundary) (terminator boundary) ≡ none

-- The names and values of the fields, and of the files.
abbrev pub fields_in : List Part → List (Bytes × Bytes)
fields_in [] = []
fields_in (field name value ∷ ps) = (name, value) ∷ fields_in ps
fields_in (upload name filename type value ∷ ps) = fields_in ps

abbrev pub files_in : List Part → List (Bytes × Bytes)
files_in [] = []
files_in (field name value ∷ ps) = files_in ps
files_in (upload name filename type value ∷ ps) = (name, value) ∷ files_in ps

-- The body of a form with at least one field.
abbrev pub encode_multipart : Bytes → Part → List Part → Bytes
encode_multipart boundary p ps = separator boundary ++ encode_parts boundary p ps

abbrev pub type_of : Bytes → Bytes
type_of boundary = codes "multipart/form-data; boundary=" ++ boundary
