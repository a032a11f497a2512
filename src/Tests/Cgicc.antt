-- ===== src/Tests/Cgicc.antt =====
-- Runs of the model of cocgi/cgicc_lib, and the theorems about it at concrete inputs.
use fastcgi_async_or_corouti.Base.{
  ℕ, ◌≢◌, ArePairBytes, ◌≡◌, refl, none, some, true, false, Bytes, List, [], ◌∷◌, ◌++◌, All, codes,
  arith,
}
use fastcgi_async_or_corouti.Cgicc.Url.{
  hex_to_char, is_xdigit, is_unreserved, char_to_hex, encode_char, form_urlencode, is_escape,
  decode_char, form_urldecode,
}
use fastcgi_async_or_corouti.Cgicc.Strings.{
  starts_with, cut, extract_between, to_upper, is_space, compare_loop, strings_are_equal,
  same_strings,
}
use fastcgi_async_or_corouti.Cgicc.Forms.{
  parse_pairs, parse_header, parse_mime, parse_multipart, parse_parts, boundary_of,
  parse_form_input, skip_spaces, parse_cookie, parse_cookies, cgicc,
}
use fastcgi_async_or_corouti.Cgicc.Forms.RoundTrip.{encode_form}
use fastcgi_async_or_corouti.Cgicc.Forms.Cookies.{IsCookie, encode_cookies, parse_cookies-encode}
use fastcgi_async_or_corouti.Cgicc.Entries.{make_string, make_loop, count_breaks, get_integer_value}
use fastcgi_async_or_corouti.Cgicc.Object.{
  Cgicc, get_element, new_cgicc, parse_forms, copy, find_if, fe_name_compare, query_checkbox,
  find_entries,
}
use fastcgi_async_or_corouti.Cgicc.Object.Searches.{first, find_entries_lem}
use fastcgi_async_or_corouti.Cgicc.Object.Copies.{copy-new_cgicc}
use fastcgi_async_or_corouti.Cgicc.Forms.Multipart.Format.{
  IsBoundary, Part, field, upload, IsName, IsFile, IsPart,
}
use fastcgi_async_or_corouti.Cgicc.Forms.Multipart.Parts.{cgicc-multipart}
use fastcgi_async_or_corouti.Cgicc.Forms.Multipart.Format.{encode_multipart, type_of}
use fastcgi_async_or_corouti.Cgicc.Forms.Whole.{cgicc-encode}

encode_run : form_urlencode (codes "a b&1/2") ≡ codes "a+b%261%2F2"
unfolding form_urlencode encode_char char_to_hex is_unreserved
encode_run = refl

-- A `%` without two digits behind it stays.
decode_run : form_urldecode (codes "%41+%4g%") ≡ codes "A %4g%"
unfolding form_urldecode decode_char is_escape is_xdigit hex_to_char
decode_run = refl

-- A name without a `=` runs on to the next one.
pairs_run :
    parse_pairs (codes "a=1&b&c=2&d") ≡ (codes "a", codes "1") ∷ (codes "b&c", codes "2") ∷ []
unfolding parse_pairs cut starts_with form_urldecode decode_char
pairs_run = refl

cookies_run :
    parse_cookies (codes "a=1; b=2;c;\td=e=f")
    ≡ (codes "a", codes "1") ∷ (codes "b", codes "2") ∷ (codes "d", codes "e=f") ∷ []
unfolding parse_cookies parse_cookie skip_spaces is_space cut starts_with
cookies_run = refl

-- A field and a file.
multipart_run :
    cgicc [] []
      (codes "--X\r\nContent-Disposition: form-data; name=\"n\"\r\n\r\nv\r\n--X\r\n"
        ++ codes
            "Content-Disposition: form-data; name=\"f\"; filename=\"t.txt\"\r\n\r\ndata\r\n--X--\r\n")
      (codes "multipart/form-data; boundary=X")
    ≡ some (record {
      elements = (codes "n", codes "v") ∷ [];
      files = (codes "f", codes "data") ∷ [];
      cookies = [];
    })
unfolding cgicc parse_form_input parse_multipart parse_parts boundary_of parse_mime parse_header
    parse_cookies cut starts_with extract_between strings_are_equal compare_loop to_upper
    form_urldecode decode_char
multipart_run = refl

malformed_run :
    cgicc [] [] (codes "--X\r\nv\r\n--X--\r\n") (codes "multipart/form-data; boundary=X") ≡ none
unfolding cgicc parse_form_input parse_multipart parse_parts boundary_of parse_mime cut starts_with
    strings_are_equal compare_loop to_upper
malformed_run = refl

abbrev form : List (Bytes × Bytes)
form = (codes "a b", codes "1&2") ∷ (codes "c", []) ∷ []

abbrev jar : List (Bytes × Bytes)
jar = (codes "s", codes "x=y") ∷ (codes "t", []) ∷ []

form-ArePairBytes : All ArePairBytes form
form-ArePairBytes = (
  (
    (omega arith, (omega arith, (omega arith, tt))),
    (omega arith, (omega arith, (omega arith, tt))),
  ),
  (((omega arith, tt), tt), tt),
)

jar-IsCookie : All IsCookie jar
unfolding skip_spaces is_space
jar-IsCookie = (
  record {
    name_ends = (ground arith, tt);
    name_whole = (ground arith, tt);
    name_first = refl;
    value_whole = (ground arith, (ground arith, (ground arith, tt)));
  },
  (
    record {
      name_ends = (ground arith, tt);
      name_whole = (ground arith, tt);
      name_first = refl;
      value_whole = tt;
    },
    tt,
  ),
)

parse_cookies-encode_example : parse_cookies (encode_cookies jar) ≡ jar
parse_cookies-encode_example = parse_cookies-encode jar jar-IsCookie

cgicc-encode_example :
    cgicc (encode_form form) (encode_cookies jar) (encode_form form) []
    ≡ some (record { elements = form ++ form; files = []; cookies = jar })
cgicc-encode_example =
    cgicc-encode [] form form jar refl form-ArePairBytes form-ArePairBytes jar-IsCookie

-- Of a run of line breaks, two are kept: both kinds stand in it twice.
breaks_run : make_string 100 true (codes "a\r\n\r\nb") ≡ codes "a\n\nb"
unfolding make_string make_loop count_breaks
breaks_run = refl

-- More characters than the one that is asked for.
long_run : make_string 1 true (codes "\n\n\n") ≡ codes "\n\n\n"
unfolding make_string make_loop count_breaks
long_run = refl

bounded_run : get_integer_value 12 0 9 ≡ (9, true)
unfolding get_integer_value
bounded_run = refl

abbrev made : Cgicc
made = record {
  query_string = codes "a=1&B=on";
  cookie = codes "c=2";
  post_data = [];
  query_type = [];
  forms = record {
    form_data = (codes "a", codes "1") ∷ (codes "B", codes "on") ∷ [];
    form_files = [];
  };
  cookies = (codes "c", codes "2") ∷ [];
}

made_lem : new_cgicc (codes "a=1&B=on") (codes "c=2") [] [] ≡ some made
unfolding new_cgicc parse_forms parse_form_input strings_are_equal compare_loop to_upper parse_pairs
    cut starts_with form_urldecode decode_char parse_cookies parse_cookie skip_spaces is_space
made_lem = refl

-- The case of letters in a name does not matter.
checkbox_run : query_checkbox (codes "b") made ≡ true
unfolding query_checkbox find_if fe_name_compare same_strings compare_loop to_upper
checkbox_run = refl

copy-new_cgicc_example : copy made ≡ some (record made { cookies = [] })
copy-new_cgicc_example = copy-new_cgicc (codes "a=1&B=on") (codes "c=2") [] [] made made_lem

find_entries_lem_example :
    let found = find_entries (codes "b") true made in
    All (λ p. same_strings (codes "b") p.0 ≡ true) found.1
    × (get_element (codes "b") made ≡ first found.1)
    × (found.0 ≡ false → get_element (codes "b") made ≡ none)
find_entries_lem_example = find_entries_lem (codes "b") made

pub X-IsBoundary : IsBoundary (codes "X")
unfolding cut starts_with
X-IsBoundary = record { one_line = omega arith; distinct = refl }

abbrev pub first_part : Part
first_part = field (codes "n") (codes "v")

-- The value has a line break and dashes.
abbrev pub second_part : Part
second_part = field (codes "m") (codes "1\r\n--Y")

abbrev pub file_part : Part
file_part = upload (codes "f") (codes "a+b.txt") (codes "text/plain") (codes "data\r\n")

letter-IsName : (c : ℕ) → c ≢ 34 → c ≢ 61 → c ≢ 13 → IsName (c ∷ [])
letter-IsName c h k l = record { no_quote = (h, tt); no_equals = (k, tt); no_return = (l, tt) }

pub first_part-IsPart : IsPart (codes "X") first_part
unfolding cut starts_with
first_part-IsPart = record {
  is_head = letter-IsName 110 (ground arith) (ground arith) (ground arith);
  short = omega arith;
  apart = refl;
  closed = refl;
}

pub second_part-IsPart : IsPart (codes "X") second_part
unfolding cut starts_with
second_part-IsPart = record {
  is_head = letter-IsName 109 (ground arith) (ground arith) (ground arith);
  short = omega arith;
  apart = refl;
  closed = refl;
}

names-IsFile : IsFile (codes "a+b.txt") (codes "text/plain")
unfolding form_urldecode decode_char
names-IsFile = record {
  no_quote = omega arith;
  no_return = omega arith;
  not_empty = omega arith;
  type_line = omega arith;
}

pub file_part-IsPart : IsPart (codes "X") file_part
unfolding cut starts_with
file_part-IsPart = record {
  is_head = (letter-IsName 102 (ground arith) (ground arith) (ground arith), names-IsFile);
  short = omega arith;
  apart = refl;
  closed = refl;
}

cgicc-multipart_example :
    cgicc
      (encode_form form)
      (encode_cookies jar)
      (encode_multipart (codes "X") first_part (second_part ∷ file_part ∷ []))
      (type_of (codes "X"))
    ≡ some (record {
      elements = ((codes "n", codes "v") ∷ (codes "m", codes "1\r\n--Y") ∷ []) ++ form;
      files = (codes "f", codes "data\r\n") ∷ [];
      cookies = jar;
    })
cgicc-multipart_example =
    cgicc-multipart (codes "X") first_part (second_part ∷ file_part ∷ []) form jar X-IsBoundary
      (first_part-IsPart, (second_part-IsPart, (file_part-IsPart, tt))) form-ArePairBytes
      jar-IsCookie
