-- ===== src/Cgicc/Forms/Whole.antt =====
-- The constructor on a form that a client encodes.
use fastcgi_async_or_corouti.Base.{
  ArePairBytes, ◌≡◌, refl, sym, ap, ◌∙◌, true, some, Bytes, List, [], ◌∷◌, ◌++◌, append-nil, All,
  arith,
}
use fastcgi_async_or_corouti.Cgicc.Forms.{
  Forms, pairs_loop, parse_pairs, standard_type, is_standard, parse_form_input, parse_cookies,
  cgicc,
}
use fastcgi_async_or_corouti.Cgicc.Strings.{strings_are_equal, compare_loop, to_upper}
use fastcgi_async_or_corouti.Cgicc.Forms.RoundTrip.{encode_form, parse_pairs-encode_form}
use fastcgi_async_or_corouti.Cgicc.Forms.Cookies.{IsCookie, encode_cookies, parse_cookies-encode}

pub parse_form_input-standard :
    (bytes type : Bytes) (forms : Forms)
    → is_standard type ≡ true
    → parse_form_input bytes type forms
      ≡ some (record forms { form_data = forms.form_data ++ parse_pairs bytes })
unfolding parse_form_input parse_pairs pairs_loop
parse_form_input-standard [] type forms e =
    ap (λ l. some (record forms { form_data = l })) (sym (append-nil forms.form_data))
parse_form_input-standard (b ∷ bs) type forms e = ground arith

pub standard_lem : is_standard standard_type ≡ true
unfolding strings_are_equal compare_loop to_upper
standard_lem = refl

pub cgicc-parsed :
    (query cookie posted type : Bytes) (a b : Forms)
    → parse_form_input posted type (record { form_data = []; form_files = [] }) ≡ some a
    → parse_form_input query standard_type a ≡ some b
    → cgicc query cookie posted type
      ≡ some
          (record { elements = b.form_data; files = b.form_files; cookies = parse_cookies cookie })
unfolding cgicc
cgicc-parsed query cookie posted type a b e f = ground arith

-- A request with form data in its query string and in its body, whose content type is empty or begins
-- with application/x-www-form-urlencoded in letters of any case, and with cookies, gives the pairs of
-- the body, then those of the query string, no files, and the cookies.
pub cgicc-encode :
    (type : Bytes) (query posted cookies : List (Bytes × Bytes))
    → is_standard type ≡ true
    → All ArePairBytes query
    → All ArePairBytes posted
    → All IsCookie cookies
    → cgicc (encode_form query) (encode_cookies cookies) (encode_form posted) type
      ≡ some (record { elements = posted ++ query; files = []; cookies = cookies })
cgicc-encode type query posted cookies e hq hp hc =
    let first : Forms = record { form_data = parse_pairs (encode_form posted); form_files = [] } in
    cgicc-parsed (encode_form query) (encode_cookies cookies) (encode_form posted) type first
      (record first { form_data = first.form_data ++ parse_pairs (encode_form query) })
      (parse_form_input-standard (encode_form posted) type _ e)
      (parse_form_input-standard (encode_form query) standard_type first standard_lem)
    ∙ rw
        (
          parse_pairs-encode_form posted hp,
          parse_pairs-encode_form query hq,
          parse_cookies-encode cookies hc,
        )
        refl
