-- ===== src/Cgicc/Forms/Carried.antt =====
-- A form in the body of a request, in either of its encodings, and what a request says of it.
use fastcgi_async_or_corouti.Base.{
  ◌≡◌, true, some, Bytes, ArePairBytes, last_of, List, [], ◌∷◌, ◌++◌, All, codes,
}
use fastcgi_async_or_corouti.Cgicc.Forms.{is_standard, cgicc}
use fastcgi_async_or_corouti.Cgicc.Forms.RoundTrip.{encode_form}
use fastcgi_async_or_corouti.Cgicc.Forms.Cookies.{IsCookie, encode_cookies}
use fastcgi_async_or_corouti.Cgicc.Forms.Multipart.Format.{Part, IsBoundary, IsPart}
use fastcgi_async_or_corouti.Cgicc.Forms.Multipart.Parts.{cgicc-multipart}
use fastcgi_async_or_corouti.Cgicc.Forms.Multipart.Format.{
  fields_in, files_in, encode_multipart, type_of,
}
use fastcgi_async_or_corouti.Cgicc.Forms.Whole.{cgicc-encode}

-- `urlencoded type fields`, or `multipart boundary first parts`.
pub data Body : Type 0 where
  urlencoded : Bytes → List (Bytes × Bytes) → Body
  multipart : Bytes → Part → List Part → Body

abbrev pub fields : Body → List (Bytes × Bytes)
fields (urlencoded type ps) = ps
fields (multipart boundary p ps) = fields_in (p ∷ ps)

abbrev pub uploads : Body → List (Bytes × Bytes)
uploads (urlencoded type ps) = []
uploads (multipart boundary p ps) = files_in (p ∷ ps)

abbrev pub bytes_of : Body → Bytes
bytes_of (urlencoded type ps) = encode_form ps
bytes_of (multipart boundary p ps) = encode_multipart boundary p ps

abbrev pub content_type : Body → Bytes
content_type (urlencoded type ps) = type
content_type (multipart boundary p ps) = type_of boundary

abbrev pub IsBody : Body → Type 0
IsBody (urlencoded type ps) = (is_standard type ≡ true) × All ArePairBytes ps
IsBody (multipart boundary p ps) = IsBoundary boundary × All (IsPart boundary) (p ∷ ps)

-- The parameters of a request with form data in its query string, this body, and cookies.
pub record Carries (ps : List (Bytes × Bytes)) (body : Body) (query cookies : List (Bytes × Bytes))
    : Type 0 where
  pub query_string : last_of (codes "QUERY_STRING") ps ≡ some (encode_form query)
  pub of_type : last_of (codes "CONTENT_TYPE") ps ≡ some (content_type body)
  pub http_cookie : last_of (codes "HTTP_COOKIE") ps ≡ some (encode_cookies cookies)
  pub is_body : IsBody body
  pub query_bytes : All ArePairBytes query
  pub are_cookies : All IsCookie cookies

pub cgicc-carried :
    (body : Body) (query cookies : List (Bytes × Bytes))
    → IsBody body
    → All ArePairBytes query
    → All IsCookie cookies
    → cgicc (encode_form query) (encode_cookies cookies) (bytes_of body) (content_type body)
      ≡ some (record { elements = fields body ++ query; files = uploads body; cookies = cookies })
cgicc-carried (urlencoded type ps) query cookies (e, hp) hq hc =
    cgicc-encode type query ps cookies e hq hp hc
cgicc-carried (multipart boundary p ps) query cookies (b, h) hq hc =
    cgicc-multipart boundary p ps query cookies b h hq hc
