-- ===== src/Tests/Forms.antt =====
-- A request that carries a form, given to cocgi with the CGI library of the tree.
use fastcgi_async_or_corouti.Base.{
  ◌≡◌, refl, true, false, some, Bytes, List, [], ◌∷◌, length, replicate, codes, arith, last_of,
  bytes_eq,
}
use fastcgi_async_or_corouti.Protocol.{encode_records}
use fastcgi_async_or_corouti.Protocol.Client.{read_output}
use fastcgi_async_or_corouti.Cgicc.Strings.{strings_are_equal, compare_loop, to_upper, is_space}
use fastcgi_async_or_corouti.Cgicc.Url.{form_urlencode, encode_char, is_unreserved}
use fastcgi_async_or_corouti.Cgicc.Forms.{cgicc, skip_spaces}
use fastcgi_async_or_corouti.Cgicc.Forms.RoundTrip.{encode_form}
use fastcgi_async_or_corouti.Cgicc.Forms.Cookies.{encode_cookies}
use fastcgi_async_or_corouti.Cocgi.Header.{store_header}
use fastcgi_async_or_corouti.Cocgi.Backend.{print_request}
use fastcgi_async_or_corouti.Cocgi.Codec.{new_codec}
use fastcgi_async_or_corouti.Cocgi.Codec.Pieces.{begin_body, contents}
use fastcgi_async_or_corouti.Cocgi.Codec.Request.{Request, IsRequest, records}
use fastcgi_async_or_corouti.Cocgi.Params.RoundTrip.{encode_pairs, encode_pair, encode_len}
use fastcgi_async_or_corouti.Cocgi.Respond.{
  respond, append_output, append_stdout, end_request, end_stdout,
}
use fastcgi_async_or_corouti.Cocgi.Session.{err_ok, wrote, got, returns, read_data}
use fastcgi_async_or_corouti.Cocgi.Session.Reads.{ready}
use fastcgi_async_or_corouti.Cocgi.Session.Forms.{query_of, header_of, page, form_request_answered}
use fastcgi_async_or_corouti.Cgicc.Forms.Carried.{Body, multipart, bytes_of, Carries}
use fastcgi_async_or_corouti.Cgicc.Forms.Multipart.Format.{encode_multipart, encode_parts}
use fastcgi_async_or_corouti.Tests.Cgicc.{
  first_part, second_part, file_part, X-IsBoundary, first_part-IsPart, second_part-IsPart,
  file_part-IsPart,
}
use fastcgi_async_or_corouti.Tests.Data.{reserved}

abbrev pub query : List (Bytes × Bytes)
query = (codes "a", codes "1") ∷ []

abbrev pub cookies : List (Bytes × Bytes)
cookies = (codes "c", codes "4") ∷ []

abbrev pub pairs : List (Bytes × Bytes)
pairs =
    (codes "QUERY_STRING", codes "a=1")
    ∷ (codes "CONTENT_TYPE", codes "multipart/form-data; boundary=X")
    ∷ (codes "HTTP_COOKIE", codes "c=4")
    ∷ []

abbrev pub request : Request
request = record {
  begin = record { type = 1; id = 1; content = begin_body 1 1 reserved; padding = [] };
  params = record { type = 4; id = 1; content = encode_pairs pairs; padding = [] } ∷ [];
  params_last = record { type = 4; id = 1; content = []; padding = [] };
  stdin =
      record {
        type = 5;
        id = 1;
        content = encode_multipart (codes "X") first_part (second_part ∷ file_part ∷ []);
        padding = replicate 3 0;
      }
      ∷ [];
  stdin_last = record { type = 5; id = 1; content = []; padding = [] };
}

pub request-IsRequest : IsRequest 1 reserved pairs request
unfolding contents encode_pairs encode_pair encode_len encode_parts
request-IsRequest = record {
  begin_valid = omega arith;
  begin_type = refl;
  begin_content = refl;
  begin_long = omega arith;
  params_pieces = (record { valid = omega arith; of_type = refl; has_bytes = omega arith }, tt);
  params_content = refl;
  params_short = omega arith;
  params_end = record { valid = omega arith; of_type = refl; no_bytes = refl };
  stdin_pieces = (record { valid = omega arith; of_type = refl; has_bytes = omega arith }, tt);
  stdin_end = record { valid = omega arith; of_type = refl; no_bytes = refl };
}

-- Two fields and a file.
abbrev pub body : Body
body = multipart (codes "X") first_part (second_part ∷ file_part ∷ [])

pub pairs-Carries : Carries pairs body query cookies
unfolding last_of bytes_eq encode_form encode_cookies form_urlencode encode_char is_unreserved
    strings_are_equal compare_loop to_upper skip_spaces is_space
pairs-Carries = record {
  query_string = refl;
  of_type = refl;
  http_cookie = refl;
  is_body = (X-IsBoundary, (first_part-IsPart, (second_part-IsPart, (file_part-IsPart, tt))));
  query_bytes = omega arith;
  are_cookies = (
    record {
      name_ends = (ground arith, tt);
      name_whole = (ground arith, tt);
      name_first = refl;
      value_whole = (ground arith, tt);
    },
    tt,
  );
}

pub posted_lem : contents request.stdin ≡ bytes_of body
unfolding contents encode_parts
posted_lem = refl

form_request_answered_example :
    (sent : Bytes) × (read_data cgicc
        (got (encode_records (records request)))
        false
        (replicate 130 (wrote 4096))
        new_codec
      ≡ returns (record {
        code = err_ok;
        sent = sent;
        calls = (query_of body query, header_of pairs cookies) ∷ [];
        codec = ready cgicc true;
      }))
    × (read_output (length sent) sent ≡ some (page pairs body query cookies))
unfolding respond append_output append_stdout end_request end_stdout store_header print_request
form_request_answered_example =
    form_request_answered 1 reserved pairs request body query cookies false
      (replicate 130 (wrote 4096)) request-IsRequest pairs-Carries posted_lem (omega arith)
      (omega arith)
