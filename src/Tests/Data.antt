-- ===== src/Tests/Data.antt =====
-- A request in bytes and in records, and a CGI library, for the tests.
use fastcgi_async_or_corouti.Base.{
  ◌≡◌, refl, some, Bytes, List, [], ◌∷◌, ◌++◌, replicate, codes, arith,
}
use fastcgi_async_or_corouti.Protocol.{encode_record, encode_records}
use fastcgi_async_or_corouti.Cgi.{CgiParser}
use fastcgi_async_or_corouti.Cocgi.Params.RoundTrip.{encode_len, encode_pair, encode_pairs}
use fastcgi_async_or_corouti.Cocgi.Codec.{new_codec}
use fastcgi_async_or_corouti.Cocgi.Codec.Pieces.{begin_body, contents}
use fastcgi_async_or_corouti.Cocgi.Codec.Request.{Request, IsRequest, records, IsIdle}

abbrev pub pairs : List (Bytes × Bytes)
pairs = (codes "QUERY_STRING", codes "a=1") ∷ (codes "X", []) ∷ []

abbrev pair_bytes : Bytes
pair_bytes = 12 ∷ 3 ∷ (codes "QUERY_STRINGa=1" ++ (1 ∷ 0 ∷ codes "X"))

pairs_encoded : pair_bytes ≡ encode_pairs pairs
unfolding encode_pairs encode_pair encode_len
pairs_encoded = refl

abbrev pub reserved : Bytes
reserved = replicate 5 0

abbrev pub request : Request
request = record {
  begin = record { type = 1; id = 1; content = begin_body 1 1 reserved; padding = [] };
  params = record { type = 4; id = 1; content = pair_bytes; padding = 0 ∷ [] } ∷ [];
  params_last = record { type = 4; id = 1; content = []; padding = [] };
  stdin = record { type = 5; id = 1; content = codes "b=2"; padding = replicate 5 0 } ∷ [];
  stdin_last = record { type = 5; id = 1; content = []; padding = [] };
}

pub request-IsRequest : IsRequest 1 reserved pairs request
unfolding contents
request-IsRequest = record {
  begin_valid = omega arith;
  begin_type = refl;
  begin_content = refl;
  begin_long = omega arith;
  params_pieces = (record { valid = omega arith; of_type = refl; has_bytes = omega arith }, tt);
  params_content = pairs_encoded;
  params_short = omega arith;
  params_end = record { valid = omega arith; of_type = refl; no_bytes = refl };
  stdin_pieces = (record { valid = omega arith; of_type = refl; has_bytes = omega arith }, tt);
  stdin_end = record { valid = omega arith; of_type = refl; no_bytes = refl };
}

pub new_codec-IsIdle : IsIdle new_codec
new_codec-IsIdle = record { no_stdin = refl; no_params_stream = refl; no_params = refl }

-- The bytes of the request, and its first byte apart from the others.
abbrev pub request_tail : Bytes
request_tail =
    1
    ∷ 0
    ∷ 1
    ∷ 0
    ∷ 8
    ∷ 0
    ∷ 0
    ∷ (begin_body 1 1 reserved
        ++ (1
            ∷ 4
            ∷ 0
            ∷ 1
            ∷ 0
            ∷ 20
            ∷ 1
            ∷ 0
            ∷ (pair_bytes
                ++ (0
                    ∷ 1
                    ∷ 4
                    ∷ 0
                    ∷ 1
                    ∷ 0
                    ∷ 0
                    ∷ 0
                    ∷ 0
                    ∷ 1
                    ∷ 5
                    ∷ 0
                    ∷ 1
                    ∷ 0
                    ∷ 3
                    ∷ 5
                    ∷ 0
                    ∷ (codes "b=2" ++ (replicate 5 0 ++ (1 ∷ 5 ∷ 0 ∷ 1 ∷ 0 ∷ 0 ∷ 0 ∷ 0 ∷ [])))))))

pub request_bytes : (1 ∷ []) ++ request_tail ≡ encode_records (records request)
unfolding encode_records encode_record
request_bytes = refl

-- A parser that finds one element in any query, and none elsewhere.
abbrev pub one_element : CgiParser
one_element query cookie posted type =
    some (record { elements = (codes "a", query) ∷ []; files = []; cookies = [] })
