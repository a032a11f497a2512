-- ===== src/Tests/Mucgi.antt =====
-- Runs of the models of mucgi, and the theorems about them at concrete inputs.
use fastcgi_async_or_corouti.Base.{
  ◌+◌, ◌≡◌, refl, true, false, some, Bytes, [], ◌∷◌, map, codes, leb, if◌then◌else◌, bytes_eq,
  assign_pairs, assign, insert_pairs, insert, at_key, ParamMap, lookup, last_of, arith,
}
use fastcgi_async_or_corouti.Tests.Data.{
  pairs, reserved, request, request-IsRequest, request_tail, request_bytes, one_element,
}
use fastcgi_async_or_corouti.Cgi.{CgiData}
use fastcgi_async_or_corouti.Cocgi.Codec.{parse_fcgi_package}
use fastcgi_async_or_corouti.Cocgi.Codec.Pieces.{contents}
use fastcgi_async_or_corouti.Cocgi.Respond.{respond as co_respond}
use fastcgi_async_or_corouti.Cocgi.Session.{query_map as co_query_map, header_map as co_header_map}
use fastcgi_async_or_corouti.Cocgi.Session.Maps.{request_maps}
use fastcgi_async_or_corouti.Mucgi.Codec.{new_codec, parse_request}
use fastcgi_async_or_corouti.Mucgi.Respond.{respond}
use fastcgi_async_or_corouti.Mucgi.Backend.{print_request}
use fastcgi_async_or_corouti.Mucgi.Session.{
  Conn, on_connection, backend_arguments, query_map, header_map, on_message, on_messages,
}
use fastcgi_async_or_corouti.Mucgi.Agreement.{as_cocgi, parse_request-agrees, respond-agrees}
use fastcgi_async_or_corouti.Mucgi.Setup.{main}
use fastcgi_async_or_corouti.Mucgi.Maps.{first_value_maps}
use fastcgi_async_or_corouti.Mucgi.Messages.{on_connection-IsReady, on_messages-request}

-- The letters A to Z in lower case.
abbrev pub lower : Bytes → Bytes
lower = map (λ c. if leb 65 c then (if leb c 90 then c + 32 else c) else c)

parse_request-agrees_example :
    parse_fcgi_package (as_cocgi request_tail new_codec)
    ≡ as_cocgi (parse_request request_tail new_codec).0 (parse_request request_tail new_codec).1
parse_request-agrees_example = parse_request-agrees request_tail new_codec

respond-agrees_example : respond (codes "hi") [] ≡ co_respond (codes "hi") []
respond-agrees_example = respond-agrees (codes "hi") []

abbrev qmap : ParamMap
qmap = (codes "a", codes "a=1") ∷ []

abbrev header : ParamMap
header =
    (codes "QUERY_STRING", codes "a=1")
    ∷ (codes "X", [])
    ∷ (codes "CONTENT_TYPE", [])
    ∷ (codes "HTTP_COOKIE", [])
    ∷ []

accepted :
    backend_arguments one_element lower (assign_pairs pairs []) (contents request.stdin)
    ≡ some (qmap, header)
unfolding backend_arguments query_map header_map assign_pairs assign insert_pairs insert bytes_eq
    at_key
accepted = refl

on_messages-request_example :
    (k : Conn) × (on_messages one_element lower ((1 ∷ []) ∷ []) on_connection ≡ some k)
    × (k.sent ≡ [])
    × (k.calls ≡ [])
    × (k.is_shut ≡ false)
    × (on_message one_element lower request_tail k
        ≡ some (record {
          buf = [];
          codec = record new_codec { keep_conn = true };
          sent = respond (print_request qmap header).0 [];
          calls = (qmap, header) ∷ [];
          is_shut = false;
        }))
on_messages-request_example =
    on_messages-request one_element lower 1 reserved pairs request request-IsRequest on_connection
      on_connection-IsReady ((1 ∷ []) ∷ []) request_tail qmap header request_bytes (omega arith)
      accepted

-- One name twice, in letters of both cases, and as a cookie.
abbrev cgi_data : CgiData
cgi_data = record {
  elements = (codes "A", codes "1") ∷ (codes "a", codes "2") ∷ [];
  files = [];
  cookies = (codes "a", codes "3") ∷ [];
}

first_value_maps_example :
    (lookup (codes "a") (query_map lower cgi_data) ≡ some (codes "1"))
    × (lookup (codes "a") (header_map cgi_data ((codes "a", codes "0") ∷ [])) ≡ some (codes "3"))
unfolding lookup last_of bytes_eq
first_value_maps_example = first_value_maps lower (codes "a") cgi_data ((codes "a", codes "0") ∷ [])

request_maps_example :
    (lookup (codes "a") (co_query_map cgi_data) ≡ some (codes "2"))
    × (lookup (codes "a") (co_header_map cgi_data ((codes "a", codes "0") ∷ [])) ≡ some (codes "3"))
unfolding lookup last_of bytes_eq
request_maps_example = request_maps (codes "a") cgi_data ((codes "a", codes "0") ∷ [])

-- A port is cut to 16 bits.
setup_run :
    main (λ s. 65616) (codes "mucgi" ∷ codes "65616" ∷ []) ≡ record { port = 80; threads = 0 }
unfolding main
setup_run = refl
