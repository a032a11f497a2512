-- ===== src/Tests/MucgiForms.antt =====
-- Requests that carry a form, given to mucgi in parts.
use fastcgi_async_or_corouti.Base.{
  ◌≡◌, ◌<◌, refl, true, false, some, Bytes, List, [], ◌∷◌, ◌++◌, concat, length, map, take, drop,
  arith,
}
use fastcgi_async_or_corouti.Protocol.{encode_record, encode_records}
use fastcgi_async_or_corouti.Protocol.Client.{read_output}
use fastcgi_async_or_corouti.Protocol.Stream.{read_pages}
use fastcgi_async_or_corouti.Cgicc.Forms.{cgicc}
use fastcgi_async_or_corouti.Cocgi.Codec.Request.{records}
use fastcgi_async_or_corouti.Cocgi.Params.RoundTrip.{encode_pairs, encode_pair, encode_len}
use fastcgi_async_or_corouti.Mucgi.Codec.{new_codec}
use fastcgi_async_or_corouti.Mucgi.Session.{Conn, on_connection, on_messages}
use fastcgi_async_or_corouti.Mucgi.Forms.{
  page, query_of, header_of, arguments_lem, form_messages_answered,
}
use fastcgi_async_or_corouti.Mucgi.Exchange.{
  Exchange, IsExchange, messages_of, arguments, page as page_of, requests_answered,
}
use fastcgi_async_or_corouti.Tests.Data.{reserved}
use fastcgi_async_or_corouti.Tests.Mucgi.{lower}
use fastcgi_async_or_corouti.Tests.Forms.{
  query, cookies, pairs, body, request, request-IsRequest, pairs-Carries, posted_lem,
}

-- The bytes of the request, cut behind the fifth and the twentieth.
abbrev parts : List Bytes
parts =
    take 5 (encode_records (records request))
    ∷ take 15 (drop 5 (encode_records (records request)))
    ∷ []

abbrev last_part : Bytes
last_part = drop 20 (encode_records (records request))

parts_whole : concat parts ++ last_part ≡ encode_records (records request)
unfolding encode_records encode_record encode_pairs encode_pair encode_len
parts_whole = refl

last_part-pos : 0 < length last_part
unfolding encode_records encode_record encode_pairs encode_pair encode_len
last_part-pos = omega arith

form_messages_answered_example :
    (k : Conn) × (on_messages cgicc lower (parts ++ (last_part ∷ [])) on_connection ≡ some k)
    × (k.calls ≡ (query_of lower body query, header_of lower pairs cookies) ∷ [])
    × (read_output (length k.sent) k.sent ≡ some (page lower pairs body query cookies))
    × (k.is_shut ≡ false)
    × (k.buf ≡ [])
    × (k.codec ≡ record new_codec { keep_conn = true })
form_messages_answered_example =
    form_messages_answered lower 1 reserved pairs request body query cookies parts last_part
      request-IsRequest pairs-Carries posted_lem parts_whole last_part-pos

abbrev exchange : Exchange
exchange = record {
  flags = 1;
  reserved = reserved;
  params = pairs;
  request = request;
  messages = parts;
  last = last_part;
  query = query_of lower body query;
  header = header_of lower pairs cookies;
}

exchange-IsExchange : IsExchange cgicc lower exchange
exchange-IsExchange = record {
  is_request = request-IsRequest;
  keeps = refl;
  whole = parts_whole;
  last_bytes = last_part-pos;
  answered = rw posted_lem (arguments_lem lower pairs body query cookies pairs-Carries);
}

abbrev twice : List Exchange
twice = exchange ∷ exchange ∷ []

requests_answered_example :
    (k : Conn) × (on_messages cgicc lower (messages_of twice) on_connection ≡ some k)
    × (k.calls ≡ map arguments twice)
    × (read_pages (length k.sent) k.sent ≡ some (map page_of twice))
    × (k.is_shut ≡ false)
    × (k.buf ≡ [])
requests_answered_example =
    requests_answered cgicc lower twice (exchange-IsExchange, (exchange-IsExchange, tt))
