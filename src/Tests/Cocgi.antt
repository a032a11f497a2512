-- ===== src/Tests/Cocgi.antt =====
-- Runs of the models of cocgi/fastcgi.cpp, and the theorems about it at concrete inputs.
use fastcgi_async_or_corouti.Base.{
  ◌≡◌, ◌⊎◌, ◌-◌, ◌<◌, ◌^◌, length, refl, true, false, some, Bytes, List, [], ◌∷◌, ◌++◌, All, concat,
  take, drop, take-append-drop, replicate, codes, bytes_eq, assign, assign_pairs, at_key, ParamMap,
  arith,
}
use fastcgi_async_or_corouti.Endian.{hton16}
use fastcgi_async_or_corouti.Protocol.{Record, encode_record, encode_records}
use fastcgi_async_or_corouti.Cocgi.Header.{store_header, load_header}
use fastcgi_async_or_corouti.Cocgi.Params.{read_len, parse_round, parse_all_params}
use fastcgi_async_or_corouti.Cocgi.Params.Loop.{read_len_cases}
use fastcgi_async_or_corouti.Cocgi.Params.RoundTrip.{encode_pairs, parse_all_params-encode_pairs}
use fastcgi_async_or_corouti.Cocgi.Codec.{
  new_codec, on_begin_request, on_params, on_stdin, dispatch, parse_step, parse_fcgi_package,
}
use fastcgi_async_or_corouti.Cocgi.Codec.Streaming.{fill, feed, feed-concat}
use fastcgi_async_or_corouti.Cocgi.Codec.Pieces.{with_buf, contents}
use fastcgi_async_or_corouti.Cocgi.Codec.Request.{
  records, received, parse-encode_records, feed-encode_records,
}
use fastcgi_async_or_corouti.Cocgi.Codec.Framing.{IsWire, all_handled, parse_records}
use fastcgi_async_or_corouti.Cocgi.Codec.Prefix.{parse_prefix}
use fastcgi_async_or_corouti.Cocgi.Respond.{
  respond, append_output, append_stdout, end_request, end_stdout,
}
use fastcgi_async_or_corouti.Cocgi.Respond.Framing.{IsOutput, trailer}
use fastcgi_async_or_corouti.Cocgi.Respond.Output.{respond_lem}
use fastcgi_async_or_corouti.Cocgi.Backend.{print_request}
use fastcgi_async_or_corouti.Cocgi.Session.{
  err_ok, err_socket_read, err_socket_eagain, wrote, write_failed, got, read_failed, returns,
  write_loop, backend_arguments, query_map, header_map, build_response, no_request, read_data,
}
use fastcgi_async_or_corouti.Cocgi.Session.Writes.{Sent, write_loop-Sent}
use fastcgi_async_or_corouti.Cocgi.Session.Reads.{
  ready, read_data_partial, read_data_whole, read_data_keeps,
}
use fastcgi_async_or_corouti.Tests.Data.{
  pairs, reserved, request, request-IsRequest, new_codec-IsIdle, request_tail, request_bytes,
  one_element,
}

-- The parser run on the bytes of a request.
parse_run :
    parse_fcgi_package (with_buf (encode_records (records request)) new_codec)
    ≡ received 1 pairs (codes "b=2")
unfolding parse_fcgi_package parse_step load_header hton16 dispatch on_begin_request on_params
    on_stdin parse_all_params parse_round read_len encode_records encode_record assign assign_pairs
    bytes_eq
parse_run = refl

parse_all_params-encode_pairs_example :
    parse_all_params (record { stream = encode_pairs pairs; params = [] })
    ≡ (true, record { stream = []; params = assign_pairs pairs [] })
parse_all_params-encode_pairs_example = parse_all_params-encode_pairs pairs [] (omega arith)

abbrev first_part : Bytes
first_part = 1 ∷ 1 ∷ 0 ∷ []

abbrev second_part : Bytes
second_part = 1 ∷ 0 ∷ 0 ∷ []

feed-concat_example :
    feed new_codec (first_part ∷ second_part ∷ [])
    ≡ parse_fcgi_package (fill (first_part ++ concat (second_part ∷ [])) new_codec)
feed-concat_example = feed-concat new_codec first_part (second_part ∷ [])

-- A whole request with a record of an unknown type in front, and the first bytes of another.
abbrev framed : List Record
framed = record { type = 9; id = 2; content = codes "?"; padding = 0 ∷ [] } ∷ records request

framed-IsWire : All IsWire framed
framed-IsWire = omega arith

parse_records_example :
    parse_fcgi_package
      (with_buf (encode_records framed ++ take 5 (encode_record request.begin)) new_codec)
    ≡ with_buf (take 5 (encode_record request.begin)) (all_handled framed new_codec)
parse_records_example =
    parse_records framed request.begin (take 5 (encode_record request.begin))
      (drop 5 (encode_record request.begin)) new_codec framed-IsWire request-IsRequest.begin_valid
      (take-append-drop 5 (encode_record request.begin)) (unfold encode_record in omega arith)

parse-encode_records_example :
    parse_fcgi_package (with_buf (encode_records (records request)) new_codec)
    ≡ received 1 pairs (contents request.stdin)
parse-encode_records_example =
    parse-encode_records 1 reserved pairs request new_codec request-IsRequest new_codec-IsIdle

feed-encode_records_example :
    feed new_codec ((1 ∷ []) ∷ request_tail ∷ []) ≡ received 1 pairs (contents request.stdin)
feed-encode_records_example =
    feed-encode_records 1 reserved pairs request new_codec (1 ∷ []) (request_tail ∷ [])
      request-IsRequest new_codec-IsIdle refl request_bytes

parse_prefix_example : (parse_fcgi_package (with_buf (1 ∷ []) new_codec)).got_request ≡ false
parse_prefix_example =
    parse_prefix 1 reserved pairs request new_codec (1 ∷ []) request_tail request-IsRequest
      request_bytes (omega arith)

abbrev answer : Bytes
answer = respond (print_request [] []).0 []

read_data_partial_example :
    read_data one_element (got (1 ∷ [])) false [] new_codec
    ≡ no_request one_element err_socket_read (parse_fcgi_package (with_buf (1 ∷ []) new_codec))
read_data_partial_example =
    read_data_partial one_element 1 reserved pairs request (1 ∷ []) request_tail false []
      request-IsRequest request_bytes (omega arith) (omega arith)

-- What the back end prints.
abbrev called : List (ParamMap × ParamMap)
called =
    (
      (codes "a", codes "a=1") ∷ [],
      (codes "QUERY_STRING", codes "a=1")
          ∷ (codes "X", [])
          ∷ (codes "CONTENT_TYPE", [])
          ∷ (codes "HTTP_COOKIE", [])
          ∷ [],
    )
    ∷ []

answer_lem :
    (build_response one_element (received 1 pairs (contents request.stdin))).0
    ≡ some (answer, called)
unfolding build_response print_request backend_arguments query_map header_map assign_pairs assign
    bytes_eq at_key
answer_lem = refl

read_data_whole_example :
    read_data one_element
      (got (encode_records (records request)))
      false
      (replicate 110 (wrote 4096))
      new_codec
    ≡ returns
        (record { code = err_ok; sent = answer; calls = called; codec = ready one_element true })
unfolding respond append_output append_stdout end_request end_stdout store_header print_request
read_data_whole_example =
    read_data_whole one_element 1 reserved pairs request new_codec false
      (replicate 110 (wrote 4096)) answer called request-IsRequest new_codec-IsIdle refl answer_lem
      (omega arith) (omega arith)

read_data_keeps_example :
    (new_codec.got_request ≡ false) × (err_socket_eagain ≡ err_ok → new_codec.keep_conn ≡ true)
unfolding read_data
read_data_keeps_example =
    read_data_keeps one_element read_failed true [] new_codec
      (record { code = err_socket_eagain; sent = []; calls = []; codec = new_codec }) refl refl

respond_lem_example :
    (rs : List Record) × (respond (codes "hi") [] ≡ encode_records (rs ++ trailer))
    × All IsOutput rs
    × (contents rs ≡ codes "hi")
respond_lem_example = respond_lem (codes "hi") []

write_loop-Sent_example :
    Sent (codes "abc") [] (write_loop (codes "abc") (wrote 2 ∷ write_failed true ∷ []) [])
write_loop-Sent_example = write_loop-Sent (codes "abc") (wrote 2 ∷ write_failed true ∷ []) []

read_len_cases_example :
    ((read_len (5 ∷ [])).0 ≡ 2 ^ 32 - 1) × ((read_len (5 ∷ [])).1 ≡ 5 ∷ [])
    ⊎ ((read_len (5 ∷ [])).0 < 2 ^ 31) × (length (read_len (5 ∷ [])).1 < 1)
read_len_cases_example = read_len_cases (5 ∷ [])
