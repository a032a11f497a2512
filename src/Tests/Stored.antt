-- ===== src/Tests/Stored.antt =====
-- The codec of cocgi/fastcgi.cpp over the class Buffer, two requests in one buffer, records of
-- unknown types, and answers read back, at concrete inputs.
use fastcgi_async_or_corouti.Base.{
  ◌≡◌, false, true, some, List, [], ◌∷◌, ◌++◌, replicate, codes, arith, assign_pairs, All,
}
use fastcgi_async_or_corouti.Protocol.{Record, IsRecord, encode_records}
use fastcgi_async_or_corouti.Cocgi.Codec.Foreign.{known, parse-known}
use fastcgi_async_or_corouti.Protocol.Client.{read_output}
use fastcgi_async_or_corouti.Buffer.{readable_bytes, peek}
use fastcgi_async_or_corouti.Buffer.AsQueue.{buffer_queue}
use fastcgi_async_or_corouti.Cocgi.Codec.{new_codec, parse_fcgi_package}
use fastcgi_async_or_corouti.Cocgi.Codec.Pieces.{with_buf, contents}
use fastcgi_async_or_corouti.Cocgi.Codec.Request.{records}
use fastcgi_async_or_corouti.Cocgi.Codec.Pipelined.{parse_two_requests}
use fastcgi_async_or_corouti.Cocgi.Respond.{
  respond, append_output, append_stdout, end_request, end_stdout,
}
use fastcgi_async_or_corouti.Cocgi.Header.{store_header}
use fastcgi_async_or_corouti.Endian.{hton16, hton32}
use fastcgi_async_or_corouti.Cocgi.Respond.Reading.{read_output-respond}
use fastcgi_async_or_corouti.Cocgi.Stored.{new_stored}
use fastcgi_async_or_corouti.Cocgi.Stored.Reads.{stored_feed, stored_request}
use fastcgi_async_or_corouti.Cocgi.Stored.Connection.{replies, stored_replies, stored_replies_lem}
use fastcgi_async_or_corouti.Cocgi.Server.Alone.{Poll}
use fastcgi_async_or_corouti.Cocgi.Session.{got, read_failed, wrote}
use fastcgi_async_or_corouti.Tests.Data.{
  pairs, reserved, request, request-IsRequest, new_codec-IsIdle, request_tail, request_bytes,
  one_element,
}

-- A poll without data, then a request in one read.
abbrev polled : List Poll
polled =
    record { read = read_failed; errno_again = true; writes = [] }
    ∷ record {
      read = got (encode_records (records request));
      errno_again = false;
      writes = replicate 110 (wrote 4096);
    }
    ∷ []

stored_replies_lem_example :
    stored_replies one_element buffer_queue polled (new_stored buffer_queue)
    ≡ replies one_element polled new_codec
stored_replies_lem_example = stored_replies_lem one_element buffer_queue polled

stored_request_example :
    let c = stored_feed buffer_queue (new_stored buffer_queue) ((1 ∷ []) ∷ request_tail ∷ []) in
    (c.got_request ≡ true)
    × (c.keep_conn ≡ true)
    × (c.params ≡ assign_pairs pairs [])
    × (peek (readable_bytes c.stdin) c.stdin ≡ contents request.stdin)
    × (readable_bytes c.buf ≡ 0)
    × (readable_bytes c.params_stream ≡ 0)
stored_request_example =
    stored_request buffer_queue 1 reserved pairs request (1 ∷ []) (request_tail ∷ [])
      request-IsRequest request_bytes

parse_two_requests_example :
    parse_fcgi_package
      (with_buf (encode_records (records request) ++ encode_records (records request)) new_codec)
    ≡ record {
      got_request = true;
      keep_conn = true;
      buf = [];
      stdin = contents request.stdin ++ contents request.stdin;
      params_stream = [];
      params = assign_pairs pairs (assign_pairs pairs []);
    }
parse_two_requests_example =
    parse_two_requests 1 1 reserved reserved pairs pairs request request new_codec request-IsRequest
      request-IsRequest new_codec-IsIdle

read_output-respond_example : read_output 100 (respond (codes "hi") []) ≡ some (codes "hi")
unfolding respond append_output append_stdout end_request end_stdout store_header hton16 hton32
read_output-respond_example = read_output-respond (codes "hi") 100 (omega arith)

-- A record of an unknown type between those of the request.
abbrev mixed : List Record
mixed =
    request.begin
    ∷ record { type = 9; id = 0; content = 1 ∷ []; padding = [] }
    ∷ (request.params ++ (request.params_last ∷ []))

mixed-IsRecord : All IsRecord mixed
mixed-IsRecord = (
  request-IsRequest.begin_valid,
  (
    ground arith,
    (request-IsRequest.params_pieces.0.valid, (request-IsRequest.params_end.valid, tt)),
  ),
)

parse-known_example :
    parse_fcgi_package (with_buf (encode_records mixed) new_codec)
    ≡ parse_fcgi_package (with_buf (encode_records (known mixed)) new_codec)
parse-known_example = parse-known mixed new_codec (mixed-IsRecord)
