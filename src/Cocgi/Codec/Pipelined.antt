-- ===== src/Cocgi/Codec/Pipelined.antt =====
-- Two requests that are in the buffer together.
use fastcgi_async_or_corouti.Base.{
  ℕ, ◌≡◌, ◌∙◌, refl, sym, ap, append-nil, true, Bytes, List, [], ◌++◌, assign_pairs, ◌==◌,
}
use fastcgi_async_or_corouti.Protocol.{encode_records, encode_records-append}
use fastcgi_async_or_corouti.Cocgi.Kind
use fastcgi_async_or_corouti.Cocgi.Codec.{Codec, parse_fcgi_package}
use fastcgi_async_or_corouti.Cocgi.Codec.Pieces.{with_buf, contents}
use fastcgi_async_or_corouti.Cocgi.Codec.Request.{
  Request, IsRequest, records, IsIdle, behind, parse-encode_request, parse_nothing,
}

-- Two requests that are in the buffer of an idle codec together are received as one, whatever request
-- ids their records carry: the pairs of the second are assigned over those of the first, its posted
-- data is put behind that of the first, its flags byte decides on the connection, and one request is
-- pending.
pub parse_two_requests :
    (flags flags' : ℕ) (reserved reserved' : Bytes) (ps ps' : List (Bytes × Bytes)) (q q' : Request)
    (c : Codec)
    → IsRequest flags reserved ps q
    → IsRequest flags' reserved' ps' q'
    → IsIdle c
    → parse_fcgi_package (with_buf (encode_records (records q) ++ encode_records (records q')) c)
      ≡ record {
        got_request = true;
        keep_conn = flags' == Kind.keep_conn;
        buf = [];
        stdin = contents q.stdin ++ contents q'.stdin;
        params_stream = [];
        params = assign_pairs ps' (assign_pairs ps []);
      }
unfolding encode_records
parse_two_requests flags flags' reserved reserved' ps ps' q q' c h h' idle =
    let c1 = behind flags ps (contents q.stdin) c in
    ap (λ l. parse_fcgi_package (with_buf l c))
      (sym (encode_records-append (records q) (records q')))
    ∙ parse-encode_request flags reserved ps q (records q') c h idle.no_params_stream
    ∙ ap (λ l. parse_fcgi_package (with_buf (encode_records l) c1)) (sym (append-nil (records q')))
    ∙ parse-encode_request flags' reserved' ps' q' [] c1 h' refl
    ∙ parse_nothing (behind flags' ps' (contents q'.stdin) c1)
    ∙ rw (idle.no_stdin, idle.no_params)
