-- ===== src/Cocgi/Codec/Prefix.antt =====
-- What `parseFcgiPackage` makes of a request whose last bytes have not arrived.
use fastcgi_async_or_corouti.Base.{
  ℕ, ◌<◌, ◌≡◌, ◌≢◌, ◌⊎◌, inl, inr, sym, ◌∙◌, ap, false, Bytes, List, [], ◌∷◌, ◌++◌, append_assoc,
  append_split, length, drop, length-append, All, All-append, arith,
}
use native.Mathlib.Decide.{dec_lt}
use fastcgi_async_or_corouti.Protocol.{
  Record, IsRecord, encode_record, encode_records, length-encode_record,
}
use fastcgi_async_or_corouti.Cocgi.Kind
use fastcgi_async_or_corouti.Cocgi.Header.{load_header}
use fastcgi_async_or_corouti.Cocgi.Codec.{
  Codec, on_begin_request, on_params, on_stdin, dispatch, parse_step, parse_fcgi_package,
}
use fastcgi_async_or_corouti.Cocgi.Codec.Streaming.{load_header-append, parse-done}
use fastcgi_async_or_corouti.Cocgi.Codec.Pieces.{
  with_buf, header_of, load_header-encode_record, parse-encode_record, IsPiece,
}
use fastcgi_async_or_corouti.Cocgi.Codec.Request.{Request, IsRequest, records}

-- A record that has not arrived whole is left alone.
pub stops_short :
    (r : Record) (rest front back : Bytes) (c : Codec)
    → IsRecord r
    → front ++ back ≡ encode_record r ++ rest
    → length front < length (encode_record r)
    → (parse_step (with_buf front c)).0 ≡ false
unfolding parse_step
stops_short r rest front back c valid e short = ground (
  arith,
  load_header-append front back,
  load_header-encode_record r rest valid,
  ap load_header e,
  length-encode_record r,
)

-- A valid record other than the end of the posted data.
pub record IsQuiet (r : Record) : Type 0 where
  pub valid : IsRecord r
  pub no_end : (r.type ≢ Kind.stdin) ⊎ (0 < length r.content)

dispatch-quiet :
    (r : Record) (c : Codec) → IsQuiet r → (dispatch (header_of r) c).got_request ≡ c.got_request
unfolding dispatch on_begin_request on_params on_stdin
dispatch-quiet r c q = ground arith

prefix_waits :
    (rs : List Record) (last : Record) (front back : Bytes) (c : Codec)
    → All IsQuiet rs
    → IsRecord last
    → front ++ back ≡ encode_records (rs ++ (last ∷ []))
    → 0 < length back
    → (parse_fcgi_package (with_buf front c)).got_request ≡ c.got_request
unfolding encode_records
prefix_waits [] last front back c quiet valid e more =
    let stop = stops_short last [] front back c valid e (
      omega
        (arith, ap length e, length-append front back, length-append (encode_record last) [])) in
    ap (λ d. d.got_request) (parse-done (with_buf front c) stop)
prefix_waits (r ∷ rs) last front back c (q, quiet) valid e more =
    elim (dec_lt (length front) (length (encode_record r))) [
      | yes short ↦
          ap (λ d. d.got_request)
            (parse-done (with_buf front c) (stops_short r _ front back c q.valid e short))
      | no long ↦
          let split = append_split (encode_record r) _ front back e (omega arith) in
          let tail = drop (length (encode_record r)) front in
          let handled = dispatch (header_of r) (with_buf (encode_record r ++ tail) c) in
          ap (λ t. (parse_fcgi_package (with_buf t c)).got_request) split.0
          ∙ ap (λ d. d.got_request) (parse-encode_record r tail c q.valid)
          ∙ prefix_waits rs last tail back handled quiet valid split.1 more
          ∙ dispatch-quiet r (with_buf (encode_record r ++ tail) c) q
    ]

pieces-IsQuiet : (type : ℕ) (rs : List Record) → All (IsPiece type) rs → All IsQuiet rs
pieces-IsQuiet type [] h = tt
pieces-IsQuiet type (r ∷ rs) (hr, hrs) =
    (record { valid = hr.valid; no_end = inr hr.has_bytes }, pieces-IsQuiet type rs hrs)

-- All records of a request but its last.
front_records : Request → List Record
front_records q = q.begin ∷ (q.params ++ (q.params_last ∷ q.stdin))

front_records-last : (q : Request) → records q ≡ front_records q ++ (q.stdin_last ∷ [])
unfolding front_records
front_records-last q =
    ap (λ t. q.begin ∷ t)
      (sym (append_assoc q.params (q.params_last ∷ q.stdin) (q.stdin_last ∷ [])))

front_records-IsQuiet :
    (flags : ℕ) (reserved : Bytes) (ps : List (Bytes × Bytes)) (q : Request)
    → IsRequest flags reserved ps q
    → All IsQuiet (front_records q)
unfolding front_records
front_records-IsQuiet flags reserved ps q h = (
  record { valid = h.begin_valid; no_end = inl (ground arith) },
  All-append IsQuiet q.params (q.params_last ∷ q.stdin)
      (pieces-IsQuiet Kind.params q.params h.params_pieces)
      (
        record { valid = h.params_end.valid; no_end = inl (ground arith) },
        pieces-IsQuiet Kind.stdin q.stdin h.stdin_pieces,
      ),
)

-- While any byte of a request has still to arrive, parsing what is there does not report a request:
-- `m_gotRequest` stays as it was, whatever the codec held otherwise.
pub parse_prefix :
    (flags : ℕ) (reserved : Bytes) (ps : List (Bytes × Bytes)) (q : Request) (c : Codec)
    (front back : Bytes)
    → IsRequest flags reserved ps q
    → front ++ back ≡ encode_records (records q)
    → 0 < length back
    → (parse_fcgi_package (with_buf front c)).got_request ≡ c.got_request
parse_prefix flags reserved ps q c front back h e more =
    prefix_waits (front_records q) q.stdin_last front back c
      (front_records-IsQuiet flags reserved ps q h) h.stdin_end.valid
      (e ∙ ap encode_records (front_records-last q)) more
