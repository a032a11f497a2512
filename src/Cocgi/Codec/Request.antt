-- ===== src/Cocgi/Codec/Request.antt =====
-- What `parseFcgiPackage` makes of a whole request.
use fastcgi_async_or_corouti.Base.{
  ℕ, ◌≤◌, ◌≡◌, ◌∙◌, sym, ap, true, Bytes, List, [], ◌∷◌, ◌++◌, append-nil, append_assoc, length,
  All, assign_pairs, concat, ◌==◌, arith,
}
use fastcgi_async_or_corouti.Protocol.{
  Record, IsRecord, encode_record, encode_records, encode_records-append,
}
use fastcgi_async_or_corouti.Cocgi.Kind
use fastcgi_async_or_corouti.Cocgi.Params.RoundTrip.{encode_pairs, HasShortFields}
use fastcgi_async_or_corouti.Cocgi.Codec.{Codec, parse_step, parse_fcgi_package}
use fastcgi_async_or_corouti.Cocgi.Codec.Loop.{parse_fcgi_package_lem}
use fastcgi_async_or_corouti.Cocgi.Codec.Streaming.{feed, feed-concat}
use fastcgi_async_or_corouti.Cocgi.Codec.Pieces.{
  with_buf, begin_body, IsPiece, IsEnd, contents, parse-encode_record, params_piece, stdin_piece,
  stdin_end, params_end, begin_record,
}

-- The records of a request: its start, the pieces and the end of each stream.
pub record Request : Type 0 where
  pub begin : Record
  pub params : List Record
  pub params_last : Record
  pub stdin : List Record
  pub stdin_last : Record

abbrev pub records : Request → List Record
records q = q.begin ∷ (q.params ++ (q.params_last ∷ (q.stdin ++ (q.stdin_last ∷ []))))

-- A request to a responder that carries the name-value pairs `ps`.
pub record IsRequest (flags : ℕ) (reserved : Bytes) (ps : List (Bytes × Bytes)) (q : Request)
    : Type 0 where
  pub begin_valid : IsRecord q.begin
  pub begin_type : q.begin.type ≡ Kind.begin_request
  pub begin_content : q.begin.content ≡ begin_body Kind.responder flags reserved
  pub begin_long : 5 ≤ length reserved
  pub params_pieces : All (IsPiece Kind.params) q.params
  pub params_content : contents q.params ≡ encode_pairs ps
  pub params_short : All HasShortFields ps
  pub params_end : IsEnd Kind.params q.params_last
  pub stdin_pieces : All (IsPiece Kind.stdin) q.stdin
  pub stdin_end : IsEnd Kind.stdin q.stdin_last

params_records :
    (rs : List Record) (rest : Bytes) (c : Codec)
    → All (IsPiece Kind.params) rs
    → parse_fcgi_package (with_buf (encode_records rs ++ rest) c)
      ≡ parse_fcgi_package
          (with_buf rest (record c { params_stream = c.params_stream ++ contents rs }))
unfolding encode_records contents
params_records [] rest c h = rw append-nil
params_records (r ∷ rs) rest c (hr, hrs) = rw append_assoc (
    parse-encode_record r (encode_records rs ++ rest) c hr.valid
    ∙ ap parse_fcgi_package (params_piece r (encode_records rs ++ rest) c hr)
    ∙ params_records rs rest (record c { params_stream = c.params_stream ++ r.content }) hrs
    ∙ rw append_assoc)

stdin_records :
    (rs : List Record) (rest : Bytes) (c : Codec)
    → All (IsPiece Kind.stdin) rs
    → parse_fcgi_package (with_buf (encode_records rs ++ rest) c)
      ≡ parse_fcgi_package (with_buf rest (record c { stdin = c.stdin ++ contents rs }))
unfolding encode_records contents
stdin_records [] rest c h = rw append-nil
stdin_records (r ∷ rs) rest c (hr, hrs) = rw append_assoc (
    parse-encode_record r (encode_records rs ++ rest) c hr.valid
    ∙ ap parse_fcgi_package (stdin_piece r (encode_records rs ++ rest) c hr)
    ∙ stdin_records rs rest (record c { stdin = c.stdin ++ r.content }) hrs
    ∙ rw append_assoc)

pub parse_nothing : (c : Codec) → parse_fcgi_package (with_buf [] c) ≡ with_buf [] c
unfolding parse_step
parse_nothing c = rw parse_fcgi_package_lem

-- The codec behind a request to a responder.
abbrev pub received : ℕ → List (Bytes × Bytes) → Bytes → Codec
received flags ps body = record {
  got_request = true;
  keep_conn = flags == Kind.keep_conn;
  buf = [];
  stdin = body;
  params_stream = [];
  params = assign_pairs ps [];
}

-- No request is under way.
pub record IsIdle (c : Codec) : Type 0 where
  pub no_stdin : c.stdin ≡ []
  pub no_params_stream : c.params_stream ≡ []
  pub no_params : c.params ≡ []

pub stdin_stream :
    (rs : List Record) (r : Record) (ss : List Record) (c : Codec)
    → All (IsPiece Kind.stdin) rs
    → IsEnd Kind.stdin r
    → parse_fcgi_package (with_buf (encode_records (rs ++ (r ∷ ss))) c)
      ≡ parse_fcgi_package (
          with_buf
            (encode_records ss)
            (record c { got_request = true; stdin = c.stdin ++ contents rs }))
unfolding encode_records
stdin_stream rs r ss c hs h =
    let c' : Codec = record c { stdin = c.stdin ++ contents rs } in
    rw encode_records-append (
      stdin_records rs (encode_record r ++ encode_records ss) c hs
      ∙ parse-encode_record r (encode_records ss) c' h.valid
      ∙ ap parse_fcgi_package (stdin_end r (encode_records ss) c' h))

params_stream :
    (rs : List Record) (r : Record) (ss : List Record) (c : Codec) (ps : List (Bytes × Bytes))
    → All (IsPiece Kind.params) rs
    → IsEnd Kind.params r
    → c.params_stream ++ contents rs ≡ encode_pairs ps
    → All HasShortFields ps
    → parse_fcgi_package (with_buf (encode_records (rs ++ (r ∷ ss))) c)
      ≡ parse_fcgi_package (
          with_buf
            (encode_records ss)
            (record c { params_stream = []; params = assign_pairs ps c.params }))
unfolding encode_records
params_stream rs r ss c ps hs h e short =
    let c' : Codec = record c { params_stream = c.params_stream ++ contents rs } in
    rw encode_records-append (
      params_records rs (encode_record r ++ encode_records ss) c hs
      ∙ parse-encode_record r (encode_records ss) c' h.valid
      ∙ ap parse_fcgi_package (params_end r (encode_records ss) c' ps h e short))

begin_request :
    (r : Record) (ss : List Record) (c : Codec) (flags : ℕ) (reserved : Bytes)
    → IsRecord r
    → r.type ≡ Kind.begin_request
    → r.content ≡ begin_body Kind.responder flags reserved
    → 5 ≤ length reserved
    → parse_fcgi_package (with_buf (encode_records (r ∷ ss)) c)
      ≡ parse_fcgi_package
          (with_buf (encode_records ss) (record c { keep_conn = flags == Kind.keep_conn }))
unfolding encode_records
begin_request r ss c flags reserved h t e long =
    parse-encode_record r (encode_records ss) c h
    ∙ ap parse_fcgi_package
        (begin_record r (encode_records ss) c Kind.responder flags reserved t e long (omega arith))

-- The codec behind a request that comes when it holds no parameters that are still to be parsed.
abbrev pub behind : ℕ → List (Bytes × Bytes) → Bytes → Codec → Codec
behind flags ps body c = record c {
  got_request = true;
  keep_conn = flags == Kind.keep_conn;
  stdin = c.stdin ++ body;
  params_stream = [];
  params = assign_pairs ps c.params;
}

-- A request at the head of the buffer, with other records behind it.
pub parse-encode_request :
    (flags : ℕ) (reserved : Bytes) (ps : List (Bytes × Bytes)) (q : Request) (ss : List Record)
    (c : Codec)
    → IsRequest flags reserved ps q
    → c.params_stream ≡ []
    → parse_fcgi_package (with_buf (encode_records (records q ++ ss)) c)
      ≡ parse_fcgi_package (with_buf (encode_records ss) (behind flags ps (contents q.stdin) c))
parse-encode_request flags reserved ps q ss c h empty =
    let c1 : Codec = record c { keep_conn = flags == Kind.keep_conn } in
    let tail = q.stdin ++ (q.stdin_last ∷ ss) in
    let grouped : records q ++ ss ≡ q.begin ∷ (q.params ++ (q.params_last ∷ tail)) =
      simp append_assoc in
    ap (λ l. parse_fcgi_package (with_buf (encode_records l) c)) grouped
    ∙ begin_request q.begin _ c flags reserved h.begin_valid h.begin_type h.begin_content
        h.begin_long
    ∙ params_stream q.params q.params_last tail c1 ps h.params_pieces h.params_end
        (rw empty h.params_content) h.params_short
    ∙ stdin_stream q.stdin q.stdin_last ss
        (record c1 { params_stream = []; params = assign_pairs ps c.params }) h.stdin_pieces
        h.stdin_end

-- A request to a responder, in records of any sizes and paddings that the format allows, is received
-- whole by an idle codec: the name-value pairs are in the map, the contents of the stdin records are
-- joined, the keep-alive choice is that of the flags byte, and no byte is left over.
pub parse-encode_records :
    (flags : ℕ) (reserved : Bytes) (ps : List (Bytes × Bytes)) (q : Request) (c : Codec)
    → IsRequest flags reserved ps q
    → IsIdle c
    → parse_fcgi_package (with_buf (encode_records (records q)) c)
      ≡ received flags ps (contents q.stdin)
unfolding encode_records
parse-encode_records flags reserved ps q c h idle =
    ap (λ l. parse_fcgi_package (with_buf (encode_records l) c)) (sym (append-nil (records q)))
    ∙ parse-encode_request flags reserved ps q [] c h idle.no_params_stream
    ∙ parse_nothing (behind flags ps (contents q.stdin) c)
    ∙ rw (idle.no_stdin, idle.no_params)

-- The same request, cut into reads anywhere, within a record or a length too.
pub feed-encode_records :
    (flags : ℕ) (reserved : Bytes) (ps : List (Bytes × Bytes)) (q : Request) (c : Codec) (b : Bytes)
    (bs : List Bytes)
    → IsRequest flags reserved ps q
    → IsIdle c
    → c.buf ≡ []
    → b ++ concat bs ≡ encode_records (records q)
    → feed c (b ∷ bs) ≡ received flags ps (contents q.stdin)
feed-encode_records flags reserved ps q c b bs h idle empty e =
    feed-concat c b bs
    ∙ ap (λ s. parse_fcgi_package (with_buf s c)) (rw empty e)
    ∙ parse-encode_records flags reserved ps q c h idle
