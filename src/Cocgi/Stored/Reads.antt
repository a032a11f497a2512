-- ===== src/Cocgi/Stored/Reads.antt =====
-- The codec over buffers on the reads of a connection.
use fastcgi_async_or_corouti.Base.{
  ℕ, ◌≡◌, refl, ap, ◌∙◌, true, Bytes, List, [], ◌∷◌, ◌++◌, length, take_all, concat, assign_pairs,
  ◌==◌, arith,
}
use fastcgi_async_or_corouti.ByteQueue.{ByteQueue}
use fastcgi_async_or_corouti.Protocol.{encode_records}
use fastcgi_async_or_corouti.Cocgi.Kind
use fastcgi_async_or_corouti.Cocgi.Codec.{Codec, new_codec, parse_fcgi_package}
use fastcgi_async_or_corouti.Cocgi.Codec.Streaming.{fill, feed}
use fastcgi_async_or_corouti.Cocgi.Codec.Pieces.{contents}
use fastcgi_async_or_corouti.Cocgi.Codec.Request.{
  Request, IsRequest, records, received, feed-encode_records,
}
use fastcgi_async_or_corouti.Cocgi.Stored.{StoredCodec, new_stored, parse_stored, fill_stored}
use fastcgi_async_or_corouti.Cocgi.Stored.Records.{SameCodec, parse_stored_lem}

module _ (queue : ByteQueue) where
  open queue use {Queue, readable, peek, empty-Holds, readable-Holds, peek-Holds, read_fd-Holds}

  -- A read of bytes, and the parse that follows it.
  abbrev pub stored_read : Bytes → StoredCodec queue → StoredCodec queue
  stored_read s b = parse_stored queue (fill_stored queue s b)

  pub stored_read_lem :
      (s : Bytes) (b : StoredCodec queue) (c : Codec)
      → SameCodec queue b c
      → SameCodec queue (stored_read s b) (parse_fcgi_package (fill s c))
  stored_read_lem s b c h = parse_stored_lem queue (fill_stored queue s b) (fill s c) (record {
    same_got = h.same_got;
    same_keep = h.same_keep;
    holds_buf = read_fd-Holds s b.buf c.buf h.holds_buf;
    holds_stdin = h.holds_stdin;
    holds_stream = h.holds_stream;
    same_params = h.same_params;
  })

  unfoldable pub stored_feed : StoredCodec queue → List Bytes → StoredCodec queue
  stored_feed b [] = b
  stored_feed b (s ∷ ss) = stored_feed (stored_read s b) ss

  stored_feed_same :
      (ss : List Bytes) (b : StoredCodec queue) (c : Codec)
      → SameCodec queue b c
      → SameCodec queue (stored_feed b ss) (feed c ss)
  unfolding stored_feed feed
  stored_feed_same [] b c h = h
  stored_feed_same (s ∷ ss) b c h = stored_feed_same ss _ _ (stored_read_lem s b c h)

  pub new_stored_lem : SameCodec queue (new_stored queue) new_codec
  new_stored_lem = record {
    same_got = refl;
    same_keep = refl;
    holds_buf = empty-Holds;
    holds_stdin = empty-Holds;
    holds_stream = empty-Holds;
    same_params = refl;
  }

  -- Over any buffer that keeps the laws of a queue of bytes, a new codec that is fed reads of any bytes
  -- has, after them, the flags and the map of the codec over lists of bytes that is fed the same, and
  -- its three buffers hold the bytes that this one has.
  pub stored_feed_lem :
      (ss : List Bytes) → SameCodec queue (stored_feed (new_stored queue) ss) (feed new_codec ss)
  stored_feed_lem ss = stored_feed_same ss (new_stored queue) new_codec new_stored_lem

  -- A request to a responder that is encoded by the FastCGI format and cut into one or more reads
  -- anywhere is received whole by a new codec over such buffers: the map holds its name-value pairs, the
  -- keep-alive choice is that of its flags byte, the buffer of posted data shows the joined contents of
  -- its stdin records, and no byte is left in the other two.
  pub stored_request :
      (flags : ℕ) (reserved : Bytes) (ps : List (Bytes × Bytes)) (q : Request) (s : Bytes)
      (ss : List Bytes)
      → IsRequest flags reserved ps q
      → s ++ concat ss ≡ encode_records (records q)
      → let c = stored_feed (new_stored queue) (s ∷ ss) in
        (c.got_request ≡ true)
        × (c.keep_conn ≡ (flags == Kind.keep_conn))
        × (c.params ≡ assign_pairs ps [])
        × (peek (readable c.stdin) c.stdin ≡ contents q.stdin)
        × (readable c.buf ≡ 0)
        × (readable c.params_stream ≡ 0)
  stored_request flags reserved ps q s ss h e =
      let d = received flags ps (contents q.stdin) in
      let c = stored_feed (new_stored queue) (s ∷ ss) in
      let whole : feed new_codec (s ∷ ss) ≡ d =
        feed-encode_records flags reserved ps q new_codec s ss h
          (record { no_stdin = refl; no_params_stream = refl; no_params = refl }) refl e in
      let same : SameCodec queue c d = rw whole at (stored_feed_lem (s ∷ ss)) in
      let long = readable-Holds c.stdin d.stdin same.holds_stdin in
      (
        same.same_got,
        same.same_keep,
        same.same_params,
        ap (λ n. peek n c.stdin) long
            ∙ peek-Holds c.stdin d.stdin (length d.stdin) same.holds_stdin (omega arith)
            ∙ take_all (length d.stdin) d.stdin (omega arith),
        readable-Holds c.buf [] same.holds_buf,
        readable-Holds c.params_stream [] same.holds_stream,
      )
