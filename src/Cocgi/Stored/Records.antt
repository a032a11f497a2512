-- ===== src/Cocgi/Stored/Records.antt =====
-- The codec over buffers against the codec over lists of bytes.
use fastcgi_async_or_corouti.Base.{
  ℕ, zero, suc, ◌+◌, ◌≤◌, ◌≡◌, refl, ap, ◌∙◌, Bool, get_or, get_or-take, drop-take, drop, take,
  length, ltb, leb, leb→le, related_if, ◌==◌, arith,
}
use fastcgi_async_or_corouti.Endian.{hton16, load16}
use fastcgi_async_or_corouti.ByteQueue.{ByteQueue}
use fastcgi_async_or_corouti.Cocgi.Kind
use fastcgi_async_or_corouti.Cocgi.Header.{
  RecordHeader, record_header, load_header, load_header-take,
}
use fastcgi_async_or_corouti.Cocgi.Codec.{
  Codec, on_begin_request, on_params, on_stdin, dispatch, total_length, retrieve, parse_step,
  package_loop, parse_fcgi_package,
}
use fastcgi_async_or_corouti.Cocgi.Codec.Loop.{dispatch-buf}
use fastcgi_async_or_corouti.Cocgi.Stored.{
  StoredCodec, stored_begin, content_of, stored_on_params, stored_on_stdin, stored_dispatch,
  retrieve_record, stored_step, stored_packages, parse_stored,
}
use fastcgi_async_or_corouti.Cocgi.Stored.Params.{stored_params_lem}

module _ (queue : ByteQueue) where
  open queue use {
    Queue, empty, readable, peek, Holds, empty-Holds, readable-Holds, peek-Holds, retrieve-Holds,
    append-Holds, read_fd-Holds,
  }

  -- The same fields, the three buffers in order and with the same bytes.
  pub record SameCodec (b : StoredCodec queue) (c : Codec) : Type 0 where
    pub same_got : b.got_request ≡ c.got_request
    pub same_keep : b.keep_conn ≡ c.keep_conn
    pub holds_buf : Holds b.buf c.buf
    pub holds_stdin : Holds b.stdin c.stdin
    pub holds_stream : Holds b.params_stream c.params_stream
    pub same_params : b.params ≡ c.params

  pub record SameStep (r : Bool × StoredCodec queue) (e : Bool × Codec) : Type 0 where
    pub same_more : r.0 ≡ e.0
    pub same_codec : SameCodec r.1 e.1

  content_lem :
      (len : ℕ) (b : StoredCodec queue) (c : Codec)
      → SameCodec b c
      → record_header + len ≤ length c.buf
      → content_of queue len b ≡ take len (drop record_header c.buf)
  content_lem len b c h le =
      ap (drop record_header) (peek-Holds b.buf c.buf (record_header + len) h.holds_buf le)
      ∙ drop-take record_header len (record_header + len) c.buf refl

  stored_begin_lem :
      (hd : RecordHeader) (b : StoredCodec queue) (c : Codec)
      → SameCodec b c
      → record_header + hd.content_length ≤ length c.buf
      → SameCodec (stored_begin queue hd b) (on_begin_request hd c).1
  unfolding stored_begin on_begin_request
  stored_begin_lem hd b c h le =
      related_if {B = Bool × Codec} (λ x p. SameCodec x p.1) (leb record_header hd.content_length)
        (λ e.
          let long : 11 ≤ length c.buf = omega (arith, leb→le record_header hd.content_length e) in
          rw
            (
              peek-Holds b.buf c.buf 11 h.holds_buf long,
              get_or-take 11 8 c.buf 0 (omega arith) long,
              get_or-take 11 9 c.buf 0 (omega arith) long,
              get_or-take 11 10 c.buf 0 (omega arith) long,
            )
            (related_if {B = Bool × Codec} (λ x p. SameCodec x p.1)
              (hton16 (load16 (get_or c.buf 8 0) (get_or c.buf 9 0)) == Kind.responder)
              (λ _. record {
                same_got = h.same_got;
                same_keep = refl;
                holds_buf = h.holds_buf;
                holds_stdin = h.holds_stdin;
                holds_stream = h.holds_stream;
                same_params = h.same_params;
              })
              (λ _. h)))
        (λ _. h)

  stored_on_params_lem :
      (len : ℕ) (b : StoredCodec queue) (c : Codec)
      → SameCodec b c
      → record_header + len ≤ length c.buf
      → SameCodec (stored_on_params queue len b) (on_params (drop record_header c.buf) len c).1
  unfolding stored_on_params on_params
  stored_on_params_lem len b c h le =
      let parsed =
        stored_params_lem queue (record { stream = b.params_stream; params = b.params })
          (record { stream = c.params_stream; params = c.params })
          (record { holds = h.holds_stream; same_params = h.same_params }) in
      related_if {B = Bool × Codec} (λ x p. SameCodec x p.1) (ltb 0 len)
        (λ _. record {
          same_got = h.same_got;
          same_keep = h.same_keep;
          holds_buf = h.holds_buf;
          holds_stdin = h.holds_stdin;
          holds_stream =
              rw (content_lem len b c h le)
                (append-Holds _ b.params_stream c.params_stream h.holds_stream);
          same_params = h.same_params;
        })
        (λ _. record {
          same_got = h.same_got;
          same_keep = h.same_keep;
          holds_buf = h.holds_buf;
          holds_stdin = h.holds_stdin;
          holds_stream = parsed.same_state.holds;
          same_params = parsed.same_state.same_params;
        })

  stored_on_stdin_lem :
      (len : ℕ) (b : StoredCodec queue) (c : Codec)
      → SameCodec b c
      → record_header + len ≤ length c.buf
      → SameCodec (stored_on_stdin queue len b) (on_stdin (drop record_header c.buf) len c)
  unfolding stored_on_stdin on_stdin
  stored_on_stdin_lem len b c h le =
      related_if SameCodec (ltb 0 len)
        (λ _. record {
          same_got = h.same_got;
          same_keep = h.same_keep;
          holds_buf = h.holds_buf;
          holds_stdin =
              rw (content_lem len b c h le) (append-Holds _ b.stdin c.stdin h.holds_stdin);
          holds_stream = h.holds_stream;
          same_params = h.same_params;
        })
        (λ _. record {
          same_got = refl;
          same_keep = h.same_keep;
          holds_buf = h.holds_buf;
          holds_stdin = h.holds_stdin;
          holds_stream = h.holds_stream;
          same_params = h.same_params;
        })

  stored_dispatch_lem :
      (hd : RecordHeader) (b : StoredCodec queue) (c : Codec)
      → SameCodec b c
      → record_header + hd.content_length ≤ length c.buf
      → SameCodec (stored_dispatch queue hd b) (dispatch hd c)
  unfolding stored_dispatch dispatch
  stored_dispatch_lem hd b c h le =
      related_if SameCodec (hd.type == Kind.begin_request) (λ _. stored_begin_lem hd b c h le)
        (λ _.
          related_if SameCodec (hd.type == Kind.params)
            (λ _. stored_on_params_lem hd.content_length b c h le)
            (λ _.
              related_if SameCodec (hd.type == Kind.stdin)
                (λ _. stored_on_stdin_lem hd.content_length b c h le) (λ _. h)))

  retrieve_lem :
      (n : ℕ) (b : StoredCodec queue) (c : Codec)
      → SameCodec b c
      → n ≤ length c.buf
      → SameCodec (retrieve_record queue n b) (retrieve n c)
  retrieve_lem n b c h le = record {
    same_got = h.same_got;
    same_keep = h.same_keep;
    holds_buf = retrieve-Holds n b.buf c.buf h.holds_buf le;
    holds_stdin = h.holds_stdin;
    holds_stream = h.holds_stream;
    same_params = h.same_params;
  }

  stored_step_lem :
      (b : StoredCodec queue) (c : Codec)
      → SameCodec b c
      → SameStep (stored_step queue b) (parse_step c)
  unfolding stored_step parse_step
  stored_step_lem b c h = rw (readable-Holds b.buf c.buf h.holds_buf) (
      related_if SameStep (leb record_header (length c.buf))
        (λ e.
          let long = leb→le record_header (length c.buf) e in
          let hd = load_header c.buf in
          rw (peek-Holds b.buf c.buf record_header h.holds_buf long, load_header-take c.buf long)
            (related_if SameStep (leb (total_length hd) (length c.buf))
              (λ e'.
                let whole = leb→le (total_length hd) (length c.buf) e' in
                record {
                  same_more = refl;
                  same_codec =
                      retrieve_lem (total_length hd) (stored_dispatch queue hd b) (dispatch hd c)
                        (stored_dispatch_lem hd b c h (omega arith)) (rw (dispatch-buf hd c) whole);
                })
              (λ _. record { same_more = refl; same_codec = h })))
        (λ _. record { same_more = refl; same_codec = h }))

  stored_packages_lem :
      (fuel : ℕ) (b : StoredCodec queue) (c : Codec)
      → SameCodec b c
      → SameCodec (stored_packages queue fuel b) (package_loop fuel c)
  unfolding stored_packages package_loop
  stored_packages_lem zero b c h = h
  stored_packages_lem (suc fuel) b c h =
      let next = stored_step_lem b c h in
      rw next.same_more (
        related_if SameCodec (parse_step c).0
          (λ _. stored_packages_lem fuel (stored_step queue b).1 (parse_step c).1 next.same_codec)
          (λ _. h))

  pub parse_stored_lem :
      (b : StoredCodec queue) (c : Codec)
      → SameCodec b c
      → SameCodec (parse_stored queue b) (parse_fcgi_package c)
  unfolding parse_stored parse_fcgi_package
  parse_stored_lem b c h =
      rw (readable-Holds b.buf c.buf h.holds_buf) (stored_packages_lem (length c.buf) b c h)
