-- ===== src/Cocgi/Stored/Answers.antt =====
-- `readData` over buffers against `readData` over lists of bytes.
use mathlib.Core.Path.{subst}
use fastcgi_async_or_corouti.Base.{
  ◌≡◌, refl, sym, ap, ◌∙◌, Bool, true, false, Option, none, some, Bytes, ParamMap, List, [], ◌∷◌,
  if◌then◌else◌, at_key, codes,
}
use fastcgi_async_or_corouti.ByteQueue.{ByteQueue}
use fastcgi_async_or_corouti.Cgi.{CgiParser}
use fastcgi_async_or_corouti.Cocgi.Backend.{print_request}
use fastcgi_async_or_corouti.Cocgi.Respond.{respond}
use fastcgi_async_or_corouti.Cocgi.Codec.{Codec}
use fastcgi_async_or_corouti.Cocgi.Session.{
  ErrorCode, err_socket_read, WriteResult, ReadResult, got, read_failed, Outcome, returns, throws,
  waits, write_loop, query_map, header_map, Reply, with_codec, backend_arguments, build_response,
  do_request, finish, no_request, read_data,
}
use fastcgi_async_or_corouti.Cocgi.Stored.{StoredCodec}
use fastcgi_async_or_corouti.Cocgi.Stored.Records.{SameCodec}
use fastcgi_async_or_corouti.Cocgi.Stored.Reads.{stored_read_lem}
use fastcgi_async_or_corouti.Cocgi.Stored.Respond.{stored_respond, stored_respond_lem}
use fastcgi_async_or_corouti.Cocgi.Stored.Session.{
  stored_write, StoredReply, with_stored, take_posted, stored_arguments, stored_do_request,
  stored_finish, stored_no_request, stored_read_data,
}
use fastcgi_async_or_corouti.Cocgi.Stored.Writes.{stored_write_lem, take_posted_lem}

module _ (queue : ByteQueue) where
  open queue use {
    Queue, empty, readable, peek, retrieve, retrieve_all, Holds, empty-Holds, readable-Holds,
    peek-Holds, retrieve-Holds, retrieve_all-Holds, read_fd-Holds,
  }

  -- The same code, the same bytes sent, the same calls of the back end, and codecs that hold the same.
  pub record SameReply (r : StoredReply queue) (s : Reply) : Type 0 where
    pub same_code : r.code ≡ s.code
    pub same_sent : r.sent ≡ s.sent
    pub same_calls : r.calls ≡ s.calls
    pub same_codec : SameCodec queue r.codec s.codec

  pub data SameOutcome : Outcome (StoredReply queue) → Outcome Reply → Type 0 where
    both_return :
        (r : StoredReply queue) (s : Reply) → SameReply r s → SameOutcome (returns r) (returns s)
    both_throw : SameOutcome throws throws
    both_wait : SameOutcome waits waits

  both_ifs :
      (x y : Bool) {a b : Outcome (StoredReply queue)} {c d : Outcome Reply}
      → x ≡ y
      → SameOutcome a c
      → SameOutcome b d
      → SameOutcome (if x then a else b) (if y then c else d)
  both_ifs true true e f g = f
  both_ifs false false e f g = g
  both_ifs true false e f g = absurd (cc)
  both_ifs false true e f g = absurd (cc)

  module _ (cgi : CgiParser) where
    -- The two maps from the parameters and the posted data.
    abbrev arguments_of : ParamMap → Bytes → Option (ParamMap × ParamMap)
    arguments_of params post_data =
        let (query_string, p1) = at_key (codes "QUERY_STRING") params in
        let (query_type, p2) = at_key (codes "CONTENT_TYPE") p1 in
        let (query_cookie, p3) = at_key (codes "HTTP_COOKIE") p2 in
        elim (cgi query_string query_cookie post_data query_type) [
          | none ↦ none
          | some d ↦ some (query_map d, header_map d p3)
        ]

    arguments_lem :
        (b : StoredCodec queue) (c : Codec)
        → SameCodec queue b c
        → ((stored_arguments queue cgi b).0 ≡ (backend_arguments cgi c).0)
          × SameCodec queue (stored_arguments queue cgi b).1 (backend_arguments cgi c).1
    unfolding stored_arguments backend_arguments
    arguments_lem b c h =
        let (posted, taken) = take_posted_lem queue b.stdin c.stdin h.holds_stdin in
        (
          ap (λ p. arguments_of p (take_posted queue b.stdin).0) h.same_params
              ∙ ap (arguments_of c.params) posted,
          record {
            same_got = h.same_got;
            same_keep = h.same_keep;
            holds_buf = h.holds_buf;
            holds_stdin = taken;
            holds_stream = h.holds_stream;
            same_params = rw h.same_params refl;
          },
        )

    with_codec_lem :
        (b : StoredCodec queue) (c : Codec) (calls : List (ParamMap × ParamMap))
        (o : Outcome (ErrorCode × Bytes))
        → SameCodec queue b c
        → SameOutcome (with_stored queue b calls o) (with_codec c calls o)
    with_codec_lem b c calls (returns (code, sent)) h =
        both_return _ _
          (record { same_code = refl; same_sent = refl; same_calls = refl; same_codec = h })
    with_codec_lem b c calls throws h = both_throw
    with_codec_lem b c calls waits h = both_wait

    -- What is done with the two maps.
    abbrev stored_answer :
        Option (ParamMap × ParamMap)
        → StoredCodec queue
        → List WriteResult
        → Outcome (StoredReply queue)
    stored_answer o b ws = elim o [
      | none ↦ throws
      | some (qmap, header) ↦
          let (res, calls) = print_request qmap header in
          with_stored queue b calls (stored_write queue (stored_respond queue res empty) ws [])
    ]

    abbrev answer : Option (ParamMap × ParamMap) → Codec → List WriteResult → Outcome Reply
    answer o c ws =
        let response : Option (Bytes × List (ParamMap × ParamMap)) = elim o [
          | none ↦ none
          | some (qmap, header) ↦
              let (res, calls) = print_request qmap header in some (respond res [], calls)
        ] in
        elim response [ none ↦ throws | some (r, calls) ↦ with_codec c calls (write_loop r ws []) ]

    answered_lem :
        (o : Option (ParamMap × ParamMap)) (b : StoredCodec queue) (c : Codec)
        (ws : List WriteResult)
        → SameCodec queue b c
        → SameOutcome (stored_answer o b ws) (answer o c ws)
    answered_lem none b c ws h = both_throw
    answered_lem (some (qmap, header)) b c ws h =
        let (out, calls) = print_request qmap header in
        rw
          (stored_write_lem queue ws (stored_respond queue out empty) (respond out []) []
            (stored_respond_lem queue out empty [] empty-Holds))
          (with_codec_lem b c calls (write_loop (respond out []) ws []) h)

    do_request_lem :
        (b : StoredCodec queue) (c : Codec) (ws : List WriteResult)
        → SameCodec queue b c
        → SameOutcome (stored_do_request queue cgi b ws) (do_request cgi c ws)
    unfolding stored_do_request do_request build_response
    do_request_lem b c ws h =
        let (arguments, same) = arguments_lem b c h in
        let d = (stored_arguments queue cgi b).1 in
        subst (λ o. SameOutcome (stored_answer o d ws) (do_request cgi c ws)) (sym arguments)
          (answered_lem (backend_arguments cgi c).0 d (backend_arguments cgi c).1 ws same)

    finish_lem :
        (o : Outcome (StoredReply queue)) (p : Outcome Reply)
        → SameOutcome o p
        → SameOutcome (stored_finish queue cgi o) (finish cgi p)
    finish_lem o p (both_return r s h) = both_return _ _ (record {
      same_code = rw (h.same_code, h.same_codec.same_keep) refl;
      same_sent = h.same_sent;
      same_calls = h.same_calls;
      same_codec = record {
        same_got = refl;
        same_keep = h.same_codec.same_keep;
        holds_buf = h.same_codec.holds_buf;
        holds_stdin = retrieve_all-Holds _ _ h.same_codec.holds_stdin;
        holds_stream = retrieve_all-Holds _ _ h.same_codec.holds_stream;
        same_params = refl;
      };
    })
    finish_lem o p both_throw = both_throw
    finish_lem o p both_wait = both_wait

    no_request_lem :
        (code : ErrorCode) (b : StoredCodec queue) (c : Codec)
        → SameCodec queue b c
        → SameOutcome (stored_no_request queue cgi code b) (no_request cgi code c)
    no_request_lem code b c h =
        both_return _ _
          (record { same_code = refl; same_sent = refl; same_calls = refl; same_codec = h })

    -- One `readData`.
    pub stored_read_data_lem :
        (rd : ReadResult) (errno_again : Bool) (ws : List WriteResult) (b : StoredCodec queue)
        (c : Codec)
        → SameCodec queue b c
        → SameOutcome
            (stored_read_data queue cgi rd errno_again ws b)
            (read_data cgi rd errno_again ws c)
    unfolding stored_read_data read_data
    stored_read_data_lem (got []) errno_again ws b c h = no_request_lem _ b c h
    stored_read_data_lem read_failed errno_again ws b c h = no_request_lem _ b c h
    stored_read_data_lem (got (x ∷ xs)) errno_again ws b c h =
        let same = stored_read_lem queue (x ∷ xs) b c h in
        both_ifs _ _ same.same_got (finish_lem _ _ (do_request_lem _ _ ws same))
          (no_request_lem err_socket_read _ _ same)
