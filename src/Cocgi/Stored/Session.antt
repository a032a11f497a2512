-- ===== src/Cocgi/Stored/Session.antt =====
-- `readData` and `doRequest` of cocgi/fastcgi.cpp over buffers of their own.
use fastcgi_async_or_corouti.Base.{
  ℕ, Bool, false, ◌&&◌, not, Option, none, some, Bytes, List, [], ◌∷◌, ◌++◌, ltb, leb,
  if◌then◌else◌, ParamMap, at_key, codes,
}
use fastcgi_async_or_corouti.ByteQueue.{ByteQueue}
use fastcgi_async_or_corouti.Cgi.{CgiParser}
use fastcgi_async_or_corouti.Cocgi.Backend.{print_request}
use fastcgi_async_or_corouti.Cocgi.Session.{
  ErrorCode, err_ok, err_socket_read, err_socket_write, err_socket_finish, err_socket_eagain,
  WriteResult, wrote, write_failed, ReadResult, got, read_failed, Outcome, returns, throws, waits,
  is_ok, query_map, header_map,
}
use fastcgi_async_or_corouti.Cocgi.Stored.{StoredCodec, parse_stored, fill_stored}
use fastcgi_async_or_corouti.Cocgi.Stored.Respond.{stored_respond}

-- `wrote n` is what the peer can take: `write` returns no more than it is given.
abbrev pub at_most : ℕ → ℕ → ℕ
at_most n m = if leb n m then n else m

module _ (queue : ByteQueue) where
  open queue use {Queue, empty, readable, peek, retrieve, retrieve_all}

  -- The loop that writes the response; the last argument is what the peer has been sent.
  unfoldable pub stored_write : Queue → List WriteResult → Bytes → Outcome (ErrorCode × Bytes)
  stored_write q [] sent = if ltb 0 (readable q) then waits else returns (err_ok, sent)
  stored_write q (wrote m ∷ ws) sent =
      let n = at_most m (readable q) in
      let rest = stored_write (if ltb 0 n then retrieve n q else q) ws (sent ++ peek n q) in
      if ltb 0 (readable q) then rest else returns (err_ok, sent)
  stored_write q (write_failed errno_again ∷ ws) sent =
      if ltb 0 (readable q)
      then returns (if errno_again then err_socket_eagain else err_socket_write, sent)
      else returns (err_ok, sent)

  pub record StoredReply : Type 0 where
    pub code : ErrorCode
    pub sent : Bytes
    pub calls : List (ParamMap × ParamMap)
    pub codec : StoredCodec queue

  abbrev pub with_stored :
      StoredCodec queue
      → List (ParamMap × ParamMap)
      → Outcome (ErrorCode × Bytes)
      → Outcome StoredReply
  with_stored c calls (returns (code, sent)) =
      returns (record { code = code; sent = sent; calls = calls; codec = c })
  with_stored c calls throws = throws
  with_stored c calls waits = waits

  -- `retrieveAllAsString`, if there is something to retrieve.
  unfoldable pub take_posted : Queue → Bytes × Queue
  take_posted q =
      if ltb 0 (readable q) then (peek (readable q) q, retrieve (readable q) q) else ([], q)

  module _ (cgi : CgiParser) where
    unfoldable pub stored_arguments :
        StoredCodec queue → Option (ParamMap × ParamMap) × StoredCodec queue
    unfolding take_posted
    stored_arguments c =
        let (query_string, p1) = at_key (codes "QUERY_STRING") c.params in
        let (query_type, p2) = at_key (codes "CONTENT_TYPE") p1 in
        let (query_cookie, p3) = at_key (codes "HTTP_COOKIE") p2 in
        let (post_data, stdin) = take_posted c.stdin in
        (
          elim (cgi query_string query_cookie post_data query_type) [
            | none ↦ none
            | some d ↦ some (query_map d, header_map d p3)
          ],
          record c { params = p3; stdin = stdin },
        )

    -- The response is written to a new buffer.
    unfoldable pub stored_do_request : StoredCodec queue → List WriteResult → Outcome StoredReply
    stored_do_request c ws =
        let (arguments, c') = stored_arguments c in
        elim arguments [
          | none ↦ throws
          | some (qmap, header) ↦
              let (res, calls) = print_request qmap header in
              with_stored c' calls (stored_write (stored_respond queue res empty) ws [])
        ]

    -- What `readData` does behind `doRequest`.
    abbrev pub stored_finish : Outcome StoredReply → Outcome StoredReply
    stored_finish (returns r) =
        let c = r.codec in
        let c' : StoredCodec queue = record c {
          stdin = retrieve_all c.stdin;
          params_stream = retrieve_all c.params_stream;
          params = [];
          got_request = false;
        } in
        returns (record {
          code = (if not c'.keep_conn && is_ok r.code then err_socket_finish else r.code);
          sent = r.sent;
          calls = r.calls;
          codec = c';
        })
    stored_finish throws = throws
    stored_finish waits = waits

    abbrev pub stored_no_request : ErrorCode → StoredCodec queue → Outcome StoredReply
    stored_no_request code c = returns (record { code = code; sent = []; calls = []; codec = c })

    unfoldable pub stored_read_data :
        ReadResult → Bool → List WriteResult → StoredCodec queue → Outcome StoredReply
    stored_read_data (got (b ∷ bs)) errno_again ws c =
        let c' = parse_stored queue (fill_stored queue (b ∷ bs) c) in
        let answered = stored_finish (stored_do_request c' ws) in
        if c'.got_request then answered else stored_no_request err_socket_read c'
    stored_read_data (got []) errno_again ws c =
        stored_no_request (if errno_again then err_socket_eagain else err_socket_read) c
    stored_read_data read_failed errno_again ws c =
        stored_no_request (if errno_again then err_socket_eagain else err_socket_read) c
