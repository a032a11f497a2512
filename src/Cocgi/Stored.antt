-- ===== src/Cocgi/Stored.antt =====
-- The class `FastCgiCodec` of cocgi over buffers of its own, by the operations that it calls on them.
pub mod Params
pub mod Records
pub mod Reads
pub mod Respond
pub mod Session
pub mod Writes
pub mod Answers
pub mod Connection
use fastcgi_async_or_corouti.Base.{
  ℕ, zero, suc, ◌+◌, ◌/◌, ◌%◌, ◌^◌, Bool, true, false, Bytes, ParamMap, [], assign, get_or, drop,
  take, ltb, leb, ◌==◌, if◌then◌else◌,
}
use fastcgi_async_or_corouti.ByteQueue.{ByteQueue}
use fastcgi_async_or_corouti.Endian.{hton16, load16}
use fastcgi_async_or_corouti.Cocgi.Kind
use fastcgi_async_or_corouti.Cocgi.Header.{RecordHeader, record_header, load_header}
use fastcgi_async_or_corouti.Cocgi.Params.{minus_one, int8_to_u32, peek_int32}
use fastcgi_async_or_corouti.Cocgi.Codec.{total_length}

module _ (queue : ByteQueue) where
  open queue use {Queue, empty, readable, peek, retrieve, append, read_fd}

  unfoldable pub stored_len : Queue → ℕ × Queue
  stored_len s =
      if leb 1 (readable s)
      then (let byte = get_or (peek 1 s) 0 0 in
          if byte / 128 % 2 == 1
          then (if leb 4 (readable s)
              then (peek_int32 (peek 4 s) % 2 ^ 31, retrieve 4 s)
              else (minus_one, s))
          else (int8_to_u32 byte, retrieve 1 s))
      else (minus_one, s)

  pub record StoredParams : Type 0 where
    pub stream : Queue
    pub params : ParamMap

  -- The part of a round behind the two lengths, by two calls of `retrieveAsString`.
  unfoldable pub stored_pair : ℕ → ℕ → StoredParams → Bool × StoredParams
  stored_pair name_len value_len st =
      if leb ((name_len + value_len) % 2 ^ 32) (readable st.stream)
      then (let name = peek name_len st.stream in
          let rest = retrieve name_len st.stream in
          let value = peek value_len rest in
          (true, record { stream = retrieve value_len rest; params = assign name value st.params }))
      else (false, st)

  unfoldable pub stored_round : StoredParams → Bool × StoredParams
  stored_round st =
      let (name_len, s1) = stored_len st.stream in
      if name_len == minus_one
      then (false, record st { stream = s1 })
      else let (value_len, s2) = stored_len s1 in
        if value_len == minus_one
        then (false, record st { stream = s2 })
        else stored_pair name_len value_len (record st { stream = s2 })

  unfoldable pub stored_loop : ℕ → StoredParams → Bool × StoredParams
  stored_loop zero st = (true, st)
  stored_loop (suc fuel) st =
      let (more, st') = stored_round st in
      let rest = stored_loop fuel st' in
      if ltb 0 (readable st.stream) then (if more then rest else (false, st')) else (true, st)

  unfoldable pub stored_params : StoredParams → Bool × StoredParams
  stored_params st = stored_loop (readable st.stream) st

  pub record StoredCodec : Type 0 where
    pub got_request : Bool
    pub keep_conn : Bool
    pub buf : Queue
    pub stdin : Queue
    pub params_stream : Queue
    pub params : ParamMap

  abbrev pub new_stored : StoredCodec
  new_stored = record {
    got_request = false;
    keep_conn = false;
    buf = empty;
    stdin = empty;
    params_stream = empty;
    params = [];
  }

  unfoldable pub stored_begin : RecordHeader → StoredCodec → StoredCodec
  stored_begin h c =
      if leb record_header h.content_length
      then (let p = peek 11 c.buf in
          if hton16 (load16 (get_or p 8 0) (get_or p 9 0)) == Kind.responder
          then record c { keep_conn = get_or p 10 0 == Kind.keep_conn }
          else c)
      else c

  -- The `len` bytes behind the header.
  abbrev pub content_of : ℕ → StoredCodec → Bytes
  content_of len c = drop record_header (peek (record_header + len) c.buf)

  unfoldable pub stored_on_params : ℕ → StoredCodec → StoredCodec
  stored_on_params len c =
      if ltb 0 len
      then record c { params_stream = append (content_of len c) c.params_stream }
      else let st = (stored_params (record { stream = c.params_stream; params = c.params })).1 in
        record c { params_stream = st.stream; params = st.params }

  unfoldable pub stored_on_stdin : ℕ → StoredCodec → StoredCodec
  stored_on_stdin len c =
      if ltb 0 len
      then record c { stdin = append (content_of len c) c.stdin }
      else record c { got_request = true }

  unfoldable pub stored_dispatch : RecordHeader → StoredCodec → StoredCodec
  stored_dispatch h c =
      if h.type == Kind.begin_request
      then stored_begin h c
      else if h.type == Kind.params
      then stored_on_params h.content_length c
      else if h.type == Kind.stdin
      then stored_on_stdin h.content_length c
      else c

  abbrev pub retrieve_record : ℕ → StoredCodec → StoredCodec
  retrieve_record n c = record c { buf = retrieve n c.buf }

  unfoldable pub stored_step : StoredCodec → Bool × StoredCodec
  stored_step c =
      if leb record_header (readable c.buf)
      then (let h = load_header (peek record_header c.buf) in
          if leb (total_length h) (readable c.buf)
          then (true, retrieve_record (total_length h) (stored_dispatch h c))
          else (false, c))
      else (false, c)

  unfoldable pub stored_packages : ℕ → StoredCodec → StoredCodec
  stored_packages zero c = c
  stored_packages (suc fuel) c =
      let (more, c') = stored_step c in
      let rest = stored_packages fuel c' in if more then rest else c

  unfoldable pub parse_stored : StoredCodec → StoredCodec
  parse_stored c = stored_packages (readable c.buf) c

  -- `readFd` has added these bytes.
  abbrev pub fill_stored : Bytes → StoredCodec → StoredCodec
  fill_stored b c = record c { buf = read_fd b c.buf }
