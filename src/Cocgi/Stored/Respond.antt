-- ===== src/Cocgi/Stored/Respond.antt =====
-- `respond`, `endStdout` and `endRequest` of cocgi/fastcgi.cpp over a buffer of its own.
use fastcgi_async_or_corouti.Base.{
  ℕ, zero, suc, ◌+◌, ◌-◌, ◌*◌, ◌/◌, ◌%◌, ◌^◌, Bytes, length, take, drop, replicate, related_if, leb,
  ◌==◌, if◌then◌else◌,
}
use fastcgi_async_or_corouti.ByteQueue.{ByteQueue}
use fastcgi_async_or_corouti.Endian.{hton16, hton32, store32}
use fastcgi_async_or_corouti.Cocgi.Kind
use fastcgi_async_or_corouti.Cocgi.Header.{record_header, store_header}
use fastcgi_async_or_corouti.Cocgi.Respond.{
  max_content_length, padding_of, end_stdout, end_request, append_stdout, full_records,
  append_output, output_or_default, respond,
}

module _ (queue : ByteQueue) where
  open queue use {Queue, append, Holds, append-Holds}

  unfoldable pub stored_end_stdout : Queue → Queue
  stored_end_stdout q =
      append
        (store_header (record {
          version = 1;
          type = Kind.stdout;
          id = hton16 1;
          content_length = 0;
          padding = 0;
          unused = 0;
        }))
        q

  abbrev pub stored_int32 : ℕ → Queue → Queue
  stored_int32 x q = append (store32 (hton32 x)) q

  unfoldable pub stored_end_request : Queue → Queue
  stored_end_request q =
      let header =
        append
          (store_header (record {
            version = 1;
            type = Kind.end_request;
            id = hton16 1;
            content_length = hton16 record_header;
            padding = 0;
            unused = 0;
          }))
          q in
      stored_int32 0 (stored_int32 0 header)

  -- A header of `FCGI_STDOUT`, the content and its padding, by three calls of `append`.
  unfoldable pub stored_stdout : ℕ → ℕ → Bytes → Queue → Queue
  stored_stdout content_length padding content q =
      let header =
        append
          (store_header (record {
            version = 1;
            type = Kind.stdout;
            id = hton16 1;
            content_length = hton16 content_length;
            padding = padding;
            unused = 0;
          }))
          q in
      append (replicate padding 0) (append content header)

  abbrev pub stored_short : Bytes → Queue → Queue
  stored_short content q =
      stored_stdout (length content % 2 ^ 16) (padding_of (length content)) content q

  -- The `for` loop over the full records.
  unfoldable pub stored_full : ℕ → ℕ → Bytes → Queue → Queue
  stored_full zero i out q = q
  stored_full (suc n) i out q =
      let part = take max_content_length (drop (i * max_content_length) out) in
      stored_full n (i + 1) out
        (stored_stdout max_content_length ((2 ^ 32 - max_content_length) % 8) part q)

  unfoldable pub stored_output : Bytes → Queue → Queue
  stored_output out q =
      if leb (length out) max_content_length
      then stored_short out q
      else let count = length out / max_content_length in
        let full = stored_full count 0 out q in
        if length out % max_content_length == 0
        then full
        else stored_short (drop (max_content_length * count) out) full

  unfoldable pub stored_respond : Bytes → Queue → Queue
  stored_respond out q =
      stored_end_request (stored_end_stdout (stored_output (output_or_default out) q))

  end_stdout_lem :
      (q : Queue) (xs : Bytes) → Holds q xs → Holds (stored_end_stdout q) (end_stdout xs)
  unfolding stored_end_stdout end_stdout
  end_stdout_lem q xs h = append-Holds _ q xs h

  end_request_lem :
      (q : Queue) (xs : Bytes) → Holds q xs → Holds (stored_end_request q) (end_request xs)
  unfolding stored_end_request end_request
  end_request_lem q xs h = append-Holds _ _ _ (append-Holds _ _ _ (append-Holds _ q xs h))

  stdout_lem :
      (n pad : ℕ) (content : Bytes) (q : Queue) (xs : Bytes)
      → Holds q xs
      → Holds (stored_stdout n pad content q) (append_stdout n pad content xs)
  unfolding stored_stdout append_stdout
  stdout_lem n pad content q xs h = append-Holds _ _ _ (append-Holds _ _ _ (append-Holds _ q xs h))

  full_lem :
      (n i : ℕ) (out : Bytes) (q : Queue) (xs : Bytes)
      → Holds q xs
      → Holds (stored_full n i out q) (full_records n i out xs)
  unfolding stored_full full_records
  full_lem zero i out q xs h = h
  full_lem (suc n) i out q xs h = full_lem n (i + 1) out _ _ (stdout_lem _ _ _ q xs h)

  output_lem :
      (out : Bytes) (q : Queue) (xs : Bytes)
      → Holds q xs
      → Holds (stored_output out q) (append_output out xs)
  unfolding stored_output append_output
  output_lem out q xs h =
      let full = full_lem (length out / max_content_length) 0 out q xs h in
      related_if Holds (leb (length out) max_content_length) (λ _. stdout_lem _ _ out q xs h)
        (λ _.
          related_if Holds (length out % max_content_length == 0) (λ _. full)
            (λ _. stdout_lem _ _ _ _ _ full))

  pub stored_respond_lem :
      (out : Bytes) (q : Queue) (xs : Bytes)
      → Holds q xs
      → Holds (stored_respond out q) (respond out xs)
  unfolding stored_respond respond
  stored_respond_lem out q xs h =
      end_request_lem _ _ (end_stdout_lem _ _ (output_lem (output_or_default out) q xs h))
