-- ===== src/Buffer/Write.antt =====
-- What the writing operations of the buffer make of its content.
use mathlib.Core.Path.{ap₂, subst}
use fastcgi_async_or_corouti.Base.{
  ℕ, ◌+◌, ◌-◌, ◌≤◌, ◌<◌, ◌≡◌, sym, ◌∙◌, ap, Bytes, [], ◌++◌, append_assoc, length, take, drop,
  replicate, length-append, length-take, length-drop, length-replicate, drop-append_self,
  take-append_le, take_all, take-append-drop, ltb, leb, ltb→lt, leb→le, Bool-cases, inl, inr, arith,
}
use fastcgi_async_or_corouti.Buffer.{
  Buffer, cheap_prepend, initial_size, new_buffer, readable_bytes, writable_bytes,
  prependable_bytes, copy_to, resize, peek, make_space, ensure_writable_bytes, unwrite, append,
  prepend, shrink, read_fd,
}
use fastcgi_async_or_corouti.Buffer.Content.{
  Holds, copy_to-append, length-Holds, content-Holds, grow-Holds, move-Holds, new_buffer-Holds,
}

length-copy_to : (i : ℕ) (d s : Bytes) → i + length d ≤ length s → length (copy_to i d s) ≡ length s
length-copy_to i d s h = omega (
  arith,
  length-append (take i s) (d ++ drop (i + length d) s),
  length-append d (drop (i + length d) s),
  length-take i s,
  length-drop (i + length d) s,
)

length-resize : (n : ℕ) (s : Bytes) → length s ≤ n → length (resize n s) ≡ n
length-resize n s h = omega (
  arith,
  length-append (take n s) (replicate (n - length s) 0),
  length-take n s,
  length-replicate {A = ℕ} (n - length s) 0,
)

-- `ensureWritableBytes` keeps the content and makes the room.
pub record HasRoom (len : ℕ) (xs : Bytes) (b : Buffer) : Type 0 where
  pub holds : Holds b xs
  pub room : len ≤ writable_bytes b

room_moved :
    (len : ℕ) (b : Buffer) (xs : Bytes)
    → Holds b xs
    → len + cheap_prepend ≤ writable_bytes b + prependable_bytes b
    → len
      ≤ length
          (copy_to cheap_prepend (take (readable_bytes b) (drop b.reader_index b.buffer)) b.buffer)
        - (cheap_prepend + readable_bytes b)
room_moved len b xs h enough =
    let moved = take (readable_bytes b) (drop b.reader_index b.buffer) in
    let size : length moved ≡ length xs = ap length (content-Holds b xs h) in
    let total = length-Holds b xs h in
    let fits : cheap_prepend + length moved ≤ length b.buffer =
      omega (arith, size, total, enough, h.writes, h.reads) in
    omega (
      arith,
      length-copy_to cheap_prepend moved b.buffer fits,
      size,
      total,
      enough,
      h.writes,
      h.reads,
    )

make_space-HasRoom :
    (len : ℕ) (b : Buffer) (xs : Bytes)
    → Holds b xs
    → writable_bytes b < len
    → HasRoom len xs (make_space len b)
unfolding make_space
make_space-HasRoom len b xs h short =
    let total = length-Holds b xs h in
    elim (Bool-cases (ltb (writable_bytes b + prependable_bytes b) (len + cheap_prepend))) [
      | inl e ↦ rw e (record {
        holds = grow-Holds len b xs h (omega (arith, total, h.writes));
        room = omega (arith, total, h.writes, length-resize (b.writer_index + len) b.buffer);
      })
      | inr e ↦
          let enough : len + cheap_prepend ≤ writable_bytes b + prependable_bytes b =
            ground arith in
          rw e (record { holds = move-Holds b xs h; room = room_moved len b xs h enough })
    ]

pub ensure-HasRoom :
    (len : ℕ) (b : Buffer) (xs : Bytes) → Holds b xs → HasRoom len xs (ensure_writable_bytes len b)
unfolding ensure_writable_bytes
ensure-HasRoom len b xs h = elim (Bool-cases (ltb (writable_bytes b) len)) [
  | inl e ↦ rw e (make_space-HasRoom len b xs h (ltb→lt (writable_bytes b) len e))
  | inr e ↦ rw e (record { holds = h; room = ground arith })
]

-- Bytes written behind the content, where there is room for them.
write-Holds :
    (d : Bytes) (b : Buffer) (xs : Bytes)
    → HasRoom (length d) xs b
    → Holds
        (record b {
          buffer = copy_to b.writer_index d b.buffer;
          writer_index = b.writer_index + length d;
        })
        (xs ++ d)
write-Holds d b xs r =
    let h = r.holds in
    let total = length-Holds b xs h in
    record {
      front = h.front;
      back = drop (length d) h.back;
      same =
          ap (copy_to b.writer_index d) (h.same ∙ sym (append_assoc h.front xs h.back))
          ∙ copy_to-append (h.front ++ xs) d h.back b.writer_index
              (omega (arith, h.writes, length-append h.front xs))
          ∙ append_assoc h.front xs (d ++ drop (length d) h.back)
          ∙ ap (λ t. h.front ++ t) (sym (append_assoc xs d (drop (length d) h.back)));
      reads = h.reads;
      writes = omega (arith, h.writes, length-append xs d);
      room =
          let fits : b.writer_index + length d ≤ length b.buffer =
            omega (arith, r.room, total, h.writes) in
          omega (arith, length-copy_to b.writer_index d b.buffer fits, h.room);
    }

-- `append` puts the bytes behind the content, whatever room there was.
pub append-Holds : (d : Bytes) (b : Buffer) (xs : Bytes) → Holds b xs → Holds (append d b) (xs ++ d)
unfolding append
append-Holds d b xs h =
    write-Holds d (ensure_writable_bytes (length d) b) xs (ensure-HasRoom (length d) b xs h)

-- `prepend` puts the bytes in front, where there is room for them.
pub prepend-Holds :
    (d : Bytes) (b : Buffer) (xs : Bytes)
    → Holds b xs
    → length d ≤ prependable_bytes b
    → Holds (prepend d b) (d ++ xs)
unfolding prepend
prepend-Holds d b xs h fits =
    let i = b.reader_index - length d in
    let before : take i (h.front ++ (xs ++ h.back)) ≡ take i h.front =
      take-append_le i h.front (xs ++ h.back) (omega (arith, h.reads)) in
    let index : i + length d ≡ length h.front = omega (arith, h.reads, fits) in
    let behind : drop (i + length d) (h.front ++ (xs ++ h.back)) ≡ xs ++ h.back =
      ap (λ n. drop n (h.front ++ (xs ++ h.back))) index
      ∙ drop-append_self h.front (xs ++ h.back) in
    record {
      front = take i h.front;
      back = h.back;
      same =
          ap (copy_to i d) h.same
          ∙ ap₂ (λ u v. u ++ (d ++ v)) before behind
          ∙ ap (λ t. take i h.front ++ t) (sym (append_assoc d xs h.back));
      reads = omega (arith, h.reads, length-take i h.front);
      writes = omega (arith, h.reads, h.writes, fits, length-take i h.front, length-append d xs);
      room = omega (
        arith,
        h.room,
        length-copy_to i d b.buffer (omega (arith, fits, length-Holds b xs h, h.reads)),
      );
    }

-- `unwrite` takes bytes off the back.
pub unwrite-Holds :
    (n : ℕ) (b : Buffer) (xs ys : Bytes)
    → Holds b (xs ++ ys)
    → length ys ≡ n
    → Holds (unwrite n b) xs
unfolding unwrite
unwrite-Holds n b xs ys h e = record {
  front = h.front;
  back = ys ++ h.back;
  same = h.same ∙ ap (λ t. h.front ++ t) (append_assoc xs ys h.back);
  reads = h.reads;
  writes = omega (arith, h.writes, length-append xs ys);
  room = h.room;
}

-- `shrink` keeps the content.
pub shrink-Holds : (n : ℕ) (b : Buffer) (xs : Bytes) → Holds b xs → Holds (shrink n b) xs
unfolding shrink peek
shrink-Holds n b xs h = rw (content-Holds b xs h) (
    append-Holds xs _ []
      (ensure-HasRoom (readable_bytes b + n) (new_buffer initial_size) []
        (new_buffer-Holds initial_size)).holds)

read_fd_overflow :
    (d : Bytes) (b : Buffer) (xs : Bytes)
    → Holds b xs
    → writable_bytes b < length d
    → let w = writable_bytes b in
      let written = copy_to b.writer_index (take w d) b.buffer in
      Holds
        (append (drop w d) (record b { buffer = written; writer_index = length written }))
        (xs ++ d)
read_fd_overflow d b xs h more =
    let w = writable_bytes b in
    let total = length-Holds b xs h in
    let size : length (take w d) ≡ w = omega (arith, length-take w d, more) in
    let fits : b.writer_index + length (take w d) ≤ length b.buffer =
      omega (arith, size, total, h.writes) in
    let full : b.writer_index + length (take w d)
        ≡ length (copy_to b.writer_index (take w d) b.buffer) =
      omega
        (arith, length-copy_to b.writer_index (take w d) b.buffer fits, size, total, h.writes) in
    let first = write-Holds (take w d) b xs (record { holds = h; room = omega (arith, size) }) in
    let joined : (xs ++ take w d) ++ drop w d ≡ xs ++ d =
      append_assoc xs (take w d) (drop w d) ∙ ap (λ t. xs ++ t) (take-append-drop w d) in
    subst
      (λ n.
        Holds
          (append (drop w d)
            (record b { buffer = copy_to b.writer_index (take w d) b.buffer; writer_index = n }))
          (xs ++ d))
      full (subst (Holds _) joined (append-Holds (drop w d) _ (xs ++ take w d) first))

-- `readFd` puts what was read behind the content, the part that did not fit included.
pub read_fd-Holds :
    (d : Bytes) (b : Buffer) (xs : Bytes) → Holds b xs → Holds (read_fd d b) (xs ++ d)
unfolding read_fd
read_fd-Holds d b xs h = elim (Bool-cases (leb (length d) (writable_bytes b))) [
  | inl e ↦
      rw (e, take_all (writable_bytes b) d (leb→le (length d) (writable_bytes b) e))
        (write-Holds d b xs (record { holds = h; room = leb→le (length d) (writable_bytes b) e }))
  | inr e ↦ rw e (read_fd_overflow d b xs h (ground arith))
]
