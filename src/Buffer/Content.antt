-- ===== src/Buffer/Content.antt =====
-- The buffer as a queue of bytes: what it holds, and what each operation makes of that.
use fastcgi_async_or_corouti.Base.{
  ℕ, ◌+◌, ◌-◌, ◌≤◌, ◌≡◌, refl, sym, ◌∙◌, ap, Bytes, [], ◌++◌, append_assoc, length, take, drop,
  replicate, length-append, length-take, length-drop, length-replicate, replicate_split,
  take-append_self, drop-append_self, take-append_le, take_all, drop_all, take-append-drop,
  drop-drop, ltb, Bool-cases, inl, inr, arith,
}
use fastcgi_async_or_corouti.Buffer.{
  Buffer, cheap_prepend, new_buffer, readable_bytes, copy_to, resize, peek, retrieve_all, retrieve,
}

-- The readable bytes are `xs`: they stand between the two indices, and the vector has room for the
-- bytes that are kept in front.
pub record Holds (b : Buffer) (xs : Bytes) : Type 0 where
  pub front : Bytes
  pub back : Bytes
  pub same : b.buffer ≡ front ++ (xs ++ back)
  pub reads : b.reader_index ≡ length front
  pub writes : b.writer_index ≡ length front + length xs
  pub room : cheap_prepend ≤ length b.buffer

pub copy_to-append :
    (u d v : Bytes) (i : ℕ) → i ≡ length u → copy_to i d (u ++ v) ≡ u ++ (d ++ drop (length d) v)
copy_to-append u d v i e =
    let first : take i (u ++ v) ≡ u = ap (λ n. take n (u ++ v)) e ∙ take-append_self u v in
    let second : drop (i + length d) (u ++ v) ≡ drop (length d) v =
      drop-drop (length u) (length d) (i + length d) (u ++ v) (omega arith)
      ∙ ap (drop (length d)) (drop-append_self u v) in
    ap (λ t. t ++ (d ++ drop (i + length d) (u ++ v))) first ∙ ap (λ t. u ++ (d ++ t)) second

pub readable-Holds : (b : Buffer) (xs : Bytes) → Holds b xs → readable_bytes b ≡ length xs
readable-Holds b xs h = omega (arith, h.reads, h.writes)

pub length-Holds :
    (b : Buffer) (xs : Bytes) (h : Holds b xs)
    → length b.buffer ≡ length h.front + length xs + length h.back
length-Holds b xs h =
    omega (arith, ap length h.same, length-append h.front (xs ++ h.back), length-append xs h.back)

-- `peek` shows the front of the content.
pub peek-Holds :
    (b : Buffer) (xs : Bytes) (n : ℕ) → Holds b xs → n ≤ length xs → peek n b ≡ take n xs
unfolding peek
peek-Holds b xs n h le =
    ap (λ i. take n (drop i b.buffer)) h.reads
    ∙ ap (λ t. take n (drop (length h.front) t)) h.same
    ∙ ap (take n) (drop-append_self h.front (xs ++ h.back))
    ∙ take-append_le n xs h.back le

pub new_buffer-Holds : (n : ℕ) → Holds (new_buffer n) []
unfolding new_buffer
new_buffer-Holds n = record {
  front = replicate cheap_prepend 0;
  back = replicate n 0;
  same = replicate_split cheap_prepend n (cheap_prepend + n) 0 refl;
  reads = refl;
  writes = refl;
  room = omega (arith, length-replicate {A = ℕ} (cheap_prepend + n) 0);
}

pub retrieve_all-Holds : (b : Buffer) (xs : Bytes) → Holds b xs → Holds (retrieve_all b) []
unfolding retrieve_all
retrieve_all-Holds b xs h = record {
  front = take cheap_prepend b.buffer;
  back = drop cheap_prepend b.buffer;
  same = sym (take-append-drop cheap_prepend b.buffer);
  reads = omega (arith, length-take cheap_prepend b.buffer, h.room);
  writes = omega (arith, length-take cheap_prepend b.buffer, h.room);
  room = h.room;
}

regroup : (u : Bytes) (n : ℕ) (xs v : Bytes) → u ++ (xs ++ v) ≡ (u ++ take n xs) ++ (drop n xs ++ v)
regroup u n xs v =
    ap (λ t. u ++ (t ++ v)) (sym (take-append-drop n xs))
    ∙ ap (λ t. u ++ t) (append_assoc (take n xs) (drop n xs) v)
    ∙ sym (append_assoc u (take n xs) (drop n xs ++ v))

-- `retrieve` takes bytes off the front.
pub retrieve-Holds :
    (n : ℕ) (b : Buffer) (xs : Bytes)
    → Holds b xs
    → n ≤ length xs
    → Holds (retrieve n b) (drop n xs)
unfolding retrieve
retrieve-Holds n b xs h le = elim (Bool-cases (ltb n (readable_bytes b))) [
  | inl e ↦ rw (e) (record {
    front = h.front ++ take n xs;
    back = h.back;
    same = h.same ∙ regroup h.front n xs h.back;
    reads = omega (arith, h.reads, length-append h.front (take n xs), length-take n xs);
    writes =
        omega
          (arith, h.writes, length-append h.front (take n xs), length-take n xs, length-drop n xs);
    room = h.room;
  })
  | inr e ↦
      rw (e, drop_all n xs (ground (arith, readable-Holds b xs h))) (retrieve_all-Holds b xs h)
]

pub grow-Holds :
    (len : ℕ) (b : Buffer) (xs : Bytes)
    → Holds b xs
    → length b.buffer ≤ b.writer_index + len
    → Holds (record b { buffer = resize (b.writer_index + len) b.buffer }) xs
grow-Holds len b xs h le =
    let zeros : Bytes = replicate (b.writer_index + len - length b.buffer) 0 in
    record {
      front = h.front;
      back = h.back ++ zeros;
      same =
          ap (λ t. t ++ zeros) (take_all (b.writer_index + len) b.buffer le ∙ h.same)
          ∙ append_assoc h.front (xs ++ h.back) zeros
          ∙ ap (λ t. h.front ++ t) (append_assoc xs h.back zeros);
      reads = h.reads;
      writes = h.writes;
      room = omega (
        arith,
        h.room,
        length-append (take (b.writer_index + len) b.buffer) zeros,
        length-take (b.writer_index + len) b.buffer,
      );
    }

pub content-Holds :
    (b : Buffer) (xs : Bytes)
    → Holds b xs
    → take (readable_bytes b) (drop b.reader_index b.buffer) ≡ xs
content-Holds b xs h =
    ap (λ n. take n (drop b.reader_index b.buffer)) (readable-Holds b xs h)
    ∙ unfold peek in
      peek-Holds b xs (length xs) h (omega arith) ∙ take_all (length xs) xs (omega arith)

pub move-Holds :
    (b : Buffer) (xs : Bytes)
    → Holds b xs
    → Holds
        (record {
          buffer =
              copy_to cheap_prepend
                (take (readable_bytes b) (drop b.reader_index b.buffer))
                b.buffer;
          reader_index = cheap_prepend;
          writer_index = cheap_prepend + readable_bytes b;
        })
        xs
move-Holds b xs h = rw (content-Holds b xs h) (record {
  front = take cheap_prepend b.buffer;
  back = drop (cheap_prepend + length xs) b.buffer;
  same = refl;
  reads = omega (arith, length-take cheap_prepend b.buffer, h.room);
  writes = omega (arith, length-take cheap_prepend b.buffer, h.room, readable-Holds b xs h);
  room = omega (
    arith,
    h.room,
    length-take cheap_prepend b.buffer,
    length-append (take cheap_prepend b.buffer) (xs ++ drop (cheap_prepend + length xs) b.buffer),
  );
})
