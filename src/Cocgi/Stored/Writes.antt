-- ===== src/Cocgi/Stored/Writes.antt =====
-- What is written from a buffer and what is taken out of it, against lists of bytes.
use fastcgi_async_or_corouti.Base.{
  ℕ, ◌≤◌, ◌≡◌, refl, sym, ap, ◌∙◌, Bool, Bool-cases, inl, inr, true, false, Bytes, List, [], ◌∷◌,
  ◌++◌, length, take, drop, take_all, drop_all, ltb, leb, if◌then◌else◌, arith,
}
use fastcgi_async_or_corouti.ByteQueue.{ByteQueue}
use fastcgi_async_or_corouti.Cocgi.Session.{
  err_ok, WriteResult, wrote, write_failed, returns, write_loop,
}
use fastcgi_async_or_corouti.Cocgi.Stored.Session.{at_most, stored_write, take_posted}

take-at_most : (m : ℕ) (xs : Bytes) → take (at_most m (length xs)) xs ≡ take m xs
take-at_most m xs = elim (Bool-cases (leb m (length xs))) [
  | inl e ↦ rw e refl
  | inr e ↦ rw e (take_all (length xs) xs (omega arith) ∙ sym (take_all m xs (ground (arith, e))))
]

drop-at_most : (m : ℕ) (xs : Bytes) → drop (at_most m (length xs)) xs ≡ drop m xs
drop-at_most m xs = elim (Bool-cases (leb m (length xs))) [
  | inl e ↦ rw e refl
  | inr e ↦ rw e (drop_all (length xs) xs (omega arith) ∙ sym (drop_all m xs (ground (arith, e))))
]

at_most-le : (m n : ℕ) → at_most m n ≤ n
at_most-le m n = ground arith

module _ (queue : ByteQueue) where
  open queue use {
    Queue, empty, readable, peek, retrieve, retrieve_all, Holds, empty-Holds, readable-Holds,
    peek-Holds, retrieve-Holds, retrieve_all-Holds, read_fd-Holds,
  }

  retrieve_some :
      (n : ℕ) (q : Queue) (xs : Bytes)
      → Holds q xs
      → n ≤ length xs
      → Holds (if ltb 0 n then retrieve n q else q) (drop n xs)
  retrieve_some n q xs h le = elim (Bool-cases (ltb 0 n)) [
    | inl e ↦ rw e (retrieve-Holds n q xs h le)
    | inr e ↦ let none_taken : n ≡ 0 = ground (arith, e) in rw (e, none_taken) h
  ]

  pub stored_write_lem :
      (ws : List WriteResult) (q : Queue) (xs sent : Bytes)
      → Holds q xs
      → stored_write queue q ws sent ≡ write_loop xs ws sent
  unfolding stored_write write_loop
  stored_write_lem [] q [] sent h = rw (readable-Holds q [] h) refl
  stored_write_lem [] q (b ∷ bs) sent h = rw (readable-Holds q (b ∷ bs) h) (ground arith)
  stored_write_lem (wrote m ∷ ws) q [] sent h = rw (readable-Holds q [] h) refl
  stored_write_lem (wrote m ∷ ws) q (b ∷ bs) sent h =
      let xs : Bytes = b ∷ bs in
      let n = at_most m (length xs) in
      let rest =
        stored_write_lem ws (if ltb 0 n then retrieve n q else q) (drop n xs) (sent ++ take n xs)
          (retrieve_some n q xs h (at_most-le m (length xs))) in
      let waiting : ltb 0 (length xs) ≡ true = ground arith in
      rw (readable-Holds q xs h, peek-Holds q xs n h (at_most-le m (length xs)))
        (ap
            (λ t.
              if t
              then stored_write queue (if ltb 0 n then retrieve n q else q) ws (sent ++ take n xs)
              else returns (err_ok, sent))
            waiting
          ∙ rest
          ∙ ap (λ d. write_loop d ws (sent ++ take n xs)) (drop-at_most m xs)
          ∙ ap (λ t. write_loop (drop m xs) ws (sent ++ t)) (take-at_most m xs))
  stored_write_lem (write_failed true ∷ ws) q [] sent h = rw (readable-Holds q [] h) refl
  stored_write_lem (write_failed true ∷ ws) q (b ∷ bs) sent h =
      rw (readable-Holds q (b ∷ bs) h) (ground arith)
  stored_write_lem (write_failed false ∷ ws) q [] sent h = rw (readable-Holds q [] h) refl
  stored_write_lem (write_failed false ∷ ws) q (b ∷ bs) sent h =
      rw (readable-Holds q (b ∷ bs) h) (ground arith)

  nothing_held : (q : Queue) (xs : Bytes) → Holds q xs → ltb 0 (readable q) ≡ false → [] ≡ xs
  nothing_held q [] h e = refl
  nothing_held q (b ∷ bs) h e = absurd (ground (arith, e, readable-Holds q (b ∷ bs) h))

  all_taken : (q : Queue) (xs : Bytes) → Holds q xs → peek (readable q) q ≡ xs
  all_taken q xs h =
      ap (λ n. peek n q) (readable-Holds q xs h)
      ∙ peek-Holds q xs (length xs) h (omega arith)
      ∙ take_all (length xs) xs (omega arith)

  none_left : (q : Queue) (xs : Bytes) → Holds q xs → Holds (retrieve (readable q) q) []
  none_left q xs h =
      let left : Holds (retrieve (length xs) q) (drop (length xs) xs) =
        retrieve-Holds (length xs) q xs h (omega arith) in
      rw (readable-Holds q xs h) (rw (drop_all (length xs) xs (omega arith)) at left)

  pub take_posted_lem :
      (q : Queue) (xs : Bytes)
      → Holds q xs
      → ((take_posted queue q).0 ≡ xs) × Holds (take_posted queue q).1 []
  unfolding take_posted
  take_posted_lem q xs h = go (ltb 0 (readable q)) refl
    where
      go :
          (b : Bool)
          → ltb 0 (readable q) ≡ b
          → let r : Bytes × Queue =
              if b then (peek (readable q) q, retrieve (readable q) q) else ([], q) in
            (r.0 ≡ xs) × Holds r.1 []
      go true e = (all_taken q xs h, none_left q xs h)
      go false e = let empty_list = nothing_held q xs h e in (empty_list, rw empty_list h)
