-- ===== src/Cocgi/Stored/Params.antt =====
-- The parameters over a buffer against those over a list of bytes.
use fastcgi_async_or_corouti.Base.{
  ℕ, zero, suc, ◌+◌, ◌/◌, ◌%◌, ◌^◌, ◌≤◌, ◌<◌, ◌≡◌, refl, ap, ◌∙◌, Bool, false, Bytes, [], ◌∷◌,
  get_or, drop, take, length, length-drop, ltb, leb, leb→le, related_if, ◌==◌, arith,
}
use fastcgi_async_or_corouti.ByteQueue.{ByteQueue}
use fastcgi_async_or_corouti.Cocgi.Params.{
  minus_one, peek_int32, read_len, ParamState, take_pair, parse_round, parse_loop, parse_all_params,
}
use fastcgi_async_or_corouti.Cocgi.Params.Loop.{read_len_cases}
use fastcgi_async_or_corouti.Cocgi.Stored.{
  StoredParams, stored_len, stored_pair, stored_round, stored_loop, stored_params,
}

module _ (queue : ByteQueue) where
  open queue use {
    Queue, readable, peek, retrieve, Holds, readable-Holds, peek-Holds, retrieve-Holds,
  }

  -- The same length, and the same bytes left.
  pub record SameLen (r : ℕ × Queue) (e : ℕ × Bytes) : Type 0 where
    pub same_len : r.0 ≡ e.0
    pub holds : Holds r.1 e.1

  pub record SameParams (b : StoredParams queue) (st : ParamState) : Type 0 where
    pub holds : Holds b.stream st.stream
    pub same_params : b.params ≡ st.params

  pub record SameRound (r : Bool × StoredParams queue) (e : Bool × ParamState) : Type 0 where
    pub same_more : r.0 ≡ e.0
    pub same_state : SameParams r.1 e.1

  first_byte :
      (s : Queue) (xs : Bytes) → Holds s xs → 1 ≤ length xs → get_or (peek 1 s) 0 0 ≡ get_or xs 0 0
  first_byte s [] h le = absurd (omega arith)
  first_byte s (x ∷ xs) h le = ap (λ p. get_or p 0 0) (peek-Holds s (x ∷ xs) 1 h (omega arith))

  first_word : (xs : Bytes) → 4 ≤ length xs → peek_int32 (take 4 xs) ≡ peek_int32 xs
  unfolding peek_int32
  first_word [] h = absurd (omega arith)
  first_word (a ∷ []) h = absurd (omega arith)
  first_word (a ∷ b ∷ []) h = absurd (omega arith)
  first_word (a ∷ b ∷ c ∷ []) h = absurd (omega arith)
  first_word (a ∷ b ∷ c ∷ d ∷ xs) h = refl

  pub stored_len_lem :
      (s : Queue) (xs : Bytes) → Holds s xs → SameLen (stored_len queue s) (read_len xs)
  unfolding stored_len read_len
  stored_len_lem s xs h = rw (readable-Holds s xs h) (
      related_if SameLen (leb 1 (length xs))
        (λ e. rw (first_byte s xs h (leb→le 1 (length xs) e)) (
          related_if SameLen (get_or xs 0 0 / 128 % 2 == 1)
            (λ _.
              related_if SameLen (leb 4 (length xs))
                (λ le. record {
                  same_len =
                      ap (λ p. peek_int32 p % 2 ^ 31)
                        (peek-Holds s xs 4 h (leb→le 4 (length xs) le))
                      ∙ ap (λ w. w % 2 ^ 31) (first_word xs (leb→le 4 (length xs) le));
                  holds = retrieve-Holds 4 s xs h (leb→le 4 (length xs) le);
                })
                (λ _. record { same_len = refl; holds = h }))
            (λ _. record {
              same_len = refl;
              holds = retrieve-Holds 1 s xs h (leb→le 1 (length xs) e);
            })))
        (λ _. record { same_len = refl; holds = h }))

  pub stored_pair_lem :
      (m n : ℕ) (b : StoredParams queue) (st : ParamState)
      → m + n < 2 ^ 32
      → SameParams b st
      → SameRound (stored_pair queue m n b) (take_pair m n st)
  unfolding stored_pair take_pair
  stored_pair_lem m n b st small h = rw (readable-Holds b.stream st.stream h.holds) (
      related_if SameRound (leb ((m + n) % 2 ^ 32) (length st.stream))
        (λ e.
          let le : m + n ≤ length st.stream = ground arith in
          let rest = retrieve-Holds m b.stream st.stream h.holds (omega arith) in
          let room : n ≤ length (drop m st.stream) = omega (arith, length-drop m st.stream) in
          record {
            same_more = refl;
            same_state = record {
              holds = retrieve-Holds n (retrieve m b.stream) (drop m st.stream) rest room;
              same_params =
                  rw
                    (
                      peek-Holds b.stream st.stream m h.holds (omega arith),
                      peek-Holds (retrieve m b.stream) (drop m st.stream) n rest room,
                      h.same_params,
                    )
                    refl;
            };
          })
        (λ _. record { same_more = refl; same_state = h }))

  -- What a length can be for the round to go on.
  short_len : (xs : Bytes) → ((read_len xs).0 == minus_one) ≡ false → (read_len xs).0 < 2 ^ 31
  short_len xs e = ground (arith, read_len_cases xs)

  pub stored_round_lem :
      (b : StoredParams queue) (st : ParamState)
      → SameParams b st
      → SameRound (stored_round queue b) (parse_round st)
  unfolding stored_round parse_round
  stored_round_lem b st h =
      let first = stored_len_lem b.stream st.stream h.holds in
      let xs1 = (read_len st.stream).1 in
      let second = stored_len_lem (stored_len queue b.stream).1 xs1 first.holds in
      rw (first.same_len, second.same_len)
        (related_if SameRound ((read_len st.stream).0 == minus_one)
          (λ _. record {
            same_more = refl;
            same_state = record { holds = first.holds; same_params = h.same_params };
          })
          (λ e.
            related_if SameRound ((read_len xs1).0 == minus_one)
              (λ _. record {
                same_more = refl;
                same_state = record { holds = second.holds; same_params = h.same_params };
              })
              (λ e'.
                stored_pair_lem (read_len st.stream).0 (read_len xs1).0 _ _
                  (omega (arith, short_len st.stream e, short_len xs1 e'))
                  (record { holds = second.holds; same_params = h.same_params }))))

  pub stored_loop_lem :
      (fuel : ℕ) (b : StoredParams queue) (st : ParamState)
      → SameParams b st
      → SameRound (stored_loop queue fuel b) (parse_loop fuel st)
  unfolding stored_loop parse_loop
  stored_loop_lem zero b st h = record { same_more = refl; same_state = h }
  stored_loop_lem (suc fuel) b st h =
      let next = stored_round_lem b st h in
      rw (readable-Holds b.stream st.stream h.holds, next.same_more)
        (related_if SameRound (ltb 0 (length st.stream))
          (λ _.
            related_if SameRound (parse_round st).0
              (λ _.
                stored_loop_lem fuel (stored_round queue b).1 (parse_round st).1 next.same_state)
              (λ _. record { same_more = refl; same_state = next.same_state }))
          (λ _. record { same_more = refl; same_state = h }))

  pub stored_params_lem :
      (b : StoredParams queue) (st : ParamState)
      → SameParams b st
      → SameRound (stored_params queue b) (parse_all_params st)
  unfolding stored_params parse_all_params
  stored_params_lem b st h =
      rw (readable-Holds b.stream st.stream h.holds) (stored_loop_lem (length st.stream) b st h)
