-- ===== src/Cocgi/Session/Writes.antt =====
-- The loop of `doRequest` that writes the response.
use fastcgi_async_or_corouti.Base.{
  ◌≤◌, ◌<◌, ◌≡◌, refl, ◌∙◌, ap, true, false, Bytes, List, [], ◌∷◌, ◌++◌, append-nil, append_assoc,
  All, length, take, drop, length-drop, take-append-drop, arith,
}
use fastcgi_async_or_corouti.Cocgi.Session.{
  ErrorCode, err_ok, err_socket_write, err_socket_eagain, WriteResult, wrote, write_failed, Outcome,
  returns, waits, write_loop,
}

-- What the loop has sent when it returns: all of the response if it returns ERR_OK; else a part of it
-- from the front, with something left.
pub data Sent (response sent : Bytes) : Outcome (ErrorCode × Bytes) → Type 0 where
  whole :
      {o : Outcome (ErrorCode × Bytes)}
      → o ≡ returns (err_ok, sent ++ response)
      → Sent response sent o
  blocked :
      {o : Outcome (ErrorCode × Bytes)} (front back : Bytes)
      → front ++ back ≡ response
      → 0 < length back
      → o ≡ returns (err_socket_eagain, sent ++ front)
      → Sent response sent o
  broken :
      {o : Outcome (ErrorCode × Bytes)} (front back : Bytes)
      → front ++ back ≡ response
      → 0 < length back
      → o ≡ returns (err_socket_write, sent ++ front)
      → Sent response sent o
  unfinished : {o : Outcome (ErrorCode × Bytes)} → o ≡ waits → Sent response sent o

Sent-more :
    (front response sent : Bytes) (o : Outcome (ErrorCode × Bytes))
    → Sent response (sent ++ front) o
    → Sent (front ++ response) sent o
Sent-more front response sent o (whole e) =
    whole (e ∙ ap (λ t. returns (err_ok, t)) (append_assoc sent front response))
Sent-more front response sent o (blocked f b p q e) =
    blocked (front ++ f) b (append_assoc front f b ∙ ap (λ t. front ++ t) p) q
      (e ∙ ap (λ t. returns (err_socket_eagain, t)) (append_assoc sent front f))
Sent-more front response sent o (broken f b p q e) =
    broken (front ++ f) b (append_assoc front f b ∙ ap (λ t. front ++ t) p) q
      (e ∙ ap (λ t. returns (err_socket_write, t)) (append_assoc sent front f))
Sent-more front response sent o (unfinished e) = unfinished e

pub write_loop-Sent :
    (response : Bytes) (ws : List WriteResult) (sent : Bytes)
    → Sent response sent (write_loop response ws sent)
unfolding write_loop
write_loop-Sent [] ws sent = whole (rw append-nil)
write_loop-Sent (b ∷ bs) [] sent = unfinished refl
write_loop-Sent (b ∷ bs) (wrote n ∷ ws) sent =
    let more =
      Sent-more (take n (b ∷ bs)) (drop n (b ∷ bs)) sent _
        (write_loop-Sent (drop n (b ∷ bs)) ws (sent ++ take n (b ∷ bs))) in
    rw (take-append-drop n (b ∷ bs)) at more
write_loop-Sent (b ∷ bs) (write_failed true ∷ ws) sent =
    blocked [] (b ∷ bs) refl (omega arith) (rw append-nil)
write_loop-Sent (b ∷ bs) (write_failed false ∷ ws) sent =
    broken [] (b ∷ bs) refl (omega arith) (rw append-nil)

-- A peer that takes at least a byte with each write.
abbrev pub Progresses : WriteResult → Type 0
Progresses (wrote n) = 0 < n
Progresses (write_failed again) = ⊥

-- A peer that takes at least a byte with each write is sent the whole response, and the loop returns
-- ERR_OK, if there are as many writes as the response has bytes.
pub write_loop_total :
    (response : Bytes) (ws : List WriteResult) (sent : Bytes)
    → All Progresses ws
    → length response ≤ length ws
    → write_loop response ws sent ≡ returns (err_ok, sent ++ response)
unfolding write_loop
write_loop_total [] ws sent h e = rw append-nil
write_loop_total (b ∷ bs) [] sent h e = absurd (omega arith)
write_loop_total (b ∷ bs) (wrote n ∷ ws) sent (hn, h) e =
    write_loop_total (drop n (b ∷ bs)) ws (sent ++ take n (b ∷ bs)) h
      (omega (arith, length-drop n (b ∷ bs)))
    ∙ ap (λ t. returns (err_ok, t))
        (append_assoc sent (take n (b ∷ bs)) (drop n (b ∷ bs))
          ∙ ap (λ t. sent ++ t) (take-append-drop n (b ∷ bs)))
write_loop_total (b ∷ bs) (write_failed again ∷ ws) sent (no_error, h) e = absurd no_error
