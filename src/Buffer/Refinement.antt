-- ===== src/Buffer/Refinement.antt =====
-- The buffer against a queue of bytes.
use fastcgi_async_or_corouti.Base.{
  ℕ, ◌-◌, ◌≤◌, ◌≡◌, refl, Option, none, some, Bytes, List, [], ◌∷◌, ◌++◌, length, take, drop,
  length-drop, take-append-drop, leb, if◌then◌else◌, arith,
}
use fastcgi_async_or_corouti.Buffer.{
  Buffer, new_buffer, readable_bytes, peek, retrieve_all, retrieve, ensure_writable_bytes, unwrite,
  append, shrink, read_fd,
}
use fastcgi_async_or_corouti.Buffer.Content.{
  Holds, readable-Holds, content-Holds, new_buffer-Holds, retrieve-Holds, retrieve_all-Holds,
}
use fastcgi_async_or_corouti.Buffer.Write.{
  ensure-HasRoom, append-Holds, unwrite-Holds, shrink-Holds, read_fd-Holds,
}

-- The calls that change a buffer, `prepend` apart.
pub data Call : Type 0 where
  appends reads : Bytes → Call
  retrieves unwrites shrinks ensures : ℕ → Call
  retrieves_all : Call

unfoldable pub call : Call → Buffer → Buffer
call (appends d) b = append d b
call (reads d) b = read_fd d b
call (retrieves n) b = retrieve n b
call (unwrites n) b = unwrite n b
call (shrinks n) b = shrink n b
call (ensures n) b = ensure_writable_bytes n b
call retrieves_all b = retrieve_all b

unfoldable pub calls : List Call → Buffer → Buffer
calls [] b = b
calls (c ∷ cs) b = calls cs (call c b)

-- What a queue of bytes promises: bytes go in behind, come off in front, and only bytes that are there
-- can be taken off at either end.
unfoldable pub queue_call : Call → Bytes → Option Bytes
queue_call (appends d) xs = some (xs ++ d)
queue_call (reads d) xs = some (xs ++ d)
queue_call (retrieves n) xs = if leb n (length xs) then some (drop n xs) else none
queue_call (unwrites n) xs = if leb n (length xs) then some (take (length xs - n) xs) else none
queue_call (shrinks n) xs = some xs
queue_call (ensures n) xs = some xs
queue_call retrieves_all xs = some []

unfoldable pub queue_calls : List Call → Bytes → Option Bytes
queue_calls [] xs = some xs
queue_calls (c ∷ cs) xs = elim (queue_call c xs) [ none ↦ none | some ys ↦ queue_calls cs ys ]

cut_back :
    (n : ℕ) (b : Buffer) (xs : Bytes)
    → Holds b xs
    → n ≤ length xs
    → Holds (unwrite n b) (take (length xs - n) xs)
cut_back n b xs h le =
    unwrite-Holds n b (take (length xs - n) xs) (drop (length xs - n) xs)
      (rw (take-append-drop (length xs - n) xs) h) (omega (arith, length-drop (length xs - n) xs))

-- A call that the queue allows gives what it says.
call-Holds :
    (c : Call) (b : Buffer) (xs ys : Bytes)
    → Holds b xs
    → queue_call c xs ≡ some ys
    → Holds (call c b) ys
unfolding call queue_call
call-Holds (appends d) b xs ys h e =
    let q : xs ++ d ≡ ys = ground arith in rw (← q) (append-Holds d b xs h)
call-Holds (reads d) b xs ys h e =
    let q : xs ++ d ≡ ys = ground arith in rw (← q) (read_fd-Holds d b xs h)
call-Holds (retrieves n) b xs ys h e =
    let q : (n ≤ length xs) × (drop n xs ≡ ys) = ground arith in
    rw (← q.1) (retrieve-Holds n b xs h q.0)
call-Holds (unwrites n) b xs ys h e =
    let q : (n ≤ length xs) × (take (length xs - n) xs ≡ ys) = ground arith in
    rw (← q.1) (cut_back n b xs h q.0)
call-Holds (shrinks n) b xs ys h e =
    let q : xs ≡ ys = ground arith in rw (← q) (shrink-Holds n b xs h)
call-Holds (ensures n) b xs ys h e =
    let q : xs ≡ ys = ground arith in rw (← q) (ensure-HasRoom n b xs h).holds
call-Holds retrieves_all b xs ys h e =
    let q : [] ≡ ys = ground arith in rw (← q) (retrieve_all-Holds b xs h)

-- A queue that allows calls allows the first of them, and the others behind it.
first_call :
    (o : Option Bytes) (cs : List Call) (ys : Bytes)
    → (elim o [ none ↦ none | some zs ↦ queue_calls cs zs ]) ≡ some ys
    → (zs : Bytes) × ((o ≡ some zs) × (queue_calls cs zs ≡ some ys))
first_call none cs ys r = absurd (cc)
first_call (some zs) cs ys r = (zs, (refl, r))

calls-Holds :
    (cs : List Call) (b : Buffer) (xs ys : Bytes)
    → Holds b xs
    → queue_calls cs xs ≡ some ys
    → Holds (calls cs b) ys
unfolding calls queue_calls
calls-Holds [] b xs ys h e = let q : xs ≡ ys = ground arith in rw (← q) h
calls-Holds (c ∷ cs) b xs ys h e =
    let q = first_call (queue_call c xs) cs ys e in
    calls-Holds cs (call c b) q.0 ys (call-Holds c b xs q.0 h q.1.0) q.1.1

-- After any calls on a new buffer that a queue of bytes allows, the readable bytes are those of the
-- queue, in number and in content: however the vector grew and its bytes were moved, none is lost,
-- doubled or out of order.
pub queue_refined :
    (n : ℕ) (cs : List Call) (ys : Bytes)
    → queue_calls cs [] ≡ some ys
    → (readable_bytes (calls cs (new_buffer n)) ≡ length ys)
      × (peek (readable_bytes (calls cs (new_buffer n))) (calls cs (new_buffer n)) ≡ ys)
unfolding peek
queue_refined n cs ys e =
    let h = calls-Holds cs (new_buffer n) [] ys (new_buffer-Holds n) e in
    (readable-Holds (calls cs (new_buffer n)) ys h, content-Holds (calls cs (new_buffer n)) ys h)
