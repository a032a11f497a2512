-- ===== src/Cocgi/Server/Descriptors.antt =====
-- Where the descriptors of connections are.
use fastcgi_async_or_corouti.Base.{
  ℕ, zero, suc, ◌+◌, ◌≤◌, ◌<◌, ◌≡◌, refl, ap, ◌∙◌, ◌⊎◌, inl, inr, Bool-cases, Option, none, some,
  List, [], ◌∷◌, ◌==◌, leb, if◌then◌else◌, arith,
}
use mathlib.Core.Path.{fun_ext}
use fastcgi_async_or_corouti.Cgi.{CgiParser}
use fastcgi_async_or_corouti.Cocgi.Session.{
  ErrorCode, err_ok, err_socket_read, err_socket_write, err_socket_finish, err_socket_eagain,
  returns, Reply,
}
use fastcgi_async_or_corouti.Cocgi.Codec.{new_codec}
use fastcgi_async_or_corouti.Cocgi.Server.{
  max_recycle_count, Conn, Server, update, start, accept_round, after_read, continue_task, Event,
  step, run,
}
use fastcgi_async_or_corouti.Cocgi.Server.Invariant.{
  count, IsValid, StepCase, accepted, not_serving, served, step-case, start-IsValid, step-IsValid,
  then_run-returns,
}

abbrev pub holds : ℕ → Option Conn → ℕ
holds fd none = 0
holds fd (some c) = if c.fd == fd then 1 else 0

-- How many of the tasks below `n` serve the descriptor `fd`.
unfoldable pub held : ℕ → (ℕ → Option Conn) → ℕ → ℕ
held zero f fd = 0
held (suc n) f fd = holds fd (f n) + held n f fd

held-update_above :
    (n k fd : ℕ) (f : ℕ → Option Conn) (v : Option Conn)
    → n ≤ k
    → held n (update f k v) fd ≡ held n f fd
unfolding held
held-update_above zero k fd f v h = refl
held-update_above (suc n) k fd f v h = ground (arith, held-update_above n k fd f v)

held-update :
    (n k fd : ℕ) (f : ℕ → Option Conn) (v : Option Conn)
    → k < n
    → held n (update f k v) fd + holds fd (f k) ≡ held n f fd + holds fd v
unfolding held
held-update zero k fd f v h = absurd (omega arith)
held-update (suc n) k fd f v h =
    ground (arith, held-update n k fd f v, held-update_above n k fd f v)

-- Each descriptor has been accepted as often as it has been closed and is held now.
abbrev pub Balanced : ℕ → Server → Type 0
Balanced n s = (fd : ℕ) → count fd s.accepted ≡ count fd s.closed + held n s.tasks fd

held_start : (n fd : ℕ) → held n (λ _. none) fd ≡ 0
unfolding held
held_start zero fd = refl
held_start (suc n) fd = omega (arith, held_start n fd)

abbrev fresh_conn : ℕ → Conn
fresh_conn d = record { fd = d; recycle = 0; fcgi = new_codec }

accept-Balanced :
    (n d : ℕ) (s : Server) (xs : List ℕ) (fd : ℕ)
    → s.ready ≡ xs
    → IsValid n s
    → Balanced n s
    → count fd (accept_round (some d) s).accepted
      ≡ count fd (accept_round (some d) s).closed + held n (accept_round (some d) s).tasks fd
unfolding accept_round count
accept-Balanced n d s [] fd e v b = ground (arith, b fd)
accept-Balanced n d s (k ∷ rest) fd e v b =
    ground (arith, b fd, v.once k, held-update n k fd s.tasks (some (fresh_conn d)))

accept_round-Balanced :
    (n : ℕ) (result : Option ℕ) (s : Server)
    → IsValid n s
    → Balanced n s
    → Balanced n (accept_round result s)
unfolding accept_round count
accept_round-Balanced n none s v b fd = ground (arith, b fd)
accept_round-Balanced n (some d) s v b fd = accept-Balanced n d s s.ready fd refl v b

-- The connection that is polled again is the one that was read.
after_read-fd :
    (code : ErrorCode) (conn : Conn)
    → (after_read code conn ≡ none)
      ⊎ ((c : Conn) × (after_read code conn ≡ some c) × (c.fd ≡ conn.fd))
unfolding after_read
after_read-fd err_ok conn = inr (record conn { recycle = 0 }, refl, refl)
after_read-fd err_socket_eagain conn = elim (Bool-cases (leb max_recycle_count conn.recycle)) [
  | inl e ↦ inl (rw e)
  | inr e ↦ inr (record conn { recycle = conn.recycle + 1 }, rw e, refl)
]
after_read-fd err_socket_read conn = inl refl
after_read-fd err_socket_write conn = inl refl
after_read-fd err_socket_finish conn = inl refl

continue_task-Balanced :
    (n k : ℕ) (r : Reply) (conn : Conn) (s : Server)
    → s.tasks k ≡ some conn
    → IsValid n s
    → Balanced n s
    → Balanced n (continue_task k r conn s)
unfolding continue_task count
continue_task-Balanced n k r conn s e v b fd =
    elim (after_read-fd r.code (record conn { fcgi = r.codec })) [
      | inl q ↦ ground (arith, b fd, v.once k, held-update n k fd s.tasks none)
      | inr (c, q, same) ↦ ground (arith, b fd, v.once k, held-update n k fd s.tasks (some c))
    ]

step-Balanced :
    (cgi : CgiParser) (n : ℕ) (e : Event) (s t : Server)
    → IsValid n s
    → Balanced n s
    → StepCase cgi s t e
    → Balanced n t
step-Balanced cgi n e s t v b (accepted result q) = rw q (accept_round-Balanced n result s v b)
step-Balanced cgi n e s t v b (not_serving _ q) = rw q b
step-Balanced cgi n e s t v b (served _ k conn r h q) =
    rw q (continue_task-Balanced n k r conn s h v b)

run-Balanced :
    (cgi : CgiParser) (n : ℕ) (es : List Event) (s t : Server)
    → IsValid n s
    → Balanced n s
    → run cgi es s ≡ returns t
    → Balanced n t
unfolding run
run-Balanced cgi n [] s t v b h = let q : s ≡ t = ground arith in rw (← q) b
run-Balanced cgi n (e ∷ es) s t v b h =
    let (u, first, rest) = then_run-returns (step cgi e s) (run cgi es) t h in
    let how = step-case cgi e s u first in
    run-Balanced cgi n es u t (step-IsValid cgi n e s u v how) (step-Balanced cgi n e s u v b how)
      rest

start-fields :
    (n : ℕ)
    → ((start n).accepted ≡ []) × ((start n).closed ≡ []) × ((k : ℕ) → (start n).tasks k ≡ none)
unfolding start
start-fields zero = (refl, refl, λ k. refl)
start-fields (suc n) = (
  ground (arith, start-fields n),
  ground (arith, start-fields n),
  λ k. ground (arith, (start-fields n).2 k),
)

start-Balanced : (n : ℕ) → Balanced n (start n)
unfolding count
start-Balanced n fd =
    let (a, c, t) = start-fields n in
    let none_held : held n (start n).tasks fd ≡ 0 =
      ap (λ f. held n f fd) (fun_ext t) ∙ held_start n fd in
    rw (a, c) (omega (arith, none_held))

-- In every state that a process of `n` tasks reaches, each descriptor has been accepted exactly as often
-- as `close` was called on it and tasks serve it now, taken together: none is lost, and none is closed
-- more often than it was accepted.
pub run-start-Balanced :
    (cgi : CgiParser) (n : ℕ) (es : List Event) (t : Server)
    → run cgi es (start n) ≡ returns t
    → Balanced n t
run-start-Balanced cgi n es t h =
    run-Balanced cgi n es (start n) t (start-IsValid n) (start-Balanced n) h
