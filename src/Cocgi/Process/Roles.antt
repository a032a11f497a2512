-- ===== src/Cocgi/Process/Roles.antt =====
-- What `main` makes of the processes that `fork` leaves it in.
use fastcgi_async_or_corouti.Base.{
  ℕ, zero, suc, ◌+◌, ◌-◌, ◌%◌, ◌^◌, ◌<◌, ◌≡◌, refl, ap, ◌∙◌, sym, ◌⊎◌, inl, inr, Bool, true, false,
  some, Bytes, List, [], ◌∷◌, ◌++◌, append_assoc, append-nil, replicate, ◌==◌, if◌then◌else◌, arith,
}
use fastcgi_async_or_corouti.Cocgi.Server.{start}
use fastcgi_async_or_corouti.Cocgi.Process.{
  minus_one, Fork, in_parent, in_child, Call, fork, wait, listen, System, set_non_block,
  create_tcp_socket, returns, serves, rounds, parent, child, fork_loop, after_forks, behind_socket,
  run_main, daemonize, main,
}

first_of : (forks : ℕ → Fork) (k : ℕ) (r : Fork) → forks (k + 0) ≡ r → forks k ≡ r
first_of forks k r h = let e : k + 0 ≡ k = omega arith in ap forks (sym e) ∙ h

from_zero : (forks : ℕ → Fork) (j : ℕ) (r : Fork) → forks j ≡ r → forks (0 + j) ≡ r
from_zero forks j r h = let e : 0 + j ≡ j = omega arith in ap forks e ∙ h

next_of : (forks : ℕ → Fork) (k j : ℕ) (r : Fork) → forks (k + suc j) ≡ r → forks (k + 1 + j) ≡ r
next_of forks k j r h = let e : k + 1 + j ≡ k + suc j = omega arith in ap forks e ∙ h

fork_loop-parents :
    (forks : ℕ → Fork) (m n k : ℕ)
    → ((j : ℕ) → j < m → forks (k + j) ≡ in_parent)
    → fork_loop forks (m + n) k
      ≡ ((fork_loop forks n (k + m)).0, replicate m fork ++ (fork_loop forks n (k + m)).1)
unfolding fork_loop
fork_loop-parents forks zero n k h =
    let e : k + 0 ≡ k = omega arith in let z : 0 + n ≡ n = omega arith in rw (e, z) refl
fork_loop-parents forks (suc m) n k h =
    let here : forks k ≡ in_parent = first_of forks k in_parent (h 0 (omega arith)) in
    let e : suc m + n ≡ suc (m + n) = omega arith in
    let f : k + suc m ≡ k + 1 + m = omega arith in
    let later =
      fork_loop-parents forks m n (k + 1)
        (λ j l. next_of forks k j in_parent (h (suc j) (omega (arith, l)))) in
    rw (e, f) (ground (arith, here, later))

-- The calls that make the descriptor listen.
abbrev pub setup : System → Bytes → ℕ → List Call
setup sys ip port =
    (create_tcp_socket sys (port % 2 ^ 16) (some ip) true).1
    ++ (listen sys.socket_result 1024 ∷ set_non_block sys sys.socket_result)

-- The system has given a descriptor, and bound it where a port other than 0 is asked for.
pub record HasSocket (sys : System) (port : ℕ) : Type 0 where
  pub opened : sys.socket_result < 2 ^ 31
  pub bound : (port % 2 ^ 16 ≡ 0) ⊎ (sys.bind_result ≡ 0)

create_tcp_socket-fd :
    (sys : System) (ip : Bytes) (port : ℕ)
    → HasSocket sys port
    → (create_tcp_socket sys (port % 2 ^ 16) (some ip) true).0 ≡ sys.socket_result
unfolding create_tcp_socket
create_tcp_socket-fd sys ip port h = elim h.bound [
  | inl e ↦ ground (arith, e, h.opened)
  | inr e ↦ ground (arith, e, h.opened)
]

behind_socket-forks :
    (sys : System) (calls : List Call) (cnt proccnt : ℕ) (is_daemon : Bool)
    → sys.socket_result < 2 ^ 31
    → let forked = fork_loop sys.fork_result (rounds proccnt) 0 in
      let ended = after_forks sys.socket_result cnt is_daemon forked.0 in
      behind_socket sys cnt proccnt is_daemon (sys.socket_result, calls) ≡ (
        ended.0,
        (calls ++ (listen sys.socket_result 1024 ∷ set_non_block sys sys.socket_result))
            ++ (forked.1 ++ ended.1),
      )
unfolding behind_socket
behind_socket-forks sys calls cnt proccnt is_daemon h =
    let e : (sys.socket_result == minus_one) ≡ false = ground (arith, h) in rw e (simp append_assoc)

run_main-forks :
    (sys : System) (ip : Bytes) (port cnt proccnt : ℕ) (is_daemon : Bool)
    → HasSocket sys port
    → let forked = fork_loop sys.fork_result (rounds proccnt) 0 in
      let ended = after_forks sys.socket_result cnt is_daemon forked.0 in
      run_main sys ip port cnt proccnt is_daemon
      ≡ (ended.0, setup sys ip port ++ (forked.1 ++ ended.1))
unfolding run_main
run_main-forks sys ip port cnt proccnt is_daemon h =
    let created = create_tcp_socket sys (port % 2 ^ 16) (some ip) true in
    ap (λ fd. behind_socket sys cnt proccnt is_daemon (fd, created.1))
      (create_tcp_socket-fd sys ip port h)
    ∙ behind_socket-forks sys created.1 cnt proccnt is_daemon h.opened

fork_loop-first :
    (forks : ℕ → Fork) (n k : ℕ)
    → forks k ≡ in_child
    → fork_loop forks (suc n) k ≡ (child, fork ∷ [])
unfolding fork_loop
fork_loop-first forks n k h = ground (arith, h)

replicate_last : (n : ℕ) → replicate n fork ++ (fork ∷ []) ≡ replicate (suc n) fork
replicate_last zero = refl
replicate_last (suc n) = ap (λ t. fork ∷ t) (replicate_last n)

fork_loop-child :
    (forks : ℕ → Fork) (n k : ℕ)
    → k < n
    → ((j : ℕ) → j < k → forks j ≡ in_parent)
    → forks k ≡ in_child
    → fork_loop forks n 0 ≡ (child, replicate (suc k) fork)
fork_loop-child forks n k l parents first =
    let e : k + suc (n - suc k) ≡ n = omega (arith, l) in
    let z : 0 + k ≡ k = omega arith in
    let now = fork_loop-first forks (n - suc k) k first in
    ap (λ x. fork_loop forks x 0) (sym e)
    ∙ fork_loop-parents forks k (suc (n - suc k)) 0
        (λ j m. from_zero forks j in_parent (parents j m))
    ∙ ap
        (λ x. (
          (fork_loop forks (suc (n - suc k)) x).0,
          replicate k fork ++ (fork_loop forks (suc (n - suc k)) x).1,
        ))
        z
    ∙ ap (λ r. (r.0, replicate k fork ++ r.1)) now
    ∙ ap (λ r. (child, r)) (replicate_last k)

fork_loop-parent :
    (forks : ℕ → Fork) (n : ℕ)
    → ((j : ℕ) → j < n → forks j ≡ in_parent)
    → fork_loop forks n 0 ≡ (parent, replicate n fork)
unfolding fork_loop
fork_loop-parent forks n parents =
    let e : n + 0 ≡ n = omega arith in
    ap (λ x. fork_loop forks x 0) (sym e)
    ∙ fork_loop-parents forks n 0 0 (λ j m. from_zero forks j in_parent (parents j m))
    ∙ ap (λ r. (parent, r)) (append-nil (replicate n fork))

-- Where `socket` gives a descriptor, and `bind` accepts it if a port other than 0 is asked for, a child
-- in which `fork` returns, the earlier calls of it having returned in the parent, serves the descriptor
-- with all its tasks waiting; the calls that made it listen and not block stand before those of `fork`,
-- and the child forks no more.
pub main_serves :
    (sys : System) (name ip port cnt proccnt : Bytes) (more : List Bytes) (k : ℕ)
    → HasSocket sys (sys.atoi port)
    → k < rounds (sys.atoi proccnt)
    → ((j : ℕ) → j < k → sys.fork_result j ≡ in_parent)
    → sys.fork_result k ≡ in_child
    → main sys (name ∷ ip ∷ port ∷ cnt ∷ proccnt ∷ more) ≡ (
      serves sys.socket_result (start (rounds (sys.atoi cnt))),
      setup sys ip (sys.atoi port) ++ replicate (suc k) fork,
    )
unfolding main after_forks
main_serves sys name ip port cnt proccnt more k h l parents first =
    run_main-forks sys ip (sys.atoi port) (sys.atoi cnt) (sys.atoi proccnt) _ h
    ∙ rw (fork_loop-child sys.fork_result (rounds (sys.atoi proccnt)) k l parents first)
        (simp append-nil)

-- The process that is the parent of every child returns 0, having forked as often as its argument says
-- and, unless the argument behind that is `-d`, waited once.
pub main_parent :
    (sys : System) (name ip port cnt proccnt : Bytes) (more : List Bytes)
    → HasSocket sys (sys.atoi port)
    → ((j : ℕ) → j < rounds (sys.atoi proccnt) → sys.fork_result j ≡ in_parent)
    → main sys (name ∷ ip ∷ port ∷ cnt ∷ proccnt ∷ more) ≡ (
      returns 0,
      setup sys ip (sys.atoi port)
          ++ (replicate (rounds (sys.atoi proccnt)) fork
              ++ (if daemonize more then [] else (wait ∷ []))),
    )
unfolding main after_forks
main_parent sys name ip port cnt proccnt more h parents =
    run_main-forks sys ip (sys.atoi port) (sys.atoi cnt) (sys.atoi proccnt) _ h
    ∙ rw (fork_loop-parent sys.fork_result (rounds (sys.atoi proccnt)) parents) refl
