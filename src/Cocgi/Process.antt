-- ===== src/Cocgi/Process.antt =====
-- The processes of cocgi/main.cpp: `main`, `CreateTcpSocket`, `SetAddr` and `SetNonBlock`. What the
-- system calls return is an argument, and the calls that change something are logged in their order.
pub mod Sockets
pub mod Roles
use fastcgi_async_or_corouti.Base.{
  ℕ, zero, suc, ◌+◌, ◌-◌, ◌*◌, ◌/◌, ◌%◌, ◌^◌, Bool, true, false, ◌&&◌, ◌||◌, not, Option, none,
  some, Bytes, bytes_eq, List, [], ◌∷◌, ◌++◌, length, leb, ltb, ◌==◌, if◌then◌else◌, codes,
}
use fastcgi_async_or_corouti.Endian.{hton16, hton32}
use fastcgi_async_or_corouti.Cocgi.Server.{Server, start}

-- An `int` is its 32-bit pattern.
abbrev pub minus_one : ℕ
minus_one = 2 ^ 32 - 1

abbrev pub is_negative : ℕ → Bool
is_negative x = leb (2 ^ 31) x

-- `struct sockaddr_in`
pub record SockAddr : Type 0 where
  pub sin_family : ℕ
  pub sin_port : ℕ
  pub s_addr : ℕ

-- What `fork` returns.
pub data Fork : Type 0 where
  in_parent : Fork
  in_child : Fork
  failed : Fork

-- `set_sockopt fd name` turns on an option of `SOL_SOCKET`.
pub data Call : Type 0 where
  set_sockopt : ℕ → ℕ → Call
  bind_to : ℕ → SockAddr → Call
  close : ℕ → Call
  listen : ℕ → ℕ → Call
  set_flags : ℕ → ℕ → Call
  fork : Call
  wait : Call

-- What the system gives `main`: the results of `socket`, `bind` and `fcntl` with `F_GETFL`, and of each
-- `fork` in turn; and two functions of the C library.
pub record System : Type 0 where
  pub socket_result : ℕ
  pub bind_result : ℕ
  pub flags_result : ℕ
  pub fork_result : ℕ → Fork
  pub inet_addr : Bytes → ℕ
  pub atoi : Bytes → ℕ

-- `AF_INET`, `SO_REUSEADDR`, `SO_REUSEPORT` and `O_NONBLOCK` of Linux, where `O_NDELAY` is `O_NONBLOCK`.
abbrev pub af_inet : ℕ
af_inet = 2

abbrev pub so_reuseaddr : ℕ
so_reuseaddr = 2

abbrev pub so_reuseport : ℕ
so_reuseport = 15

abbrev pub o_nonblock : ℕ
o_nonblock = 2048

-- `flags | O_NONBLOCK`, a single bit.
unfoldable pub with_nonblock : ℕ → ℕ
with_nonblock flags = if flags / o_nonblock % 2 == 1 then flags else flags + o_nonblock

unfoldable pub set_non_block : System → ℕ → List Call
unfolding with_nonblock
set_non_block sys fd = set_flags fd (with_nonblock (with_nonblock sys.flags_result)) ∷ []

-- The names of the address that stands for all interfaces; `none` is a null pointer.
unfoldable pub is_any : Option Bytes → Bool
is_any none = true
is_any (some ip) =
    bytes_eq ip []
    || (bytes_eq ip (codes "0") || (bytes_eq ip (codes "0.0.0.0") || bytes_eq ip (codes "*")))

unfoldable pub set_addr : System → Option Bytes → ℕ → SockAddr
unfolding is_any
set_addr sys ip port = record {
  sin_family = af_inet;
  sin_port = hton16 port;
  s_addr = if is_any ip then hton32 0 else (elim ip [ none ↦ 0 | some s ↦ sys.inet_addr s ]);
}

-- The descriptor that `CreateTcpSocket` returns, and its calls behind `socket`.
unfoldable pub create_tcp_socket : System → ℕ → Option Bytes → Bool → ℕ × List Call
unfolding set_addr
create_tcp_socket sys port ip reuse =
    let fd = sys.socket_result in
    if is_negative fd
    then (fd, [])
    else if port == 0
    then (fd, [])
    else let options =
        (if reuse then set_sockopt fd so_reuseaddr ∷ [] else [])
        ++ (set_sockopt fd so_reuseport ∷ []) in
      let calls = options ++ (bind_to fd (set_addr sys ip port) ∷ []) in
      if sys.bind_result == 0 then (fd, calls) else (minus_one, calls ++ (close fd ∷ []))

-- How `main` ends: it returns, or the process runs the coroutines on the descriptor that listens, from the
-- state where each task has been resumed once, and leaves `co_eventloop` never.
pub data End : Type 0 where
  returns : ℕ → End
  serves : ℕ → Server → End

-- The rounds of a `for` loop from 0 below an `int`.
unfoldable pub rounds : ℕ → ℕ
rounds n = if is_negative n then 0 else n

-- The process that the loop of `fork` ends in: the parent, or a child on its first round.
pub data Side : Type 0 where
  parent : Side
  child : Side

-- The loop that forks, with the number of rounds left and of those made. A child never comes back to it.
unfoldable pub fork_loop : (ℕ → Fork) → ℕ → ℕ → Side × List Call
fork_loop forks zero k = (parent, [])
fork_loop forks (suc n) k =
    let rest = fork_loop forks n (k + 1) in
    elim (forks k) [
      | in_parent ↦ (rest.0, fork ∷ rest.1)
      | in_child ↦ (child, fork ∷ [])
      | failed ↦ (parent, fork ∷ [])
    ]

-- What is behind the loop: the coroutines in a child; in the parent `wait`, unless it is to be a daemon.
unfoldable pub after_forks : ℕ → ℕ → Bool → Side → End × List Call
after_forks fd cnt is_daemon parent = (returns 0, if is_daemon then [] else (wait ∷ []))
after_forks fd cnt is_daemon child = (serves fd (start (rounds cnt)), [])

-- `main` behind `CreateTcpSocket`, with its result and its calls.
unfoldable pub behind_socket : System → ℕ → ℕ → Bool → ℕ × List Call → End × List Call
behind_socket sys cnt proccnt is_daemon (fd, calls) =
    let listening = calls ++ (listen fd 1024 ∷ []) in
    let forked = fork_loop sys.fork_result (rounds proccnt) 0 in
    let ended = after_forks fd cnt is_daemon forked.0 in
    if fd == minus_one
    then (returns minus_one, listening)
    else (ended.0, listening ++ (set_non_block sys fd ++ (forked.1 ++ ended.1)))

-- `main` behind its arguments.
unfoldable pub run_main : System → Bytes → ℕ → ℕ → ℕ → Bool → End × List Call
run_main sys ip port cnt proccnt is_daemon =
    behind_socket sys cnt proccnt is_daemon (create_tcp_socket sys (port % 2 ^ 16) (some ip) true)

-- The last argument that `main` reads.
abbrev pub daemonize : List Bytes → Bool
daemonize [] = false
daemonize (x ∷ xs) = bytes_eq x (codes "-d")

-- The arguments begin with the name of the program.
unfoldable pub main : System → List Bytes → End × List Call
main sys (name ∷ ip ∷ port ∷ cnt ∷ proccnt ∷ more) =
    run_main sys ip (sys.atoi port) (sys.atoi cnt) (sys.atoi proccnt) (daemonize more)
main sys args = (returns minus_one, [])
