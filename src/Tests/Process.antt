-- ===== src/Tests/Process.antt =====
-- Runs of the set-up in cocgi/main.cpp, and the theorems about it at concrete inputs.
use fastcgi_async_or_corouti.Base.{
  ℕ, ◌≡◌, ◌≢◌, ◌⊎◌, ◌<◌, ◌^◌, ◌%◌, inl, inr, refl, ◌==◌, true, some, if◌then◌else◌, Bytes, [], ◌∷◌,
  ◌++◌, replicate, codes, arith, bytes_eq,
}
use fastcgi_async_or_corouti.Endian.{hton16, hton32}
use fastcgi_async_or_corouti.Cocgi.Server.{start}
use fastcgi_async_or_corouti.Cocgi.Process.{
  minus_one, in_parent, in_child, set_sockopt, bind_to, listen, set_flags, fork, System, SockAddr,
  set_non_block, is_any, set_addr, with_nonblock, create_tcp_socket, returns, serves, rounds,
  fork_loop, after_forks, behind_socket, run_main, main,
}
use fastcgi_async_or_corouti.Cocgi.Process.Sockets.{closes, create_tcp_socket_cases}
use fastcgi_async_or_corouti.Cocgi.Process.Roles.{setup, HasSocket, main_serves}

-- A number of one digit.
abbrev digit : Bytes → ℕ
digit [] = 0
digit (c ∷ cs) = c % 16

-- The second `fork` returns in the child.
abbrev system : System
system = record {
  socket_result = 3;
  bind_result = 0;
  flags_result = 2;
  fork_result = λ k. if k == 1 then in_child else in_parent;
  inet_addr = λ s. 0x0100007f;
  atoi = digit;
}

abbrev parent_only : System
parent_only = record system { fork_result = λ k. in_parent }

abbrev address : SockAddr
address = record { sin_family = 2; sin_port = 0x0900; s_addr = 0x0100007f }

main_run :
    main parent_only
      (codes "cocgi" ∷ codes "127.0.0.1" ∷ codes "9" ∷ codes "2" ∷ codes "2" ∷ codes "-d" ∷ [])
    ≡ (
      returns 0,
      set_sockopt 3 2
          ∷ set_sockopt 3 15
          ∷ bind_to 3 address
          ∷ listen 3 1024
          ∷ set_flags 3 2050
          ∷ fork
          ∷ fork
          ∷ [],
    )
unfolding main run_main behind_socket create_tcp_socket set_addr is_any set_non_block with_nonblock
    fork_loop after_forks rounds bytes_eq hton16 hton32
main_run = refl

-- Too few arguments.
main_usage : main system (codes "cocgi" ∷ codes "*" ∷ []) ≡ (returns minus_one, [])
unfolding main
main_usage = refl

system-HasSocket : HasSocket system 9
system-HasSocket = record { opened = omega arith; bound = inr refl }

main_serves_example :
    main system (codes "cocgi" ∷ codes "*" ∷ codes "9" ∷ codes "4" ∷ codes "3" ∷ [])
    ≡ (serves 3 (start (rounds 4)), setup system (codes "*") 9 ++ replicate 2 fork)
unfolding rounds
main_serves_example =
    main_serves system (codes "cocgi") (codes "*") (codes "9") (codes "4") (codes "3") [] 1
      system-HasSocket (omega arith) (λ j l. ground arith) refl

-- `bind` fails.
abbrev refused : System
refused = record system { bind_result = minus_one }

abbrev port : ℕ
port = 9

create_tcp_socket_cases_example :
    let made = create_tcp_socket refused port (some []) true in
    ((refused.socket_result < 2 ^ 31)
      × ((port ≡ 0) ⊎ (refused.bind_result ≡ 0))
      × (made.0 ≡ refused.socket_result)
      × (closes refused.socket_result made.1 ≡ 0))
    ⊎ (((refused.socket_result ≡ minus_one) ⊎ ((port ≢ 0) × (refused.bind_result ≢ 0)))
        × (made.0 ≡ minus_one)
        × (closes refused.socket_result made.1 ≡ 1))
create_tcp_socket_cases_example = create_tcp_socket_cases refused port [] true (inl (omega arith))
