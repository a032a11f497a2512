-- ===== src/Cocgi/Process/Sockets.antt =====
-- What `main` does with a socket that cannot be used.
use fastcgi_async_or_corouti.Base.{
  ℕ, ◌+◌, ◌^◌, ◌<◌, ◌≡◌, ◌≢◌, ◌⊎◌, Bool, some, Bytes, List, [], ◌∷◌, ◌==◌, if◌then◌else◌, arith,
}
use fastcgi_async_or_corouti.Cocgi.Process.{
  minus_one, is_negative, Call, bind_to, set_sockopt, set_flags, fork, wait, close, listen, System,
  create_tcp_socket,
}

-- How often a descriptor is closed.
unfoldable pub closes : ℕ → List Call → ℕ
closes fd [] = 0
closes fd (close d ∷ calls) = (if d == fd then 1 else 0) + closes fd calls
closes fd (set_sockopt d name ∷ calls) = closes fd calls
closes fd (bind_to d addr ∷ calls) = closes fd calls
closes fd (listen d backlog ∷ calls) = closes fd calls
closes fd (set_flags d flags ∷ calls) = closes fd calls
closes fd (fork ∷ calls) = closes fd calls
closes fd (wait ∷ calls) = closes fd calls

-- `CreateTcpSocket` returns the descriptor that `socket` gave, still open, where it gave one and `bind`
-- accepts it or is not called; else it returns -1, and has closed the descriptor once if it got one.
pub create_tcp_socket_cases :
    (sys : System) (port : ℕ) (ip : Bytes) (reuse : Bool)
    → (sys.socket_result < 2 ^ 31) ⊎ (sys.socket_result ≡ minus_one)
    → let made = create_tcp_socket sys port (some ip) reuse in
      let is_bound = (port ≡ 0) ⊎ (sys.bind_result ≡ 0) in
      ((sys.socket_result < 2 ^ 31)
        × is_bound
        × (made.0 ≡ sys.socket_result)
        × (closes sys.socket_result made.1 ≡ 0))
      ⊎ (((sys.socket_result ≡ minus_one) ⊎ ((port ≢ 0) × (sys.bind_result ≢ 0)))
          × (made.0 ≡ minus_one)
          × (closes sys.socket_result made.1 ≡ (if is_negative sys.socket_result then 0 else 1)))
unfolding create_tcp_socket closes
create_tcp_socket_cases sys port ip reuse h = ground (arith, h)
