-- ===== src/Tests/Server.antt =====
-- Runs of the model of cocgi/main.cpp, and the theorems about it at concrete inputs.
use fastcgi_async_or_corouti.Base.{◌≡◌, refl, false, none, some, List, [], ◌∷◌, replicate}
use fastcgi_async_or_corouti.Tests.Data.{one_element}
use fastcgi_async_or_corouti.Cocgi.Codec.{new_codec}
use fastcgi_async_or_corouti.Cocgi.Session.{err_socket_eagain, returns, got, read_data}
use fastcgi_async_or_corouti.Cocgi.Server.{
  Conn, Server, Event, accepts, polls, start, park, close_fd, hand_over, accept_round, after_read,
  continue_task, step, run,
}
use fastcgi_async_or_corouti.Cocgi.Server.Invariant.{IsValid, run-start-IsValid}
use fastcgi_async_or_corouti.Cocgi.Server.Descriptors.{Balanced, run-start-Balanced}
use fastcgi_async_or_corouti.Cocgi.Server.Timeout.{idle, Kept, idle_timeout}

-- Two connections come, the second task waits once, and the peer of the first closes.
abbrev events : List Event
events = accepts (some 7) ∷ accepts (some 8) ∷ idle 0 ∷ polls 1 (got []) false [] ∷ []

abbrev first : Conn
first = record { fd = 7; recycle = 0; fcgi = new_codec }

abbrev second : Conn
second = record { fd = 8; recycle = 0; fcgi = new_codec }

-- Both tasks serve a connection.
abbrev both : Server
both = accept_round (some 8) (accept_round (some 7) (start 2))

abbrev second_waits : Server
second_waits =
    continue_task 0 (record { code = err_socket_eagain; sent = []; calls = []; codec = new_codec })
      second both

abbrev first_closed : Server
first_closed = park 1 (close_fd 7 second_waits)

events-run : run one_element events (start 2) ≡ returns first_closed
unfolding run step read_data accept_round hand_over start park after_read continue_task
events-run = refl

run-start-IsValid_example : IsValid 2 first_closed
run-start-IsValid_example = run-start-IsValid one_element 2 events first_closed events-run

run-start-Balanced_example : Balanced 2 first_closed
run-start-Balanced_example = run-start-Balanced one_element 2 events first_closed events-run

first_serves : both.tasks 1 ≡ some first
unfolding accept_round hand_over start park
first_serves = refl

idle_timeout_example :
    (t u : Server) × (run one_element (replicate 60 (idle 1)) both ≡ returns t)
    × Kept 1 first 60 both t
    × (step one_element (idle 1) t ≡ returns u)
    × (u.closed ≡ 7 ∷ both.closed)
    × (u.ready ≡ 1 ∷ t.ready)
    × (u.tasks 1 ≡ none)
idle_timeout_example = idle_timeout one_element 1 first both first_serves refl
