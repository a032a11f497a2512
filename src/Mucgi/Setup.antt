-- ===== src/Mucgi/Setup.antt =====
-- `main` of mucgi/main.cpp, up to the server that it starts.
use fastcgi_async_or_corouti.Base.{ℕ, ◌%◌, ◌^◌, Bytes, List, [], ◌∷◌}

-- The port that the server is made for, and the number of threads that `setThreadNum` is given.
pub record Setup : Type 0 where
  pub port : ℕ
  pub threads : ℕ

-- The two numbers that may be given, behind the name of the program; an `int` is its 32-bit pattern.
unfoldable pub main : (Bytes → ℕ) → List Bytes → Setup
main atoi [] = record { port = 19981; threads = 0 }
main atoi (name ∷ []) = record { port = 19981; threads = 0 }
main atoi (name ∷ port ∷ []) = record { port = atoi port % 2 ^ 16; threads = 0 }
main atoi (name ∷ port ∷ threads ∷ more) = record {
  port = atoi port % 2 ^ 16;
  threads = atoi threads;
}
