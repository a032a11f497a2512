-- ===== src/ByteQueue.antt =====
-- What the codecs ask of a buffer: the operations of `muduo::net::Buffer` that they call, and the laws
-- by which these treat it as a queue of bytes.
use fastcgi_async_or_corouti.Base.{ℕ, ◌≤◌, ◌≡◌, Bytes, [], ◌++◌, length, take, drop}

pub record ByteQueue : Type 1 where
  pub Queue : Type 0
  pub empty : Queue
  pub readable : Queue → ℕ
  pub peek : ℕ → Queue → Bytes
  pub retrieve : ℕ → Queue → Queue
  pub retrieve_all : Queue → Queue
  pub append : Bytes → Queue → Queue
  pub read_fd : Bytes → Queue → Queue
  -- The queue is in order, and these are its bytes.
  pub Holds : Queue → Bytes → Type 0
  pub empty-Holds : Holds empty []
  pub readable-Holds : (q : Queue) (xs : Bytes) → Holds q xs → readable q ≡ length xs
  pub peek-Holds :
      (q : Queue) (xs : Bytes) (n : ℕ) → Holds q xs → n ≤ length xs → peek n q ≡ take n xs
  pub retrieve-Holds :
      (n : ℕ) (q : Queue) (xs : Bytes)
      → Holds q xs
      → n ≤ length xs
      → Holds (retrieve n q) (drop n xs)
  pub retrieve_all-Holds : (q : Queue) (xs : Bytes) → Holds q xs → Holds (retrieve_all q) []
  pub append-Holds :
      (d : Bytes) (q : Queue) (xs : Bytes) → Holds q xs → Holds (append d q) (xs ++ d)
  pub read_fd-Holds :
      (d : Bytes) (q : Queue) (xs : Bytes) → Holds q xs → Holds (read_fd d q) (xs ++ d)
