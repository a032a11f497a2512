-- ===== src/Cocgi/Kind.antt =====
-- The constants of the protocol that cocgi/fastcgi.cpp uses: of `FcgiType`, `FcgiRole` and
-- `FcgiConstant`.
use fastcgi_async_or_corouti.Base.{ℕ}

abbrev pub begin_request : ℕ
begin_request = 1

abbrev pub end_request : ℕ
end_request = 3

abbrev pub params : ℕ
params = 4

abbrev pub stdin : ℕ
stdin = 5

abbrev pub stdout : ℕ
stdout = 6

abbrev pub responder : ℕ
responder = 1

abbrev pub keep_conn : ℕ
keep_conn = 1
