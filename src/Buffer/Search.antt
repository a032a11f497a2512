-- ===== src/Buffer/Search.antt =====
-- The searches of the class Buffer. A pointer into the readable bytes is its distance from `peek()`.
use fastcgi_async_or_corouti.Base.{
  ℕ, suc, ◌+◌, ◌&&◌, Option, none, some, Bytes, [], ◌∷◌, drop, get_or, ◌==◌, if◌then◌else◌,
}
use fastcgi_async_or_corouti.Buffer.{Buffer, readable_bytes, peek, retrieve}

-- `memchr` for a line feed.
unfoldable pub line_feed : Bytes → Option ℕ
line_feed [] = none
line_feed (c ∷ cs) =
    let rest = line_feed cs in
    if c == 10 then some 0 else elim rest [ none ↦ none | some i ↦ some (suc i) ]

-- `std::search` for kCRLF.
unfoldable pub crlf : Bytes → Option ℕ
crlf [] = none
crlf (c ∷ cs) =
    let rest = crlf cs in
    if c == 13 && get_or cs 0 0 == 10
    then some 0
    else elim rest [ none ↦ none | some i ↦ some (suc i) ]

abbrev pub from : ℕ → Option ℕ → Option ℕ
from start none = none
from start (some i) = some (start + i)

unfoldable pub find_crlf_from : ℕ → Buffer → Option ℕ
find_crlf_from start b = from start (crlf (drop start (peek (readable_bytes b) b)))

unfoldable pub find_crlf : Buffer → Option ℕ
find_crlf b = crlf (peek (readable_bytes b) b)

unfoldable pub find_eol_from : ℕ → Buffer → Option ℕ
find_eol_from start b = from start (line_feed (drop start (peek (readable_bytes b) b)))

unfoldable pub find_eol : Buffer → Option ℕ
find_eol b = line_feed (peek (readable_bytes b) b)

unfoldable pub retrieve_until : ℕ → Buffer → Buffer
retrieve_until end b = retrieve end b
