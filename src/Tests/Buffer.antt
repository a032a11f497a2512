-- ===== src/Tests/Buffer.antt =====
-- Runs of the model of the class Buffer, and the theorems about it at concrete inputs.
use fastcgi_async_or_corouti.Base.{◌≡◌, refl, some, List, [], ◌∷◌, codes}
use fastcgi_async_or_corouti.Buffer.{
  Buffer, new_buffer, peek, readable_bytes, append, ensure_writable_bytes, make_space, has_written,
}
use fastcgi_async_or_corouti.Buffer.Content.{Holds, new_buffer-Holds}
use fastcgi_async_or_corouti.Buffer.Write.{append-Holds}
use fastcgi_async_or_corouti.Buffer.Search.{find_crlf, crlf, find_eol_from, line_feed}
use fastcgi_async_or_corouti.Buffer.Refinement.{
  Call, appends, reads, retrieves, unwrites, shrinks, ensures, calls, queue_call, queue_calls,
  queue_refined,
}

abbrev some_calls : List Call
some_calls =
    appends (codes "abcdef")
    ∷ retrieves 4
    ∷ reads (codes "ghijklmnop")
    ∷ unwrites 1
    ∷ shrinks 2
    ∷ ensures 3
    ∷ []

queue_run : queue_calls some_calls [] ≡ some (codes "efghijklmno")
unfolding queue_calls queue_call
queue_run = refl

queue_refined_example :
    (readable_bytes (calls some_calls (new_buffer 4)) ≡ 11)
    × (peek (readable_bytes (calls some_calls (new_buffer 4))) (calls some_calls (new_buffer 4))
        ≡ codes "efghijklmno")
queue_refined_example = queue_refined 4 some_calls (codes "efghijklmno") queue_run

abbrev small : Buffer
small = append (codes "ab") (new_buffer 0)

small-Holds : Holds small (codes "ab")
small-Holds = append-Holds (codes "ab") (new_buffer 0) [] (new_buffer-Holds 0)

search_run :
    (find_crlf (append (codes "a\r\rb\r\nc\n") (new_buffer 0)) ≡ some 4)
    × (find_eol_from 6 (append (codes "a\r\rb\r\nc\n") (new_buffer 0)) ≡ some 7)
unfolding find_crlf crlf find_eol_from line_feed peek append ensure_writable_bytes make_space
    new_buffer has_written
search_run = (refl, refl)
