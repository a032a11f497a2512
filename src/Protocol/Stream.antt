-- ===== src/Protocol/Stream.antt =====
-- How a web server reads the answers on a connection that it keeps, by the FastCGI specification.
use fastcgi_async_or_corouti.Base.{
  ℕ, zero, suc, ◌&&◌, Option, none, some, Bytes, List, [], ◌∷◌, ◌++◌, length, ◌==◌, if◌then◌else◌,
}
use fastcgi_async_or_corouti.Protocol.Client.{next_record}

abbrev pub join_first : Bytes → Option (Bytes × Bytes) → Option (Bytes × Bytes)
join_first b none = none
join_first b (some (s, rest)) = some (b ++ s, rest)

-- A record of type 3 ends the request; what is behind it belongs to the next.
abbrev pub end_and_rest : Option (ℕ × ℕ × Bytes × Bytes) → Option (Bytes × Bytes)
end_and_rest none = none
end_and_rest (some (type, id, content, rest)) =
    if type == 3 && (id == 1 && length content == 8) then some ([], rest) else none

-- The output of one request, and the bytes behind its end.
unfoldable pub take_output : ℕ → Bytes → Option (Bytes × Bytes)
take_output zero s = none
take_output (suc fuel) s = elim (next_record s) [
  | none ↦ none
  | some (type, id, content, rest) ↦
      if type == 6 && id == 1
      then (if length content == 0
          then end_and_rest (next_record rest)
          else join_first content (take_output fuel rest))
      else none
]

abbrev pub join_pages : Bytes → Option (List Bytes) → Option (List Bytes)
join_pages b none = none
join_pages b (some bs) = some (b ∷ bs)

-- The outputs of the requests that are answered one behind the other, up to the last byte.
unfoldable pub read_pages : ℕ → Bytes → Option (List Bytes)
read_pages fuel [] = some []
read_pages zero (b ∷ s) = none
read_pages (suc fuel) (b ∷ s) = elim (take_output (length (b ∷ s)) (b ∷ s)) [
  | none ↦ none
  | some (page, rest) ↦ join_pages page (read_pages fuel rest)
]
