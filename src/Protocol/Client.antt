-- ===== src/Protocol/Client.antt =====
-- How a web server reads an answer, by the FastCGI specification and apart from the code.
use fastcgi_async_or_corouti.Base.{
  ℕ, zero, suc, ◌+◌, ◌*◌, ◌≡◌, ◌&&◌, Option, none, some, Bytes, [], ◌++◌, append_assoc, length,
  length-append, take, drop, take-append_self, drop-append_self, get_or, leb, ◌==◌, if◌then◌else◌,
  arith,
}
use fastcgi_async_or_corouti.Protocol.{Record, IsRecord, encode_record, length-encode_record}

-- The type, the request id and the content of the record at the head, and the bytes behind it.
unfoldable pub next_record : Bytes → Option (ℕ × ℕ × Bytes × Bytes)
next_record s =
    let len = get_or s 4 0 * 256 + get_or s 5 0 in
    let total = 8 + len + get_or s 6 0 in
    if leb 8 (length s) && leb total (length s)
    then some (get_or s 1 0, get_or s 2 0 * 256 + get_or s 3 0, take len (drop 8 s), drop total s)
    else none

abbrev pub join : Bytes → Option Bytes → Option Bytes
join b none = none
join b (some s) = some (b ++ s)

-- Records of type 3 end the request.
abbrev pub ends_request : Option (ℕ × ℕ × Bytes × Bytes) → Option Bytes
ends_request none = none
ends_request (some (type, id, content, rest)) =
    if type == 3 && (id == 1 && (length content == 8 && length rest == 0)) then some [] else none

-- The output of request 1: the contents of its records of type 6 up to an empty one, behind which the
-- request must end.
unfoldable pub read_output : ℕ → Bytes → Option Bytes
read_output zero s = none
read_output (suc fuel) s = elim (next_record s) [
  | none ↦ none
  | some (type, id, content, rest) ↦
      if type == 6 && id == 1
      then (if length content == 0
          then ends_request (next_record rest)
          else join content (read_output fuel rest))
      else none
]

content-encode_record :
    (r : Record) (rest : Bytes)
    → take (length r.content) (drop 8 (encode_record r ++ rest)) ≡ r.content
unfolding encode_record
content-encode_record r rest =
    rw (append_assoc r.content r.padding rest) (take-append_self r.content (r.padding ++ rest))

drop-encode_record :
    (r : Record) (rest : Bytes) (n : ℕ)
    → n ≡ length (encode_record r)
    → drop n (encode_record r ++ rest) ≡ rest
drop-encode_record r rest n e = rw e (drop-append_self (encode_record r) rest)

-- The length fields of an encoded record.
content_length-encode_record :
    (r : Record) (rest : Bytes)
    → IsRecord r
    → get_or (encode_record r ++ rest) 4 0 * 256 + get_or (encode_record r ++ rest) 5 0
      ≡ length r.content
unfolding encode_record
content_length-encode_record r rest h = ground arith

padding_length-encode_record :
    (r : Record) (rest : Bytes)
    → IsRecord r
    → get_or (encode_record r ++ rest) 6 0 ≡ length r.padding
unfolding encode_record
padding_length-encode_record r rest h = ground arith

type-encode_record : (r : Record) (rest : Bytes) → get_or (encode_record r ++ rest) 1 0 ≡ r.type
unfolding encode_record
type-encode_record r rest = ground arith

id-encode_record :
    (r : Record) (rest : Bytes)
    → IsRecord r
    → get_or (encode_record r ++ rest) 2 0 * 256 + get_or (encode_record r ++ rest) 3 0 ≡ r.id
unfolding encode_record
id-encode_record r rest h = ground arith

pub next_record-encode :
    (r : Record) (rest : Bytes)
    → IsRecord r
    → next_record (encode_record r ++ rest) ≡ some (r.type, r.id, r.content, rest)
unfolding next_record
next_record-encode r rest h =
    rw
      (
        content_length-encode_record r rest h,
        padding_length-encode_record r rest h,
        type-encode_record r rest,
        id-encode_record r rest h,
        content-encode_record r rest,
      )
      (ground (
        arith,
        length-append (encode_record r) rest,
        length-encode_record r,
        drop-encode_record r rest (8 + length r.content + length r.padding)
            (omega (arith, length-encode_record r)),
      ))
