-- ===== src/Cocgi/Respond/Framing.antt =====
-- What `respond` writes, as records of the FastCGI format.
use fastcgi_async_or_corouti.Base.{
  ℕ, zero, suc, ◌+◌, ◌*◌, ◌%◌, ◌^◌, ◌≤◌, ◌<◌, ◌≡◌, sym, ap, ◌∙◌, Bytes, List, [], ◌∷◌, ◌++◌,
  append-nil, append_assoc, length, take, drop, replicate, All, length-take, length-drop,
  length-replicate, take-append-drop, drop-drop, arith,
}
use fastcgi_async_or_corouti.Endian.{hton16, hton32}
use fastcgi_async_or_corouti.Protocol.{Record, IsRecord, encode_record, encode_records}
use fastcgi_async_or_corouti.Cocgi.Kind
use fastcgi_async_or_corouti.Cocgi.Header.{store_header}
use fastcgi_async_or_corouti.Cocgi.Codec.Pieces.{contents}
use fastcgi_async_or_corouti.Cocgi.Respond.{
  max_content_length, end_stdout, end_request, append_stdout, padding_of, append_short,
  full_records,
}

-- A record of standard output for request 1, padded with zeros.
abbrev pub data_record : Bytes → ℕ → Record
data_record part pad = record {
  type = Kind.stdout;
  id = 1;
  content = part;
  padding = replicate pad 0;
}

-- A record that carries output: of the widths that its header has, not empty, and padded to a
-- multiple of eight bytes.
pub record IsOutput (r : Record) : Type 0 where
  pub valid : IsRecord r
  pub of_type : r.type ≡ Kind.stdout
  pub of_request : r.id ≡ 1
  pub has_bytes : 0 < length r.content
  pub aligned : (length r.content + length r.padding) % 8 ≡ 0

append_stdout-encode :
    (n pad : ℕ) (content response : Bytes)
    → length content ≡ n
    → n < 2 ^ 16
    → append_stdout n pad content response ≡ response ++ encode_record (data_record content pad)
unfolding append_stdout encode_record store_header hton16
append_stdout-encode n pad content response e h =
    simp append_assoc (ground (arith, length-replicate {A = ℕ} pad 0))

data_record-IsOutput :
    (content : Bytes) (pad : ℕ)
    → 0 < length content
    → length content < 2 ^ 16
    → pad < 8
    → (length content + pad) % 8 ≡ 0
    → IsOutput (data_record content pad)
data_record-IsOutput content pad some_bytes short small even =
    ground (arith, length-replicate {A = ℕ} pad 0)

-- The empty output record and the end-request record that close an answer.
abbrev pub trailer : List Record
trailer =
    record { type = Kind.stdout; id = 1; content = []; padding = [] }
    ∷ record { type = Kind.end_request; id = 1; content = replicate 8 0; padding = [] }
    ∷ []

pub end-encode : (buf : Bytes) → end_request (end_stdout buf) ≡ buf ++ encode_records trailer
unfolding end_request end_stdout encode_records encode_record store_header hton16 hton32
end-encode buf = simp append_assoc

-- The records that the loop writes, from round `i` on.
unfoldable pub full_list : ℕ → ℕ → Bytes → List Record
full_list zero i out = []
full_list (suc n) i out =
    data_record (take max_content_length (drop (i * max_content_length) out)) 1
    ∷ full_list n (i + 1) out

length_full :
    (i : ℕ) (out : Bytes)
    → (i + 1) * max_content_length ≤ length out
    → length (take max_content_length (drop (i * max_content_length) out)) ≡ max_content_length
length_full i out h = omega (
  arith,
  length-take max_content_length (drop (i * max_content_length) out),
  length-drop (i * max_content_length) out,
)

pub full_records-encode :
    (n i : ℕ) (out response : Bytes)
    → (i + n) * max_content_length ≤ length out
    → full_records n i out response ≡ response ++ encode_records (full_list n i out)
unfolding full_records full_list encode_records
full_records-encode zero i out response h = sym (append-nil response)
full_records-encode (suc n) i out response h =
    let part = take max_content_length (drop (i * max_content_length) out) in
    rw
      (append_stdout-encode max_content_length 1 part response (length_full i out (omega arith))
        (omega arith))
      (full_records-encode n (i + 1) out (response ++ encode_record (data_record part 1))
          (omega arith)
        ∙ append_assoc response _ _)

pub full_list-IsOutput :
    (n i : ℕ) (out : Bytes)
    → (i + n) * max_content_length ≤ length out
    → All IsOutput (full_list n i out)
unfolding full_list
full_list-IsOutput zero i out h = tt
full_list-IsOutput (suc n) i out h =
    let e = length_full i out (omega arith) in
    (
      data_record-IsOutput _ 1 (omega (arith, e)) (omega (arith, e)) (omega arith)
          (omega (arith, e)),
      full_list-IsOutput n (i + 1) out (omega arith),
    )

pub contents-full_list :
    (n i : ℕ) (out : Bytes)
    → contents (full_list n i out) ++ drop ((i + n) * max_content_length) out
      ≡ drop (i * max_content_length) out
unfolding full_list contents
contents-full_list zero i out =
    let e : (i + 0) * max_content_length ≡ i * max_content_length = omega arith in
    ap (λ k. drop k out) e
contents-full_list (suc n) i out =
    let m : ℕ = max_content_length in
    let x = drop (i * m) out in
    let e : (i + suc n) * m ≡ (i + 1 + n) * m = omega arith in
    let next : drop ((i + 1) * m) out ≡ drop m x =
      drop-drop (i * m) m ((i + 1) * m) out (omega arith) in
    append_assoc (take m x) (contents (full_list n (i + 1) out)) (drop ((i + suc n) * m) out)
    ∙ ap (λ k. take m x ++ (contents (full_list n (i + 1) out) ++ drop k out)) e
    ∙ ap (λ t. take m x ++ t) (contents-full_list n (i + 1) out ∙ next)
    ∙ take-append-drop m x

-- The one record of a short output, or the last of a long one.
unfoldable pub short_list : Bytes → List Record
short_list part = data_record part (padding_of (length part)) ∷ []

pub append_short-encode :
    (part response : Bytes)
    → length part < 2 ^ 16
    → append_short part response ≡ response ++ encode_records (short_list part)
unfolding short_list encode_records
append_short-encode part response h = rw append-nil (
    append_stdout-encode (length part % 2 ^ 16) (padding_of (length part)) part response
      (omega arith) (omega arith))

pub short_list-IsOutput :
    (part : Bytes) → 0 < length part → length part < 2 ^ 16 → All IsOutput (short_list part)
unfolding short_list
short_list-IsOutput part some_bytes short = (
  data_record-IsOutput part (padding_of (length part)) some_bytes short (omega arith) (omega arith),
  tt,
)
