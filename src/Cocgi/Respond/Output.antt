-- ===== src/Cocgi/Respond/Output.antt =====
-- The whole answer of `respond`.
use fastcgi_async_or_corouti.Base.{
  ℕ, ◌+◌, ◌*◌, ◌/◌, ◌%◌, ◌<◌, ◌≡◌, refl, sym, ap, ◌∙◌, Bytes, List, [], ◌∷◌, ◌++◌, append-nil,
  append_assoc, length, drop, All, All-append, leb, leb→le, ◌==◌, inl, inr, Bool-cases, length-drop,
  nil_of_length, if◌then◌else◌, arith,
}
use fastcgi_async_or_corouti.Protocol.{Record, encode_records, encode_records-append}
use fastcgi_async_or_corouti.Cocgi.Codec.Pieces.{contents}
use fastcgi_async_or_corouti.Cocgi.Respond.{
  max_content_length, append_output, output_or_default, respond,
}
use fastcgi_async_or_corouti.Cocgi.Respond.Framing.{
  IsOutput, trailer, end-encode, full_list, full_records-encode, full_list-IsOutput,
  contents-full_list, short_list, append_short-encode, short_list-IsOutput,
}

abbrev count : Bytes → ℕ
count out = length out / max_content_length

-- What is left behind the full records.
abbrev remainder : Bytes → Bytes
remainder out = drop (max_content_length * count out) out

length-remainder : (out : Bytes) → length (remainder out) ≡ length out % max_content_length
length-remainder out = omega (arith, length-drop (max_content_length * count out) out)

contents-append : (rs ss : List Record) → contents (rs ++ ss) ≡ contents rs ++ contents ss
unfolding contents
contents-append [] ss = refl
contents-append (r ∷ rs) ss = simp (contents-append rs ss, append_assoc)

contents-full : (out : Bytes) → contents (full_list (count out) 0 out) ++ remainder out ≡ out
contents-full out =
    let e : max_content_length * count out ≡ (0 + count out) * max_content_length = omega arith in
    rw e (contents-full_list (count out) 0 out)

contents-short : (out : Bytes) → contents (short_list out) ≡ out
unfolding short_list contents
contents-short out = append-nil out

-- The records that carry an output.
unfoldable pub output_records : Bytes → List Record
output_records out =
    if leb (length out) max_content_length
    then short_list out
    else if length out % max_content_length == 0
    then full_list (count out) 0 out
    else full_list (count out) 0 out ++ short_list (remainder out)

append_output-encode :
    (out response : Bytes)
    → append_output out response ≡ response ++ encode_records (output_records out)
unfolding append_output output_records
append_output-encode out response = elim (Bool-cases (leb (length out) max_content_length)) [
  | inl e ↦
      rw e
        (append_short-encode out response (omega (arith, leb→le (length out) max_content_length e)))
  | inr e ↦ rw e (
      ground (
        arith,
        full_records-encode (count out) 0 out response (omega arith),
        append_short-encode (remainder out)
            (response ++ encode_records (full_list (count out) 0 out))
            (omega (arith, length-remainder out)),
        encode_records-append (full_list (count out) 0 out) (short_list (remainder out)),
        append_assoc response (encode_records (full_list (count out) 0 out))
            (encode_records (short_list (remainder out))),
      ))
]

output_records-IsOutput : (out : Bytes) → 0 < length out → All IsOutput (output_records out)
unfolding output_records
output_records-IsOutput out h = elim (Bool-cases (leb (length out) max_content_length)) [
  | inl e ↦
      rw e (short_list-IsOutput out h (omega (arith, leb→le (length out) max_content_length e)))
  | inr e ↦
      let full = full_list-IsOutput (count out) 0 out (omega arith) in
      elim (Bool-cases (length out % max_content_length == 0)) [
        | inl d ↦ rw (e, d) full
        | inr d ↦
            rw (e, d)
              (All-append IsOutput _ _ full (
                short_list-IsOutput (remainder out) (ground (arith, length-remainder out))
                  (omega (arith, length-remainder out))))
      ]
]

contents-full_only :
    (out : Bytes)
    → length out % max_content_length ≡ 0
    → contents (full_list (count out) 0 out) ≡ out
contents-full_only out h =
    let e = nil_of_length (remainder out) (omega (arith, length-remainder out)) in
    sym (append-nil _)
    ∙ ap (λ t. contents (full_list (count out) 0 out) ++ t) (sym e)
    ∙ contents-full out

contents-output_records : (out : Bytes) → contents (output_records out) ≡ out
unfolding output_records
contents-output_records out = ground (
  arith,
  contents-short out,
  contents-full out,
  contents-full_only out,
  contents-append (full_list (count out) 0 out) (short_list (remainder out)),
  contents-short (remainder out),
)

output-pos : (out : Bytes) → 0 < length (output_or_default out)
output-pos [] = omega arith
output-pos (x ∷ xs) = omega arith

-- `respond` appends to the buffer the encoding of output records, an empty output record and an
-- end-request record of eight zero bytes. Every output record has between 1 and 65535 bytes of content,
-- is of request 1, and is padded to a multiple of eight. Their contents joined are the output, or the
-- default answer where the output is empty.
pub respond_lem :
    (out response : Bytes)
    → (rs : List Record) × (respond out response ≡ response ++ encode_records (rs ++ trailer))
      × All IsOutput rs
      × (contents rs ≡ output_or_default out)
unfolding respond
respond_lem out response =
    let body : Bytes = output_or_default out in
    (
      output_records body,
      end-encode (append_output body response)
          ∙ ap (λ t. t ++ encode_records trailer) (append_output-encode body response)
          ∙ append_assoc response (encode_records (output_records body)) (encode_records trailer)
          ∙ ap (λ t. response ++ t) (sym (encode_records-append (output_records body) trailer)),
      output_records-IsOutput body (output-pos out),
      contents-output_records body,
    )
