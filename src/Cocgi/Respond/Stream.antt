-- ===== src/Cocgi/Respond/Stream.antt =====
-- What a web server reads out of several answers that `respond` writes.
use fastcgi_async_or_corouti.Base.{
  ℕ, zero, suc, ◌≤◌, ◌<◌, ◌≡◌, refl, ap, ◌∙◌, Bytes, List, [], ◌∷◌, ◌++◌, append_assoc, length,
  length-append, All, map, some, arith,
}
use fastcgi_async_or_corouti.Protocol.{Record, encode_record, encode_records}
use fastcgi_async_or_corouti.Protocol.Client.{next_record, next_record-encode}
use fastcgi_async_or_corouti.Protocol.Stream.{join_first, take_output, join_pages, read_pages}
use fastcgi_async_or_corouti.Cocgi.Codec.Pieces.{contents}
use fastcgi_async_or_corouti.Cocgi.Respond.{output_or_default, respond}
use fastcgi_async_or_corouti.Cocgi.Respond.Framing.{IsOutput, trailer}
use fastcgi_async_or_corouti.Cocgi.Respond.Reading.{length-encode_records}
use fastcgi_async_or_corouti.Cocgi.Respond.Output.{respond_lem}

take_output-encode :
    (fuel : ℕ) (r : Record) (rest : Bytes)
    → IsOutput r
    → take_output (suc fuel) (encode_record r ++ rest)
      ≡ join_first r.content (take_output fuel rest)
unfolding take_output
take_output-encode fuel r rest h = ground (arith, next_record-encode r rest h.valid)

take_output-trailer :
    (fuel : ℕ) (rest : Bytes)
    → take_output (suc fuel) (encode_records trailer ++ rest) ≡ some ([], rest)
unfolding take_output encode_records encode_record next_record
take_output-trailer fuel rest = ground arith

take_output-records :
    (fuel : ℕ) (rs : List Record) (rest : Bytes)
    → length rs < fuel
    → All IsOutput rs
    → take_output fuel (encode_records (rs ++ trailer) ++ rest) ≡ some (contents rs, rest)
unfolding contents encode_records
take_output-records zero rs rest h hs = absurd (omega (arith, h))
take_output-records (suc fuel) [] rest h hs = take_output-trailer fuel rest
take_output-records (suc fuel) (r ∷ rs) rest h (first, hs) =
    ap (take_output (suc fuel))
      (append_assoc (encode_record r) (encode_records (rs ++ trailer)) rest)
    ∙ take_output-encode fuel r (encode_records (rs ++ trailer) ++ rest) first
    ∙ ap (join_first r.content) (take_output-records fuel rs rest (omega (arith, h)) hs)

-- The first of several answers is read, and what is behind it is left.
take_output-respond :
    (out rest : Bytes) (fuel : ℕ)
    → length (respond out []) ≤ fuel
    → take_output fuel (respond out [] ++ rest) ≡ some (output_or_default out, rest)
take_output-respond out rest fuel h =
    let (rs, e, hs, all) = respond_lem out [] in
    rw (e, ← all)
      (take_output-records fuel rs rest
        (omega
          (arith, h, ap length e, length-encode_records (rs ++ trailer), length-append rs trailer))
        hs)

respond-pos : (out : Bytes) → 0 < length (respond out [])
respond-pos out =
    let (rs, e, hs, all) = respond_lem out [] in
    omega (arith, ap length e, length-encode_records (rs ++ trailer), length-append rs trailer)

read_pages-some :
    (fuel : ℕ) (s page rest : Bytes)
    → 0 < length s
    → take_output (length s) s ≡ some (page, rest)
    → read_pages (suc fuel) s ≡ join_pages page (read_pages fuel rest)
unfolding read_pages
read_pages-some fuel [] page rest h e = absurd (omega arith)
read_pages-some fuel (b ∷ s) page rest h e = ground (arith, e)

-- The answers that `respond` writes for several outputs.
unfoldable pub responses : List Bytes → Bytes
responses [] = []
responses (out ∷ outs) = respond out [] ++ responses outs

pub length-responses : (outs : List Bytes) → length outs ≤ length (responses outs)
unfolding responses
length-responses [] = omega arith
length-responses (out ∷ outs) =
    omega (
      arith,
      length-append (respond out []) (responses outs),
      respond-pos out,
      length-responses outs,
    )

pub read_pages-responses :
    (outs : List Bytes) (fuel : ℕ)
    → length outs ≤ fuel
    → read_pages fuel (responses outs) ≡ some (map output_or_default outs)
unfolding responses
read_pages-responses [] fuel h = unfold read_pages in refl
read_pages-responses (out ∷ outs) zero h = absurd (omega (arith, h))
read_pages-responses (out ∷ outs) (suc fuel) h =
    read_pages-some fuel (respond out [] ++ responses outs) (output_or_default out) (responses outs)
      (omega (arith, length-append (respond out []) (responses outs), respond-pos out))
      (take_output-respond out (responses outs) (length (respond out [] ++ responses outs))
        (omega (arith, length-append (respond out []) (responses outs))))
    ∙ ap (join_pages (output_or_default out)) (read_pages-responses outs fuel (omega (arith, h)))
