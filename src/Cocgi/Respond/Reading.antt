-- ===== src/Cocgi/Respond/Reading.antt =====
-- What a web server reads out of the answer that `respond` writes.
use fastcgi_async_or_corouti.Base.{
  ℕ, zero, suc, ◌≤◌, ◌<◌, ◌≡◌, refl, ap, ◌∙◌, Bytes, List, [], ◌∷◌, ◌++◌, length, length-append,
  All, some, arith,
}
use fastcgi_async_or_corouti.Protocol.{Record, encode_record, encode_records, length-encode_record}
use fastcgi_async_or_corouti.Protocol.Client.{next_record, join, read_output, next_record-encode}
use fastcgi_async_or_corouti.Cocgi.Codec.Pieces.{contents}
use fastcgi_async_or_corouti.Cocgi.Respond.{output_or_default, respond}
use fastcgi_async_or_corouti.Cocgi.Respond.Framing.{IsOutput, trailer}
use fastcgi_async_or_corouti.Cocgi.Respond.Output.{respond_lem}

-- A record that carries output is read, and the rest behind it.
read_output-encode :
    (fuel : ℕ) (r : Record) (rest : Bytes)
    → IsOutput r
    → read_output (suc fuel) (encode_record r ++ rest) ≡ join r.content (read_output fuel rest)
unfolding read_output
read_output-encode fuel r rest h = ground (arith, next_record-encode r rest h.valid)

read_output-trailer : (fuel : ℕ) → read_output (suc fuel) (encode_records trailer) ≡ some []
unfolding read_output next_record encode_records encode_record
read_output-trailer fuel = refl

read_output-records :
    (fuel : ℕ) (rs : List Record)
    → length rs < fuel
    → All IsOutput rs
    → read_output fuel (encode_records (rs ++ trailer)) ≡ some (contents rs)
unfolding contents encode_records
read_output-records zero rs h hs = absurd (omega (arith, h))
read_output-records (suc fuel) [] h hs = read_output-trailer fuel
read_output-records (suc fuel) (r ∷ rs) h (first, hs) =
    read_output-encode fuel r (encode_records (rs ++ trailer)) first
    ∙ ap (join r.content) (read_output-records fuel rs (omega (arith, h)) hs)

pub length-encode_records : (rs : List Record) → length rs ≤ length (encode_records rs)
unfolding encode_records
length-encode_records [] = omega arith
length-encode_records (r ∷ rs) = omega (
  arith,
  length-append (encode_record r) (encode_records rs),
  length-encode_record r,
  length-encode_records rs,
)

-- A web server that reads what `respond` writes into an empty buffer, by the format of the specification,
-- gets the output, or the default answer where the output is empty; one round of fuel for each byte is
-- enough.
pub read_output-respond :
    (out : Bytes) (fuel : ℕ)
    → length (respond out []) ≤ fuel
    → read_output fuel (respond out []) ≡ some (output_or_default out)
read_output-respond out fuel h =
    let (rs, e, hs, all) = respond_lem out [] in
    rw (e, ← all)
      (read_output-records fuel rs
        (omega
          (arith, h, ap length e, length-encode_records (rs ++ trailer), length-append rs trailer))
        hs)
