-- ===== src/Cgicc/Entries.antt =====
-- The values of FormEntry.cpp and the files of FormFile.cpp in cocgi/cgicc_lib.
pub mod Values
use fastcgi_async_or_corouti.Base.{
  ℕ, zero, suc, ◌+◌, Bool, true, false, not, ◌&&◌, Bytes, [], ◌∷◌, ◌++◌, length, replicate, ltb,
  leb, ◌==◌, if◌then◌else◌, codes,
}
use fastcgi_async_or_corouti.Cgicc.Strings.{same_strings}

-- The number of `\r` and of `\n` before the next other character, and what is left from there on.
unfoldable pub count_breaks : ℕ → ℕ → Bytes → ℕ × ℕ × Bytes
count_breaks cr lf [] = (cr, lf, [])
count_breaks cr lf (c ∷ cs) =
    let more = count_breaks (if c == 13 then cr + 1 else cr) (if c == 13 then lf else lf + 1) cs in
    if c == 13 then more else if c == 10 then more else (cr, lf, c ∷ cs)

abbrev pub is_break : ℕ → Bool
is_break c = if c == 13 then true else c == 10

abbrev pub larger : ℕ → ℕ → ℕ
larger a b = if ltb b a then a else b

-- The loop of `makeString`, from `src` on, when `len` characters have been appended. A run of line
-- breaks has fewer than 2^31 characters.
unfoldable pub make_loop : ℕ → ℕ → ℕ → Bool → Bytes → Bytes
make_loop zero avail len newlines src = []
make_loop (suc fuel) avail len newlines [] = []
make_loop (suc fuel) avail len newlines (c ∷ cs) =
    let (cr, lf, rest) = count_breaks 0 0 (c ∷ cs) in
    let lfs = if newlines then larger cr lf else 0 in
    let broken = replicate lfs 10 ++ make_loop fuel avail (len + lfs) newlines rest in
    let plain = c ∷ make_loop fuel avail (len + 1) newlines cs in
    if ltb len avail then (if is_break c then broken else plain) else []

-- Each round takes a character at least.
unfoldable pub make_string : ℕ → Bool → Bytes → Bytes
unfolding make_loop
make_string max_len allow_newlines value = make_loop (length value) max_len 0 allow_newlines value

-- `getIntegerValue`, where `atol` gives this value: the number, and whether it was bounded. A `long` is
-- given 2^63 above its value.
unfoldable pub get_integer_value : ℕ → ℕ → ℕ → ℕ × Bool
get_integer_value value min max =
    if ltb max value then (max, true) else if ltb value min then (min, true) else (value, false)

pub record FormFile : Type 0 where
  pub name : Bytes
  pub filename : Bytes
  pub data_type : Bytes
  pub content : Bytes

unfoldable pub new_file : Bytes → Bytes → Bytes → Bytes → FormFile
new_file name filename [] content = record {
  name = name;
  filename = filename;
  data_type = codes "text/plain";
  content = content;
}
new_file name filename (c ∷ cs) content = record {
  name = name;
  filename = filename;
  data_type = c ∷ cs;
  content = content;
}

unfoldable pub same_file : FormFile → FormFile → Bool
same_file f g =
    same_strings f.name g.name
    && (same_strings f.filename g.filename && same_strings f.data_type g.data_type)
