-- ===== src/Base/Maps.antt =====
-- `std::map<std::string, std::string>` as an association list of byte strings.
use mathlib.Core.Path.{◌≡◌, refl, ◌∙◌}
use mathlib.Core.List.{List, [], ◌∷◌, ◌++◌}
use mathlib.Core.Option.{Option, none, some}
use native.Mathlib.Omega.{arith}
use fastcgi_async_or_corouti.Base.Tests.{Bytes, bytes_eq, bytes_eq_iff, if◌then◌else◌}

abbrev pub or_else : Option Bytes → Option Bytes → Option Bytes
or_else none b = b
or_else (some a) b = some a

abbrev pub ParamMap : Type 0
ParamMap = List (Bytes × Bytes)

unfoldable pub lookup : Bytes → ParamMap → Option Bytes
lookup k [] = none
lookup k ((j, v) ∷ m) = if bytes_eq j k then some v else lookup k m

-- `m[k] = v`: the value of a key that is there is replaced.
unfoldable pub assign : Bytes → Bytes → ParamMap → ParamMap
assign k v [] = (k, v) ∷ []
assign k v ((j, w) ∷ m) = if bytes_eq j k then (j, v) ∷ m else (j, w) ∷ assign k v m

-- `m.insert(value_type(k, v))`: the value of a key that is there is kept.
unfoldable pub insert : Bytes → Bytes → ParamMap → ParamMap
insert k v [] = (k, v) ∷ []
insert k v ((j, w) ∷ m) = if bytes_eq j k then (j, w) ∷ m else (j, w) ∷ insert k v m

-- `m[k]` read: a key that is missing is inserted with an empty value.
unfoldable pub at_key : Bytes → ParamMap → Bytes × ParamMap
at_key k [] = ([], (k, []) ∷ [])
at_key k ((j, w) ∷ m) =
    let (v, rest) = at_key k m in if bytes_eq j k then (w, (j, w) ∷ m) else (v, (j, w) ∷ rest)

pub lookup-assign :
    (j k v : Bytes) (m : ParamMap)
    → lookup j (assign k v m) ≡ (if bytes_eq k j then some v else lookup j m)
unfolding lookup assign
lookup-assign j k v [] = refl
lookup-assign j k v ((i, w) ∷ m) =
    ground (arith, bytes_eq_iff k j, bytes_eq_iff i k, bytes_eq_iff i j, lookup-assign j k v m)

abbrev keep_first : Option Bytes → Bytes → Option Bytes
keep_first none v = some v
keep_first (some w) v = some w

pub lookup-insert :
    (j k v : Bytes) (m : ParamMap)
    → lookup j (insert k v m) ≡ (if bytes_eq k j then keep_first (lookup j m) v else lookup j m)
unfolding lookup insert
lookup-insert j k v [] = refl
lookup-insert j k v ((i, w) ∷ m) =
    ground (arith, bytes_eq_iff k j, bytes_eq_iff i k, bytes_eq_iff i j, lookup-insert j k v m)

-- The pairs assigned in order.
unfoldable pub assign_pairs : List (Bytes × Bytes) → ParamMap → ParamMap
assign_pairs [] m = m
assign_pairs (p ∷ ps) m = assign_pairs ps (assign p.0 p.1 m)

-- The pairs inserted in order.
unfoldable pub insert_pairs : List (Bytes × Bytes) → ParamMap → ParamMap
insert_pairs [] m = m
insert_pairs (p ∷ ps) m = insert_pairs ps (insert p.0 p.1 m)

-- The value of the last pair under a key.
unfoldable pub last_of : Bytes → List (Bytes × Bytes) → Option Bytes
last_of k [] = none
last_of k ((j, v) ∷ ps) = or_else (last_of k ps) (if bytes_eq j k then some v else none)

pub lookup-assign_pairs :
    (k : Bytes) (ps : List (Bytes × Bytes)) (m : ParamMap)
    → lookup k (assign_pairs ps m) ≡ or_else (last_of k ps) (lookup k m)
unfolding assign_pairs last_of
lookup-assign_pairs k [] m = refl
lookup-assign_pairs k ((j, v) ∷ ps) m =
    ground (arith, lookup-assign_pairs k ps (assign j v m), lookup-assign k j v m)

pub lookup-insert_pairs :
    (k : Bytes) (ps : List (Bytes × Bytes)) (m : ParamMap)
    → lookup k (insert_pairs ps m) ≡ or_else (lookup k m) (lookup k ps)
unfolding insert_pairs lookup
lookup-insert_pairs k [] m = ground arith
lookup-insert_pairs k ((j, v) ∷ ps) m =
    ground (arith, lookup-insert_pairs k ps (insert j v m), lookup-insert k j v m)

pub last_of-append :
    (k : Bytes) (ps qs : List (Bytes × Bytes))
    → last_of k (ps ++ qs) ≡ or_else (last_of k qs) (last_of k ps)
unfolding last_of
last_of-append k [] qs = ground arith
last_of-append k ((j, v) ∷ ps) qs = ground (arith, last_of-append k ps qs)

pub lookup-append :
    (k : Bytes) (ps qs : List (Bytes × Bytes))
    → lookup k (ps ++ qs) ≡ or_else (lookup k ps) (lookup k qs)
unfolding lookup
lookup-append k [] qs = refl
lookup-append k ((j, v) ∷ ps) qs = ground (arith, lookup-append k ps qs)

pub at_key-present : (k v : Bytes) (m : ParamMap) → lookup k m ≡ some v → at_key k m ≡ (v, m)
unfolding lookup at_key
at_key-present k v [] h = absurd (ground arith)
at_key-present k v ((j, w) ∷ m) h = ground (arith, h, at_key-present k v m)

pub at_key-assign_pairs :
    (k v : Bytes) (ps : List (Bytes × Bytes))
    → last_of k ps ≡ some v
    → at_key k (assign_pairs ps []) ≡ (v, assign_pairs ps [])
unfolding lookup
at_key-assign_pairs k v ps h =
    at_key-present k v (assign_pairs ps []) (lookup-assign_pairs k ps [] ∙ rw h refl)
