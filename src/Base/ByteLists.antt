-- ===== src/Base/ByteLists.antt =====
-- Strings whose characters are bytes.
use Prim.Native.Nat.{ℕ, zero, suc, ◌<◌}
use mathlib.Core.Bool.{Bool, true, false}
use mathlib.Core.List.{List, [], ◌∷◌}
use fastcgi_async_or_corouti.Base.Tests.{Bytes, bytes_eq, if◌then◌else◌}
use fastcgi_async_or_corouti.Base.Lists.{All, take, drop, replicate}
use fastcgi_async_or_corouti.Base.Maps.{ParamMap, assign}

abbrev pub IsByte : ℕ → Type 0
IsByte c = c < 256

abbrev pub ArePairBytes : Bytes × Bytes → Type 0
ArePairBytes p = All IsByte p.0 × All IsByte p.1

module _ {ℓ κ} {A : Type ℓ} (P : A → Type κ) where
  pub All-take : (n : ℕ) (xs : List A) → All P xs → All P (take n xs)
  All-take zero xs h = tt
  All-take (suc n) [] h = tt
  All-take (suc n) (x ∷ xs) (p, h) = (p, All-take n xs h)

  pub All-drop : (n : ℕ) (xs : List A) → All P xs → All P (drop n xs)
  All-drop zero xs h = h
  All-drop (suc n) [] h = tt
  All-drop (suc n) (x ∷ xs) (p, h) = All-drop n xs h

  pub All-replicate : (n : ℕ) (x : A) → P x → All P (replicate n x)
  All-replicate zero x p = tt
  All-replicate (suc n) x p = (p, All-replicate n x p)

-- Both branches of a conditional have what it is to have.
pub if_both {ℓ κ} :
    {A : Type ℓ} (P : A → Type κ) (b : Bool) {x y : A} → P x → P y → P (if b then x else y)
if_both P true p q = p
if_both P false p q = q

pub assign-ArePairBytes :
    (k v : Bytes) (m : ParamMap)
    → All IsByte k
    → All IsByte v
    → All ArePairBytes m
    → All ArePairBytes (assign k v m)
unfolding assign
assign-ArePairBytes k v [] hk hv h = ((hk, hv), tt)
assign-ArePairBytes k v ((j, w) ∷ m) hk hv (p, h) =
    if_both (All ArePairBytes) (bytes_eq j k) ((p.0, hv), h) (p, assign-ArePairBytes k v m hk hv h)
