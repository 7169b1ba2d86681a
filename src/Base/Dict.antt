-- ===== src/Base/Dict.antt =====
-- The maps of C++ from numbers, std::map, as lists of entries.
use Prim.Native.Nat.{ℕ}
use mathlib.Core.Path.{◌≡◌, refl}
use mathlib.Core.Option.{Option, none, some}
use mathlib.Core.List.{List, [], ◌∷◌}
use udt_server.Base.Tests.{◌==◌, if◌then◌else◌}
use native.Mathlib.Omega.{arith}

abbrev pub Dict {ℓ} : Type ℓ → Type ℓ
Dict V = List (ℕ × V)

module _ {ℓ} {V : Type ℓ} where
  unfoldable pub find_key : ℕ → Dict V → Option V
  find_key k [] = none
  find_key k ((j, v) ∷ m) = if k == j then some v else find_key k m

  unfoldable pub put : ℕ → V → Dict V → Dict V
  put k v [] = (k, v) ∷ []
  put k v ((j, w) ∷ m) = if k == j then (k, v) ∷ m else (j, w) ∷ put k v m

  unfoldable pub erase_key : ℕ → Dict V → Dict V
  erase_key k [] = []
  erase_key k ((j, v) ∷ m) = let rest = erase_key k m in if k == j then rest else (j, v) ∷ rest

  pub find_key-put :
      (k j : ℕ) (v : V) (m : Dict V)
      → find_key j (put k v m) ≡ (if j == k then some v else find_key j m)
  unfolding find_key put
  find_key-put k j v [] = refl
  find_key-put k j v ((i, w) ∷ m) = ground (arith, find_key-put k j v m)

  pub find_key-erase_key :
      (k j : ℕ) (m : Dict V) → find_key j (erase_key k m) ≡ (if j == k then none else find_key j m)
  unfolding find_key erase_key
  find_key-erase_key k j [] = ground arith
  find_key-erase_key k j ((i, w) ∷ m) = ground (arith, find_key-erase_key k j m)
