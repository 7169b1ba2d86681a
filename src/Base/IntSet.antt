-- ===== src/Base/IntSet.antt =====
-- The ordered sets of numbers of C++, std::set.
use Prim.Native.Nat.{ℕ, ◌<◌}
use mathlib.Core.Path.{◌≡◌, refl}
use mathlib.Core.Bool.{Bool, true, false, ◌||◌}
use mathlib.Core.List.{List, [], ◌∷◌, ◌++◌}
use udt_server.Base.Tests.{◌==◌, if◌then◌else◌, ltb}
use udt_server.Base.Lists.{length}
use native.Mathlib.Omega.{arith}

abbrev pub IntSet : Type 0
IntSet = List ℕ

unfoldable pub member : ℕ → IntSet → Bool
member x [] = false
member x (y ∷ s) = x == y || member x s

unfoldable pub insert : ℕ → IntSet → IntSet
insert x [] = x ∷ []
insert x (y ∷ s) = if x == y then y ∷ s else if ltb x y then x ∷ y ∷ s else y ∷ insert x s

unfoldable pub erase : ℕ → IntSet → IntSet
erase x [] = []
erase x (y ∷ s) = let rest = erase x s in if x == y then rest else y ∷ rest

-- Each of the first set's elements is inserted into the second one.
unfoldable pub insert_all : IntSet → IntSet → IntSet
insert_all [] s = s
insert_all (x ∷ xs) s = insert_all xs (insert x s)

abbrev pub is_empty : IntSet → Bool
is_empty [] = true
is_empty (x ∷ s) = false

pub member-insert :
    (x y : ℕ) (s : IntSet) → member y (insert x s) ≡ (if y == x then true else member y s)
unfolding member insert
member-insert x y [] = ground arith
member-insert x y (z ∷ s) = ground (arith, member-insert x y s)

pub member-erase :
    (x y : ℕ) (s : IntSet) → member y (erase x s) ≡ (if y == x then false else member y s)
unfolding member erase
member-erase x y [] = ground arith
member-erase x y (z ∷ s) = ground (arith, member-erase x y s)

pub member-insert_all :
    (y : ℕ) (xs s : IntSet)
    → member y (insert_all xs s) ≡ (if member y xs then true else member y s)
unfolding member insert_all
member-insert_all y [] s = refl
member-insert_all y (x ∷ xs) s =
    ground (arith, member-insert_all y xs (insert x s), member-insert x y s)

pub member-nonempty : (x : ℕ) (s : IntSet) → member x s ≡ true → is_empty s ≡ false
unfolding member
member-nonempty x [] h = ground arith
member-nonempty x (y ∷ s) h = refl

pub member-append :
    (y : ℕ) (xs ys : IntSet) → member y (xs ++ ys) ≡ (if member y xs then true else member y ys)
unfolding member
member-append y [] ys = refl
member-append y (x ∷ xs) ys = ground (arith, member-append y xs ys)

pub length-nonempty : (s : IntSet) → is_empty s ≡ false → 0 < length s
length-nonempty [] h = ground arith
length-nonempty (x ∷ s) h = omega arith
