-- ===== src/RcvLossList/Find.antt =====
-- CRcvLossList::find (src/list.cpp): whether the list meets a range of numbers.
use udt_server.Base.{
  ℕ, zero, suc, ◌+◌, ◌≤◌, Bool, true, false, ◌&&◌, ◌||◌, Option, none, some, List, [], ◌∷◌, ltb,
  ◌==◌, if◌then◌else◌,
}
use udt_server.Base.Int.{pos, ltb_ℤ, leb_ℤ, eqb_ℤ}
use udt_server.SeqNo.{seqcmp, IsSeqNo}
use udt_server.LossList.{read}
use udt_server.RcvLossList.{RcvLossList}
use udt_server.RcvLossList.Query.{meets, find_loop, find}
use udt_server.RcvLossList.Contents.{links}
use udt_server.LossList.Chain.{some≢none, Run, end_of, IsSegment}
use udt_server.Base.{
  ◌≡◌, refl, ◌<◌, ◌^◌, ◌%◌, leb, length, arith, ap, ◌∙◌, inl, inr, Bool-cases, map, ne→==, ==_iff,
}

-- The comparison of numbers that are less than half the circle from a common number, by the
-- distances from it.
abbrev pub from : ℕ → ℕ → ℕ
from base i = (base + i) % 2 ^ 31

seqcmp-from :
    (base i j : ℕ)
    → IsSeqNo base
    → i < 2 ^ 29
    → j < 2 ^ 29
    → (eqb_ℤ (seqcmp (from base i) (from base j)) (pos 0) ≡ (i == j))
      × (ltb_ℤ (pos 0) (seqcmp (from base i) (from base j)) ≡ ltb j i)
      × (leb_ℤ (pos 0) (seqcmp (from base i) (from base j)) ≡ leb j i)
      × (ltb_ℤ (seqcmp (from base i) (from base j)) (pos 0) ≡ ltb i j)
      × (leb_ℤ (seqcmp (from base i) (from base j)) (pos 0) ≡ leb i j)
unfolding seqcmp
seqcmp-from base i j hb hi hj = ground arith

abbrev pub shift : ℕ → Run → Run
shift base (i, j) = (from base i, from base j)

-- Runs that lie in order within 2 ^ 29 of the base.
abbrev pub AreNear : List Run → Type 0
AreNear [] = Unit
AreNear (r ∷ rs) = (r.0 ≤ r.1) × (r.1 < 2 ^ 29) × AreNear rs

abbrev pub any_meets : List Run → ℕ → ℕ → Bool
any_meets [] k l = false
any_meets ((i, j) ∷ rs) k l = (leb i l && leb k j) || any_meets rs k l

from_apart :
    (base i j : ℕ) → IsSeqNo base → i < 2 ^ 29 → j < 2 ^ 29 → from base j ≡ from base i → i ≡ j
from_apart base i j hb hi hj e = omega arith

point : (i k l : ℕ) → k ≤ l → (i == k || (ltb k i && leb i l)) ≡ (leb i l && leb k i)
point i k l h = ground arith

interval :
    (i j k l : ℕ)
    → i ≤ j
    → k ≤ l
    → (i == k || (ltb k i && leb i l) || (ltb i k && leb k j)) ≡ (leb i l && leb k j)
interval i j k l h h' = ground arith

if_or : (b c : Bool) → (if b then some true else some c) ≡ some (b || c)
if_or true c = refl
if_or false c = refl

meets-from :
    (base i j k l : ℕ)
    → IsSeqNo base
    → i ≤ j
    → j < 2 ^ 29
    → k ≤ l
    → l < 2 ^ 29
    → meets (from base i) (end_of (shift base (i, j))) (from base k) (from base l)
      ≡ (leb i l && leb k j)
meets-from base i j k l hb hij hj hkl hl =
    let (eq₁, gt₁, ge₁, lt₁, le₁) = seqcmp-from base i k hb (omega arith) (omega arith) in
    let (eq₂, gt₂, ge₂, lt₂, le₂) = seqcmp-from base i l hb (omega arith) (omega arith) in
    let (eq₃, gt₃, ge₃, lt₃, le₃) = seqcmp-from base j k hb (omega arith) (omega arith) in
    elim (Bool-cases (from base j == from base i)) [
      | inl e ↦
          let same : i ≡ j = from_apart base i j hb (omega arith) hj ((==_iff _ _).0 e) in
          rw (e, eq₁, gt₁, le₂) (point i k l hkl ∙ ap (λ x. leb i l && leb k x) same)
      | inr e ↦ rw (e, eq₁, gt₁, le₂, lt₁, ge₃) (interval i j k l hij hkl)
    ]

find_loop-any :
    (fuel base : ℕ) (s : RcvLossList) (p : Option ℕ) (rs : List Run) (k l : ℕ)
    → IsSeqNo base
    → IsSegment (links s) p (map (shift base) rs) none
    → AreNear rs
    → length rs ≤ fuel
    → k ≤ l
    → l < 2 ^ 29
    → find_loop fuel s p (from base k) (from base l) ≡ some (any_meets rs k l)
unfolding find_loop
find_loop-any fuel base s none [] k l hb h near inside hkl hl = refl
find_loop-any fuel base s (some p) [] k l hb h near inside hkl hl = absurd (some≢none refl h)
find_loop-any fuel base s none (r ∷ rs) k l hb h near inside hkl hl = absurd h
find_loop-any zero base s (some p) (r ∷ rs) k l hb h near inside hkl hl = absurd (omega arith)
find_loop-any (suc fuel) base s (some p) ((i, j) ∷ rs) k l hb (holds, more) (hij, hj, near) inside
      hkl hl =
    let rest = find_loop-any fuel base s (read s.next p) rs k l hb more near (omega arith) hkl hl in
    let test =
      ap (λ o. meets (from base i) o (from base k) (from base l)) (holds.last)
      ∙ meets-from base i j k l hb hij hj hkl hl in
    rw (find_loop, holds.first, test, rest) (if_or (leb i l && leb k j) (any_meets rs k l))

-- `find` says whether some run of the list has a number in common with the range asked for, where
-- the runs and the range lie within 2 ^ 29 numbers after a common one, possibly across the wrap.
pub find_lem :
    (s : RcvLossList) (base : ℕ) (rs : List Run) (k l : ℕ)
    → IsSeqNo base
    → 0 < s.length
    → IsSegment (links s) s.head (map (shift base) rs) none
    → AreNear rs
    → length rs ≤ s.size
    → k ≤ l
    → l < 2 ^ 29
    → find s (from base k) (from base l) ≡ some (any_meets rs k l)
unfolding find
find_lem s base rs k l hb counted h near inside hkl hl =
    rw (ne→== s.length 0 (omega arith))
      (find_loop-any s.size base s s.head rs k l hb h near inside hkl hl)
