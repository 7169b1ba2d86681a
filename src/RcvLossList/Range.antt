-- ===== src/RcvLossList/Range.antt =====
-- CRcvLossList::remove for a range of numbers (src/list.cpp): which numbers it removes.
use udt_server.Base.{
  ℕ, zero, suc, ◌+◌, ◌-◌, ◌<◌, ◌≤◌, ◌≡◌, refl, sym, ◌∙◌, ap, Bool, true, false, ◌&&◌, ◌||◌, Option,
  none, some, List, [], ◌∷◌, ◌++◌, ltb, leb, ◌==◌, arith, Option-cases, inl, inr, ne→==,
}
use udt_server.SeqNo.{IsSeqNo, max_seq_no}
use udt_server.RcvLossList.{RcvLossList, remove, remove_each, remove_range}

-- The removal of the numbers of a list, one after the other.
abbrev pub remove_all : Option RcvLossList → List ℕ → Option RcvLossList
remove_all s [] = s
remove_all none (q ∷ qs) = none
remove_all (some s) (q ∷ qs) = elim (remove s q) [
  | none ↦ none
  | some r ↦ remove_all (some (r.0)) qs
]

abbrev pub interval : ℕ → ℕ → List ℕ
interval i zero = []
interval i (suc n) = i ∷ interval (i + 1) n

abbrev pub elem : ℕ → List ℕ → Bool
elem q [] = false
elem q (x ∷ xs) = x == q || elem q xs

remove_each-all :
    (s : Option RcvLossList) (i n : ℕ) → remove_each s i n ≡ remove_all s (interval i n)
unfolding remove_each
remove_each-all s i zero = refl
remove_each-all none i (suc n) = refl
remove_each-all (some s) i (suc n) = elim (Option-cases (remove s i)) [
  | inl e ↦ rw (remove_each, remove_all, e) refl
  | inr (r, e) ↦ rw (remove_each, remove_all, e) (remove_each-all (some (r.0)) (i + 1) n)
]

remove_all-none : (qs : List ℕ) → remove_all none qs ≡ none
remove_all-none [] = refl
remove_all-none (q ∷ qs) = refl

remove_all-append :
    (s : Option RcvLossList) (xs ys : List ℕ)
    → remove_all s (xs ++ ys) ≡ remove_all (remove_all s xs) ys
remove_all-append s [] ys = refl
remove_all-append none (x ∷ xs) ys = sym (remove_all-none ys)
remove_all-append (some s) (x ∷ xs) ys = elim (Option-cases (remove s x)) [
  | inl e ↦ rw (remove_all, e) (sym (remove_all-none ys))
  | inr (r, e) ↦ rw (remove_all, e) (remove_all-append (some (r.0)) xs ys)
]

elem-interval : (q i n : ℕ) → elem q (interval i n) ≡ (leb i q && ltb q (i + n))
elem-interval q i zero = ground arith
elem-interval q i (suc n) = ground (arith, elem-interval q (i + 1) n)

or_assoc : (a b c : Bool) → (a || (b || c)) ≡ ((a || b) || c)
or_assoc true b c = refl
or_assoc false b c = refl

elem-append : (q : ℕ) (xs ys : List ℕ) → elem q (xs ++ ys) ≡ (elem q xs || elem q ys)
elem-append q [] ys = refl
elem-append q (x ∷ xs) ys = rw (elem-append q xs ys) (or_assoc (x == q) (elem q xs) (elem q ys))

leb-after : (a b : ℕ) → b < a → leb a b ≡ false
leb-after a b h = ground arith

leb-before : (a b : ℕ) → a ≤ b → leb a b ≡ true
leb-before a b h = ground arith

ends :
    (a b q : ℕ)
    → IsSeqNo a
    → ((leb a q && ltb q (a + (max_seq_no - a))) || (leb 0 q && ltb q (0 + (b + 1))))
      ≡ ((leb a q && ltb q max_seq_no) || leb q b)
ends a b q h = ground arith

upto : (a b q : ℕ) → a ≤ b → (leb a q && ltb q (a + (b + 1 - a))) ≡ (leb a q && leb q b)
upto a b q h = ground arith

-- For a range that goes round past the last sequence number, the numbers that are removed are
-- those of the range except CSeqNo::m_iMaxSeqNo, which is never removed.
pub remove_range_misses_last :
    (s : RcvLossList) (a b : ℕ)
    → IsSeqNo a
    → b < a
    → (qs : List ℕ) × (remove_range s a b ≡ remove_all (some s) qs)
      × ((q : ℕ) → elem q qs ≡ ((leb a q && ltb q max_seq_no) || leb q b))
unfolding remove_range
remove_range_misses_last s a b ha h = (
  interval a (max_seq_no - a) ++ interval 0 (b + 1),
  rw (leb-after a b h) (
      remove_each-all _ 0 (b + 1)
      ∙ ap (λ o. remove_all o (interval 0 (b + 1))) (remove_each-all (some s) a (max_seq_no - a))
      ∙ sym (remove_all-append (some s) (interval a (max_seq_no - a)) (interval 0 (b + 1)))),
  λ q.
      elem-append q (interval a (max_seq_no - a)) (interval 0 (b + 1))
      ∙ rw (elem-interval q a (max_seq_no - a), elem-interval q 0 (b + 1)) (ends a b q ha),
)

-- For a range that does not, every number of it is removed in turn, unless its end is the last
-- sequence number.
pub remove_range_all :
    (s : RcvLossList) (a b : ℕ)
    → a ≤ b
    → b < max_seq_no
    → (qs : List ℕ) × (remove_range s a b ≡ remove_all (some s) qs)
      × ((q : ℕ) → elem q qs ≡ (leb a q && leb q b))
unfolding remove_range
remove_range_all s a b h hb = (
  interval a (b + 1 - a),
  rw (leb-before a b h, ne→== b max_seq_no (omega arith)) (remove_each-all (some s) a (b + 1 - a)),
  λ q. rw (elem-interval q a (b + 1 - a)) (upto a b q h),
)
