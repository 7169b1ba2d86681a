-- ===== src/UnitQueue/Avail.antt =====
-- CUnitQueue::getNextAvailUnit and increase (src/queue.cpp): which units are handed out.
use udt_server.Base.{
  ℕ, zero, suc, ◌+◌, ◌-◌, ◌%◌, ◌<◌, ◌≤◌, ◌≡◌, ◌⊎◌, refl, Bool, some, List, [], leb, ◌==◌, get_or,
  length, arith, inl, inr, Bool-cases, subst, Option-cases, ==_iff,
}
use udt_server.UnitQueue.{
  UnitQueue, scan, search, search_ring, grown, take_unit, get_next_avail_unit,
}
use mathlib.Core.Option.{some-injective, none-ne-some}

scan-Free :
    (rounds : ℕ) (q : List ℕ) (i j : ℕ)
    → scan rounds q i ≡ some j
    → (get_or q j 0 ≡ 0) × (i ≤ j) × (j < i + rounds)
unfolding scan
scan-Free zero q i j e = absurd (none-ne-some j e)
scan-Free (suc rounds) q i j e = elim (Bool-cases (get_or q i 0 == 0)) [
  | inl k ↦
      let same = some-injective i j (rw k at e) in
      (subst (λ x. get_or q x 0 ≡ 0) same ((==_iff (get_or q i 0) 0).0 k), omega arith, omega arith)
  | inr k ↦
      let (zeroed, above, below) = scan-Free rounds q (suc i) j (rw k at e) in
      (zeroed, omega arith, omega arith)
]

-- The unit `j` of the array `q` is free, and is the first or is not the last.
abbrev pub IsOffered : List ℕ → ℕ → Type 0
IsOffered q j = (get_or q j 0 ≡ 0) × ((j ≡ 0) ⊎ (j + 1 < length q))

search-IsOffered : (q : List ℕ) (i j : ℕ) → search q i ≡ some j → IsOffered q j
search-IsOffered q i j e = elim (Option-cases (scan (length q - 1 - i) q i)) [
  | inr (j', k) ↦
      let same = some-injective j' j (rw (search, k) at e) in
      let (zeroed, above, below) = scan-Free (length q - 1 - i) q i j' k in
      subst (IsOffered q) same (zeroed, inr (omega arith))
  | inl k ↦ elim (Bool-cases (get_or q 0 0 == 0)) [
    | inl l ↦
        let same = some-injective 0 j (rw (search, k, l) at e) in
        subst (IsOffered q) same ((==_iff (get_or q 0 0) 0).0 l, inl refl)
    | inr l ↦ absurd (none-ne-some j (rw (search, k, l) at e))
  ]
]

search_ring-IsOffered :
    (rounds : ℕ) (qs : List (List ℕ)) (c i c' j : ℕ)
    → search_ring rounds qs c i ≡ some (c', j)
    → IsOffered (get_or qs c' []) j
unfolding search_ring
search_ring-IsOffered zero qs c i c' j e = absurd (none-ne-some (c', j) e)
search_ring-IsOffered (suc rounds) qs c i c' j e = elim (Option-cases (search (get_or qs c []) i)) [
  | inr (j', k) ↦
      let same = some-injective (c, j') (c', j) (rw (search_ring, k) at e) in
      subst (λ x. IsOffered (get_or qs (x.0) []) (x.1)) same
        (search-IsOffered (get_or qs c []) i j' k)
  | inl k ↦ search_ring-IsOffered rounds qs ((c + 1) % length qs) 0 c' j (rw (search_ring, k) at e)
]

abbrev pub IsAnswer : UnitQueue → ℕ → ℕ → Type 0
IsAnswer s c j = IsOffered (get_or s.queues c []) j × (s.curr ≡ c) × (s.avail ≡ j)

take_unit-IsAnswer :
    (s : UnitQueue) (memory : Bool) (c j : ℕ)
    → (take_unit s memory).1 ≡ some (c, j)
    → IsAnswer ((take_unit s memory).0) c j
unfolding take_unit
take_unit-IsAnswer s memory c j e = elim (Bool-cases (leb s.size s.count)) [
  | inl k ↦ absurd (none-ne-some (c, j) (rw k at e))
  | inr k ↦ elim (Option-cases (search_ring (length s.queues) s.queues s.curr s.avail)) [
    | inl l ↦ absurd (none-ne-some (c, j) (rw (k, l) at e))
    | inr (x, l) ↦
        let same = some-injective x (c, j) (rw (k, l) at e) in
        let found = search_ring-IsOffered (length s.queues) s.queues s.curr s.avail (x.0) (x.1) l in
        rw (k, l)
          (subst (λ y. IsAnswer (record s { curr = x.0; avail = x.1 }) (y.0) (y.1)) same
            (found, refl, refl))
  ]
]

-- A unit that is handed out is free, m_pCurrQueue and m_pAvailUnit stand on it, and it is the first
-- unit of its array or not the last one.
pub get_next_avail_unit-IsAnswer :
    (s : UnitQueue) (memory : Bool) (c j : ℕ)
    → (get_next_avail_unit s memory).1 ≡ some (c, j)
    → IsAnswer ((get_next_avail_unit s memory).0) c j
unfolding get_next_avail_unit
get_next_avail_unit-IsAnswer s memory c j e = take_unit-IsAnswer (grown s memory) memory c j e
