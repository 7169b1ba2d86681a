-- ===== src/UnitQueue.antt =====
-- src/queue.h and src/queue.cpp, the class CUnitQueue: the storage for received packets, a ring of
-- arrays of units.
-- An array (a CQEntry) is the list of its units' m_iFlag, and the ring is the list of the arrays
-- from m_pQEntry on; m_pLastQueue is the last of them. m_pCurrQueue is an index into the ring, and
-- m_pAvailUnit one into that array. The numbers are kept without the bound of an int, and the
-- packets' buffers are left out.
pub mod Avail
pub mod Growth
mod Tests
use udt_server.Base.{
  ℕ, zero, suc, ◌+◌, ◌-◌, ◌*◌, ◌%◌, Bool, true, false, Option, none, some, List, [], ◌∷◌, ◌++◌, ltb,
  leb, ◌==◌, if◌then◌else◌, get_or, replicate, length,
}

pub record UnitQueue : Type 0 where
  pub queues : List (List ℕ)
  pub curr : ℕ
  pub avail : ℕ
  pub count : ℕ
  pub size : ℕ
  pub mss : ℕ

-- `memory` says whether the three allocations succeed. `none` is the result -1.
unfoldable pub init : Bool → ℕ → ℕ → Option UnitQueue
init memory size mss =
    if memory
    then some (record {
      queues = replicate size 0 ∷ [];
      curr = 0;
      avail = 0;
      count = 0;
      size = size;
      mss = mss;
    })
    else none

-- The units of an array that are in use.
unfoldable pub count_used : List ℕ → ℕ
count_used [] = 0
count_used (f ∷ fs) = if f == 0 then count_used fs else suc (count_used fs)

unfoldable pub count_all : List (List ℕ) → ℕ
count_all [] = 0
count_all (q ∷ qs) = count_used q + count_all qs

-- The count is corrected; the ring gets one more array of the same size where at least nine units
-- of ten are used and there is memory. The Boolean is `true` for the result 0. The quotient of the
-- two int as a double is below 0.9 exactly where ten times the first is below nine times the second.
unfoldable pub increase : UnitQueue → Bool → UnitQueue × Bool
increase s memory =
    let counted = record s { count = count_all s.queues } in
    let entry = length (get_or s.queues 0 []) in
    if ltb (count_all s.queues * 10) (s.size * 9)
    then (counted, false)
    else if memory
    then (
      record counted { queues = s.queues ++ replicate entry 0 ∷ []; size = s.size + entry },
      true,
    )
    else (counted, false)

-- The inner loop, from the unit `i` to the last one of the array, which it does not look at.
unfoldable pub scan : ℕ → List ℕ → ℕ → Option ℕ
scan zero q i = none
scan (suc rounds) q i =
    let rest = scan rounds q (suc i) in if get_or q i 0 == 0 then some i else rest

-- The units of the array `q` that a round of the outer loop looks at: from `i` on, then the first.
abbrev pub search : List ℕ → ℕ → Option ℕ
search q i = elim (scan (length q - 1 - i) q i) [
  | some j ↦ some j
  | none ↦ if get_or q 0 0 == 0 then some 0 else none
]

-- The outer loop, which goes round at most once. The result is the array and the unit.
unfoldable pub search_ring : ℕ → List (List ℕ) → ℕ → ℕ → Option (ℕ × ℕ)
search_ring zero qs c i = none
search_ring (suc rounds) qs c i =
    let rest = search_ring rounds qs ((c + 1) % length qs) 0 in
    elim (search (get_or qs c []) i) [ some j ↦ some (c, j) | none ↦ rest ]

-- The queue after the test at the start of getNextAvailUnit.
abbrev pub grown : UnitQueue → Bool → UnitQueue
grown s memory = if ltb (s.size * 9) (s.count * 10) then (increase s memory).0 else s

-- The rest of it.
unfoldable pub take_unit : UnitQueue → Bool → UnitQueue × Option (ℕ × ℕ)
take_unit s memory =
    if leb s.size s.count
    then (s, none)
    else elim (search_ring (length s.queues) s.queues s.curr s.avail) [
      | some (c, j) ↦ (record s { curr = c; avail = j }, some (c, j))
      | none ↦ ((increase (record s { avail = 0 }) memory).0, none)
    ]

-- The unit is the index of its array and its index there; `none` is NULL.
unfoldable pub get_next_avail_unit : UnitQueue → Bool → UnitQueue × Option (ℕ × ℕ)
get_next_avail_unit s memory = take_unit (grown s memory) memory
