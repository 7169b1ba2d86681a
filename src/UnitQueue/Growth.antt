-- ===== src/UnitQueue/Growth.antt =====
-- CUnitQueue::increase (src/queue.cpp): the sizes and the count agree with the ring.
use udt_server.Base.{
  ℕ, zero, suc, ◌+◌, ◌*◌, ◌≤◌, ◌≡◌, refl, Bool, true, false, List, [], ◌∷◌, ◌++◌, ltb, get_or,
  length, replicate, arith, inl, inr, Bool-cases, length-replicate,
}
use udt_server.UnitQueue.{UnitQueue, count_used, count_all, increase}

abbrev pub units : List (List ℕ) → ℕ
units [] = 0
units (q ∷ qs) = length q + units qs

-- m_iSize and m_iCount are what the ring holds.
pub record IsExact (s : UnitQueue) : Type 0 where
  pub size : s.size ≡ units s.queues
  pub count : s.count ≡ count_all s.queues

units-append : (qs : List (List ℕ)) (q : List ℕ) → units (qs ++ q ∷ []) ≡ units qs + length q
units-append [] q = omega arith
units-append (x ∷ qs) q = omega (arith, units-append qs q)

count_all-append :
    (qs : List (List ℕ)) (q : List ℕ) → count_all (qs ++ q ∷ []) ≡ count_all qs + count_used q
unfolding count_all
count_all-append [] q = omega arith
count_all-append (x ∷ qs) q = omega (arith, count_all-append qs q)

count_used-replicate : (n : ℕ) → count_used (replicate n 0) ≡ 0
unfolding count_used
count_used-replicate zero = refl
count_used-replicate (suc n) = count_used-replicate n

at_least : (a b : ℕ) → ltb a b ≡ false → b ≤ a
at_least a b h = ground arith

-- Whatever the count was before, increase leaves the exact count of used units and, if the size was
-- exact, the exact size. Its answer is yes only if at least nine units of ten were in use, and the
-- ring then has as many further units, all free, as its first array has.
pub increase_lem :
    (s : UnitQueue) (memory : Bool)
    → s.size ≡ units s.queues
    → IsExact ((increase s memory).0)
      × ((increase s memory).1 ≡ true
          → (s.size * 9 ≤ (increase s memory).0.count * 10)
            × ((increase s memory).0.size ≡ s.size + length (get_or s.queues 0 [])))
unfolding increase
increase_lem s true e = elim (Bool-cases (ltb (count_all s.queues * 10) (s.size * 9))) [
  | inl k ↦ rw k (record { size = e; count = refl }, λ h. absurd cc)
  | inr k ↦
      let entry = length (get_or s.queues 0 []) in
      rw k (
        record {
          size = omega (
            arith,
            e,
            units-append s.queues (replicate entry 0),
            length-replicate {A = ℕ} entry 0,
          );
          count =
              omega
                (arith, count_all-append s.queues (replicate entry 0), count_used-replicate entry);
        },
        λ h. (
          omega (
            arith,
            count_all-append s.queues (replicate entry 0),
            count_used-replicate entry,
            at_least (count_all s.queues * 10) (s.size * 9) k,
          ),
          refl,
        ),
      )
]
increase_lem s false e = elim (Bool-cases (ltb (count_all s.queues * 10) (s.size * 9))) [
  | inl k ↦ rw k (record { size = e; count = refl }, λ h. absurd cc)
  | inr k ↦ rw k (record { size = e; count = refl }, λ h. absurd cc)
]
