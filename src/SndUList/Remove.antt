-- ===== src/SndUList/Remove.antt =====
-- CSndUList::remove_ (src/queue.cpp): the loop downwards, and when the heap order survives.
use udt_server.Base.{
  ℕ, zero, suc, ◌+◌, ◌*◌, ◌≤◌, ◌<◌, ◌≡◌, ◌≢◌, refl, ◌∙◌, Option, inl, inr, Bool-cases, List, ltb,
  length, arith,
}
use udt_server.SndUList.{at, Tree, earlier_child, swap_down, sift_down}
use udt_server.SndUList.Place.{Located, is_off, length-swap, swap-Located, is_off-swap}
use udt_server.SndUList.Order.{IsHeap, IsHeapButBelow, child_least, down_step}

module _ (ts : ℕ → ℕ) (count : ℕ) (skip : Option ℕ) where
  pub record Settled (from t : Tree) : Type 0 where
    pub located : Located t.heap t.heap_loc count skip
    pub size : length t.heap ≡ length from.heap
    pub same : (v : ℕ) → is_off (t.heap_loc v) ≡ is_off (from.heap_loc v)

  pub child_in :
      (heap : List ℕ) (q : ℕ)
      → q * 2 + 1 < count
      → (q < earlier_child ts count heap q) × (earlier_child ts count heap q < count)
  child_in heap q h = ground arith

  -- Whatever the order, the loop keeps the places right.
  pub sift_down-Settled :
      (fuel : ℕ) (t : Tree)
      → Located t.heap t.heap_loc count skip
      → Settled t (sift_down ts count fuel t)
  unfolding sift_down
  sift_down-Settled zero t l = record { located = l; size = refl; same = λ v. refl }
  sift_down-Settled (suc fuel) t l = elim (Bool-cases (ltb (t.q * 2 + 1) count)) [
    | inr leaf ↦ rw leaf (record { located = l; size = refl; same = λ v. refl })
    | inl child ↦
        let m = earlier_child ts count t.heap t.q in
        elim (Bool-cases (ltb (ts (at t.heap m)) (ts (at t.heap t.q)))) [
          | inr done ↦ rw (child, done) (record { located = l; size = refl; same = λ v. refl })
          | inl early ↦
              let in_range = child_in t.heap t.q (ground arith) in
              let inside : t.q < count = omega arith in
              let apart : m ≢ t.q = omega arith in
              let rest =
                sift_down-Settled fuel (swap_down t m)
                  (swap-Located l m t.q in_range.1 inside apart) in
              rw (child, early)
                (record {
                  located = rest.located;
                  size = rest.size ∙ length-swap t.heap m t.q;
                  same = λ v. rest.same v ∙ is_off-swap l m t.q in_range.1 inside apart v;
                })
        ]
  ]

  -- A heap with one node too high is put in order, with enough rounds.
  pub sift_down-IsHeap :
      (fuel : ℕ) (t : Tree)
      → count < fuel + t.q
      → count ≤ length t.heap
      → IsHeapButBelow ts t.heap count t.q
      → IsHeap ts (sift_down ts count fuel t).heap count
  unfolding sift_down
  sift_down-IsHeap zero t f fits h = λ c p r. h.edges c p r (omega arith)
  sift_down-IsHeap (suc fuel) t f fits h = elim (Bool-cases (ltb (t.q * 2 + 1) count)) [
    | inr leaf ↦ rw leaf (λ c p r. h.edges c p r (ground arith))
    | inl child ↦
        let m = earlier_child ts count t.heap t.q in
        let inside : t.q < count = ground arith in
        let least = child_least ts t.heap count t.q fits inside (ground arith) in
        elim (Bool-cases (ltb (ts (at t.heap m)) (ts (at t.heap t.q)))) [
          | inr done ↦ rw (child, done) (λ c p r. ground (arith, h.edges c p r, least.2 c p r))
          | inl early ↦
              rw (child, early)
                (sift_down-IsHeap fuel (swap_down t m) (omega (arith, least.1))
                  (omega (arith, length-swap t.heap m t.q))
                  (down_step ts t.heap count t.q fits inside m h least.0 least.1 least.2
                    (ground arith)))
        ]
  ]
