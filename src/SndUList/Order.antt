-- ===== src/SndUList/Order.antt =====
-- CSndUList (src/queue.cpp): the heap order, and the two loops that restore it.
use udt_server.Base.{
  ℕ, zero, suc, ◌+◌, ◌-◌, ◌*◌, ◌/◌, ◌≤◌, ◌<◌, ◌≡◌, ◌≢◌, none, some, ◌⊎◌, List, length, arith,
}
use udt_server.SndUList.{SndUList, get_next_proc_time, at, earlier_child}
use udt_server.SndUList.Place.{Located, swap, at-swap}

abbrev pub parent : ℕ → ℕ
parent c = (c - 1) / 2

module _ (ts : ℕ → ℕ) where
  abbrev pub key : List ℕ → ℕ → ℕ
  key heap i = ts (at heap i)

  abbrev pub IsHeap : List ℕ → ℕ → Type 0
  IsHeap heap count = (c : ℕ) → 0 < c → c < count → key heap (parent c) ≤ key heap c

  -- Only the edge above `q` may be out of order.
  pub record IsHeapButAbove (heap : List ℕ) (count q : ℕ) : Type 0 where
    pub edges : (c : ℕ) → 0 < c → c < count → c ≢ q → key heap (parent c) ≤ key heap c
    pub bridge :
        (c : ℕ) → 0 < c → c < count → parent c ≡ q → 0 < q → key heap (parent q) ≤ key heap c

  -- Only the edges below `q` may be out of order.
  pub record IsHeapButBelow (heap : List ℕ) (count q : ℕ) : Type 0 where
    pub edges : (c : ℕ) → 0 < c → c < count → parent c ≢ q → key heap (parent c) ≤ key heap c
    pub bridge :
        (c : ℕ) → 0 < c → c < count → parent c ≡ q → 0 < q → key heap (parent q) ≤ key heap c

  module _ (heap : List ℕ) (count q : ℕ) (fits : count ≤ length heap) (inside : q < count) where
    pub up_step :
        IsHeapButAbove heap count q
        → 0 < q
        → key heap q < key heap (parent q)
        → IsHeapButAbove (swap heap (parent q) q) count (parent q)
    up_step v pos below =
        let s = λ (i : ℕ). at-swap heap (parent q) q i (omega arith) (omega arith) in
        record {
          edges = λ c p h ne. ground (arith, s c, s (parent c), v.edges c, v.bridge c);
          bridge = λ c p h e r.
              ground (arith, s c, s (parent (parent q)), v.edges c, v.edges (parent q));
        }

    -- The child that the loop picks is no later than the other one.
    pub child_least :
        q * 2 + 1 < count
        → let m = earlier_child ts count heap q in
          (m < count)
          × ((m ≡ q * 2 + 1) ⊎ (m ≡ q * 2 + 2))
          × ((c : ℕ) → 0 < c → c < count → parent c ≡ q → key heap m ≤ key heap c)
    child_least h = (ground arith, ground arith, λ c p r e. ground arith)

    pub down_step :
        (m : ℕ)
        → IsHeapButBelow heap count q
        → m < count
        → (m ≡ q * 2 + 1) ⊎ (m ≡ q * 2 + 2)
        → ((c : ℕ) → 0 < c → c < count → parent c ≡ q → key heap m ≤ key heap c)
        → key heap m < key heap q
        → IsHeapButBelow (swap heap m q) count m
    down_step m v hm child least below =
        let s = λ (i : ℕ). at-swap heap m q i (omega arith) (omega arith) in
        let up : parent m ≡ q = omega arith in
        record {
          edges = λ c p h ne.
              ground (arith, s c, s (parent c), v.edges c, v.bridge c, v.bridge m, least c);
          bridge = λ c p h e r. ground (arith, s c, s (parent m), v.edges c);
        }

-- The list's invariant: the array holds the nodes, every node knows its place, and no node is
-- earlier than its parent.
pub record IsValid (s : SndUList) : Type 0 where
  pub sized : length s.heap ≡ s.array_length
  pub located : Located s.heap s.heap_loc s.count none
  pub order : IsHeap s.time_stamp s.heap s.count

root_least_below :
    (ts : ℕ → ℕ) (heap : List ℕ) (count : ℕ)
    → IsHeap ts heap count
    → (fuel i : ℕ) → i < fuel
    → i < count
    → key ts heap 0 ≤ key ts heap i
root_least_below ts heap count o zero i f h = absurd (omega arith)
root_least_below ts heap count o (suc fuel) i f h =
    ground (arith, o i, root_least_below ts heap count o fuel (parent i))

-- On a valid list with an entry, getNextProcTime gives the time of a node that is on it, and no
-- node on it has an earlier time.
pub get_next_proc_time_least :
    (s : SndUList) (u l : ℕ)
    → IsValid s
    → s.heap_loc u ≡ some l
    → (get_next_proc_time s ≤ s.time_stamp u)
      × (get_next_proc_time s ≡ s.time_stamp (at s.heap 0))
      × (s.heap_loc (at s.heap 0) ≡ some 0)
unfolding get_next_proc_time
get_next_proc_time_least s u l v e =
    let there = v.located.real u l (λ d. cc) e in
    ground (
      arith,
      there,
      v.located.known 0,
      root_least_below s.time_stamp s.heap s.count v.order (suc l) l,
    )
