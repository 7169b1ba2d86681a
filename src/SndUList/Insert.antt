-- ===== src/SndUList/Insert.antt =====
-- CSndUList::insert_ (src/queue.cpp): the loop upwards, and what an insertion does to the schedule.
use udt_server.Base.{
  ℕ, zero, suc, ◌*◌, ◌<◌, ◌≡◌, ◌≢◌, refl, sym, ◌∙◌, ap, Option, Option-cases, Bool, [], ◌∷◌, ◌++◌,
  replicate, length-append, length-replicate, none, some, inl, inr, Bool-cases, List, ltb, ◌==◌,
  if◌then◌else◌, length, set, arith, false, length-set, get_or-set,
}
use udt_server.SndUList.{SndUList, at, update_at, Tree, swap_up, sift_up, insert_node, insert}
use udt_server.SndUList.Place.{
  Located, is_off, length-swap, at-swap, at_inj, trade, swap-Located, is_off-swap, Located-ext,
}
use udt_server.SndUList.Order.{IsValid, parent, IsHeap, IsHeapButAbove, up_step}

-- The locations, with the one that the loop still owes to the node that it moves.
abbrev pub held : Tree → ℕ → ℕ → Option ℕ
held t n = update_at t.heap_loc n (some t.q)

module _ (ts : ℕ → ℕ) (count n : ℕ) where
  record Lifting (t : Tree) : Type 0 where
    located : Located t.heap (held t n) count none
    node : at t.heap t.q ≡ n
    inside : t.q < count

  record Lifted (from t : Tree) : Type 0 where
    valid : Lifting t
    order : IsHeap ts t.heap count
    size : length t.heap ≡ length from.heap
    same : (v : ℕ) → is_off (held t n v) ≡ is_off (held from n v)

  module _ (t : Tree) (l : Lifting t) (pos : 0 < t.q) where
    other : at t.heap (parent t.q) ≢ n
    other e =
        let i =
          at_inj l.located (parent t.q) t.q (omega (arith, l.inside)) l.inside (e ∙ sym l.node) in
        omega arith

    above : parent t.q < count
    above = omega (arith, l.inside)

    swap_up-held :
        (v : ℕ) → held (swap_up t (parent t.q)) n v ≡ trade (held t n) t.heap (parent t.q) t.q v
    swap_up-held v = ground (arith, l.node, other)

    swap_up-Lifting : Lifting (swap_up t (parent t.q))
    swap_up-Lifting = record {
      located =
          Located-ext _ swap_up-held
            (swap-Located l.located (parent t.q) t.q above l.inside (omega arith));
      node =
          ground
            (arith, l.node, l.located.fits, l.inside, at-swap t.heap (parent t.q) t.q (parent t.q));
      inside = above;
    }

    swap_up-same : (v : ℕ) → is_off (held (swap_up t (parent t.q)) n v) ≡ is_off (held t n v)
    swap_up-same v =
        ap is_off (swap_up-held v)
        ∙ is_off-swap l.located (parent t.q) t.q above l.inside (omega arith) v

  -- The loop ends with the heap in order and the moved node's index in hand.
  sift_up-Lifted :
      (fuel : ℕ) (t : Tree)
      → t.q < fuel
      → Lifting t
      → IsHeapButAbove ts t.heap count t.q
      → Lifted t (sift_up ts fuel t)
  unfolding sift_up
  sift_up-Lifted zero t f l h = absurd (omega arith)
  sift_up-Lifted (suc fuel) t f l h = elim (Bool-cases (t.q == 0)) [
    | inl top ↦ rw top (record {
      valid = l;
      order = λ c p r. h.edges c p r (ground arith);
      size = refl;
      same = λ v. refl;
    })
    | inr deep ↦ elim (Bool-cases (ltb (ts (at t.heap t.q)) (ts (at t.heap (parent t.q))))) [
      | inl early ↦
          let pos : 0 < t.q = ground arith in
          let rest =
            sift_up-Lifted fuel (swap_up t (parent t.q)) (omega arith) (swap_up-Lifting t l pos)
              (up_step ts t.heap count t.q l.located.fits l.inside h pos (ground arith)) in
          rw (deep, early)
            (record {
              valid = rest.valid;
              order = rest.order;
              size = rest.size ∙ length-swap t.heap (parent t.q) t.q;
              same = λ v. rest.same v ∙ swap_up-same t l pos v;
            })
      | inr late ↦
          rw (deep, late)
            (record {
              valid = l;
              order = λ c p r. ground (arith, h.edges c p r);
              size = refl;
              same = λ v. refl;
            })
    ]
  ]

module _ (s : SndUList) (time u : ℕ) (v : IsValid s) (off : s.heap_loc u ≡ none)
    (room : s.count < s.array_length) where
  abbrev stamps : ℕ → ℕ
  stamps = update_at s.time_stamp u time

  abbrev start : Tree
  start = record { heap = set s.heap s.count u; heap_loc = s.heap_loc; q = s.count }

  at-start : (i : ℕ) → at start.heap i ≡ (if s.count == i then u else at s.heap i)
  at-start i = get_or-set s.heap s.count i u 0 (omega (arith, v.sized))

  stranger : (i : ℕ) → i < s.count → at s.heap i ≢ u
  stranger i h e = ground (arith, v.located.known i h)

  start-Lifting : Lifting stamps (suc s.count) u start
  start-Lifting = record {
    located = record {
      fits = omega (arith, v.sized, length-set s.heap s.count u);
      known = λ i h. ground (arith, at-start i, v.located.known i, stranger i);
      real = λ w i k e. ground (arith, at-start i, v.located.real w i k);
      kept_off = λ i h e. cc;
    };
    node = ground (arith, at-start s.count);
    inside = omega arith;
  }

  start-IsHeapButAbove : IsHeapButAbove stamps start.heap (suc s.count) s.count
  start-IsHeapButAbove = record {
    edges = λ c p h ne.
        ground (arith, at-start c, at-start (parent c), stranger c, stranger (parent c), v.order c);
    bridge = λ c p h e r. absurd (omega arith);
  }

  lifted : Lifted stamps (suc s.count) u start (sift_up stamps (suc s.count) start)
  lifted =
      sift_up-Lifted stamps (suc s.count) u (suc s.count) start (omega arith) start-Lifting
        start-IsHeapButAbove

  insert_fresh-IsValid : IsValid (insert_node s time u)
  unfolding insert_node
  insert_fresh-IsValid =
      rw (off, insert_node)
        (record {
          sized = lifted.size ∙ length-set s.heap s.count u ∙ v.sized;
          located = lifted.valid.located;
          order = lifted.order;
        })

  -- Inserting a socket that is not on the list puts it there with its time; whether another socket
  -- is on the list, and its time, stay as they were.
  pub insert_node_schedules :
      (w : ℕ)
      → (is_off ((insert_node s time u).heap_loc w)
          ≡ (if u == w then false else is_off (s.heap_loc w)))
        × ((insert_node s time u).time_stamp w ≡ (if u == w then time else s.time_stamp w))
  unfolding insert_node
  insert_node_schedules w = rw (off, insert_node) (lifted.same w ∙ ground arith, refl)

-- `insert_` keeps the invariant wherever the array has a free entry; a socket that is on the list
-- already leaves everything as it is.
pub insert_node-IsValid :
    (s : SndUList) (time u : ℕ)
    → IsValid s
    → s.count < s.array_length
    → IsValid (insert_node s time u)
unfolding insert_node
insert_node-IsValid s time u v room = elim (Option-cases (s.heap_loc u)) [
  | inl off ↦ insert_fresh-IsValid s time u v off room
  | inr (l, e) ↦ rw (e, insert_node) v
]

grown : SndUList → SndUList
grown s = record s {
  heap = s.heap ++ replicate s.array_length 0;
  array_length = s.array_length * 2;
}

at-append : (xs ys : List ℕ) (i : ℕ) → i < length xs → at (xs ++ ys) i ≡ at xs i
at-append [] ys i h = absurd (omega arith)
at-append (x ∷ xs) ys zero h = refl
at-append (x ∷ xs) ys (suc i) h = at-append xs ys i (omega arith)

grown-IsValid : (s : SndUList) → IsValid s → IsValid (grown s)
unfolding grown
grown-IsValid s v =
    let same = at-append s.heap (replicate s.array_length 0) in
    let fits = v.located.fits in
    let size = length-append s.heap (replicate s.array_length 0) in
    let extra = length-replicate {A = ℕ} s.array_length 0 in
    record {
      sized = omega (arith, size, extra, v.sized);
      located = record {
        fits = omega (arith, size);
        known = λ i h. ground (arith, same i, v.located.known i h);
        real = λ w i k e. ground (arith, v.located.real w i k e, same i);
        kept_off = λ i h e. cc;
      };
      order = λ c p h. ground (arith, same c, same (parent c), v.order c p h);
    }

-- Inserting through the public method keeps the invariant in every case: with room, with a full
-- array that is doubled first, and with a full array and no memory, where nothing changes.
pub insert-IsValid :
    (s : SndUList) (memory : Bool) (time u : ℕ)
    → IsValid s
    → 0 < s.array_length
    → IsValid (insert s memory time u)
unfolding insert grown
insert-IsValid s memory time u v some_room = elim (Bool-cases (s.count == s.array_length)) [
  | inl full ↦ rw full (elim (Bool-cases memory) [
    | inl m ↦ rw m (insert_node-IsValid (grown s) time u (grown-IsValid s v) (ground arith))
    | inr m ↦ rw m v
  ])
  | inr room ↦ rw room (insert_node-IsValid s time u v (ground (arith, v.located.fits, v.sized)))
]
