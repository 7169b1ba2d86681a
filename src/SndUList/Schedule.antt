-- ===== src/SndUList/Schedule.antt =====
-- CSndUList::remove_ and pop (src/queue.cpp): what leaves the schedule, and the order of the rest.
use udt_server.Base.{
  ℕ, zero, suc, ◌+◌, ◌-◌, ◌*◌, ◌≤◌, ◌<◌, ◌≡◌, ◌≢◌, refl, sym, ◌∙◌, ap, Option-cases, none, some,
  inl, inr, Bool-cases, not, ◌||◌, ltb, ◌==◌, if◌then◌else◌, length, arith, true, false, length-set,
  get_or-set,
}
use udt_server.SndUList.{SndUList, at, earlier_child, sift_down, cut_out, remove_node, pop, Sender}
use udt_server.SndUList.Place.{Located, is_off, at_inj}
use udt_server.SndUList.Order.{
  IsValid, get_next_proc_time_least, parent, key, IsHeap, IsHeapButBelow,
}
use udt_server.SndUList.Insert.{insert_node-IsValid}
use udt_server.SndUList.Remove.{child_in, Settled, sift_down-Settled, sift_down-IsHeap}

module _ (s : SndUList) (u l : ℕ) (v : IsValid s) (on : s.heap_loc u ≡ some l) where
  abbrev last : ℕ
  last = at s.heap (s.count - 1)

  stands : (l < s.count) × (at s.heap l ≡ u)
  stands = v.located.real u l (λ e. cc) on

  at-cut : (i : ℕ) → at (cut_out s l).heap i ≡ (if l == i then last else at s.heap i)
  at-cut i = get_or-set s.heap l i last 0 (omega (arith, stands, v.located.fits))

  -- No other entry is the node that leaves.
  elsewhere : (i : ℕ) → i < s.count → i ≢ l → at s.heap i ≢ u
  elsewhere i h ne e = ne (at_inj v.located i l h stands.0 (e ∙ sym stands.1))

  cut-Located : Located (cut_out s l).heap (cut_out s l).heap_loc (s.count - 1) (some u)
  cut-Located = record {
    fits = omega (arith, v.located.fits, length-set s.heap l last);
    known =
        λ i h. ground (arith, at-cut i, v.located.known i, v.located.known (s.count - 1), stands);
    real = λ w i k e.
        ground (arith, at-cut i, v.located.real w i, v.located.known (s.count - 1), stands);
    kept_off = λ i h e. ground (arith, at-cut i, elsewhere i, elsewhere (s.count - 1), stands);
  }

  settled :
      Settled s.time_stamp
        (s.count - 1)
        (some u)
        (cut_out s l)
        (sift_down s.time_stamp (s.count - 1) s.count (cut_out s l))
  settled = sift_down-Settled s.time_stamp (s.count - 1) (some u) s.count (cut_out s l) cut-Located

  -- Removing a socket takes it off the list and leaves every other one on it or off it, with all
  -- times as they were.
  pub remove_node_schedules :
      (w : ℕ)
      → (is_off ((remove_node s u).heap_loc w) ≡ (if u == w then true else is_off (s.heap_loc w)))
        × ((remove_node s u).time_stamp w ≡ s.time_stamp w)
  unfolding remove_node
  remove_node_schedules w =
      rw (on, remove_node)
        (ground (arith, settled.same w, v.located.known (s.count - 1), stands), refl)

  remove_node-Located :
      Located (remove_node s u).heap (remove_node s u).heap_loc (remove_node s u).count none
  unfolding remove_node
  remove_node-Located =
      rw (on, remove_node)
        (record {
          fits = settled.located.fits;
          known = λ i h. ground (arith, settled.located.known i h, settled.located.kept_off i h);
          real = λ w i k e. ground (arith, settled.located.real w i);
          kept_off = λ i h e. cc;
        })

  remove_node-sized : length (remove_node s u).heap ≡ (remove_node s u).array_length
  unfolding remove_node
  remove_node-sized = rw (on, remove_node) (settled.size ∙ length-set s.heap l last ∙ v.sized)

  module _ (fair : 0 < l → key s.time_stamp s.heap (parent l) ≤ s.time_stamp last) where
    cut-IsHeapButBelow : IsHeapButBelow s.time_stamp (cut_out s l).heap (s.count - 1) l
    cut-IsHeapButBelow = record {
      edges = λ c p h ne. ground (arith, at-cut c, at-cut (parent c), v.order c);
      bridge = λ c p h e r. ground (arith, at-cut c, at-cut (parent l), v.order c, v.order l);
    }

    remove_node-IsHeap :
        IsHeap (remove_node s u).time_stamp (remove_node s u).heap (remove_node s u).count
    unfolding remove_node
    remove_node-IsHeap =
        rw (on, remove_node)
          (sift_down-IsHeap s.time_stamp (s.count - 1) (some u) s.count (cut_out s l)
            (omega (arith, stands)) cut-Located.fits cut-IsHeapButBelow)

    -- Removing keeps the invariant, unless the last node of the array is earlier than the parent of
    -- the place that becomes free.
    pub remove_node-IsValid : IsValid (remove_node s u)
    remove_node-IsValid = record {
      sized = remove_node-sized;
      located = remove_node-Located;
      order = remove_node-IsHeap;
    }

  remove_node-room : 0 < s.array_length → (remove_node s u).count < (remove_node s u).array_length
  unfolding remove_node
  remove_node-room h = rw (on, remove_node) (omega (arith, stands, v.located.fits, v.sized))

  settles_at_once :
      0 < l
      → s.time_stamp last < key s.time_stamp s.heap (parent l)
      → (fuel : ℕ) → sift_down s.time_stamp (s.count - 1) fuel (cut_out s l) ≡ cut_out s l
  unfolding sift_down
  settles_at_once pos early zero = refl
  settles_at_once pos early (suc fuel) = elim (Bool-cases (ltb (l * 2 + 1) (s.count - 1))) [
    | inr leaf ↦ rw leaf
    | inl child ↦
        let m = earlier_child s.time_stamp (s.count - 1) (cut_out s l).heap l in
        let range =
          child_in s.time_stamp (s.count - 1) (some u) (cut_out s l).heap l (ground arith) in
        let late : ltb (s.time_stamp (at (cut_out s l).heap m))
              (s.time_stamp (at (cut_out s l).heap l))
            ≡ false =
          ground (arith, range, at-cut m, at-cut l, v.order m, v.order l, stands) in
        rw (child, late)
  ]

  -- In a list that is in order, the last node is earlier than the parent of the place of a node that
  -- is removed, which is neither the root nor the last one. Then the last node moves to that place and
  -- stays there, and the list is left out of order.
  pub remove_node_disorders :
      0 < l
      → l < s.count - 1
      → s.time_stamp last < key s.time_stamp s.heap (parent l)
      → (at (remove_node s u).heap l ≡ at s.heap (s.count - 1))
        × ((remove_node s u).count ≡ s.count - 1)
        × (¬ IsHeap (remove_node s u).time_stamp (remove_node s u).heap (remove_node s u).count)
  unfolding remove_node
  remove_node_disorders pos inner early =
      let left : (remove_node s u).heap ≡ (cut_out s l).heap =
        rw (on, remove_node) (ap (λ t. t.heap) (settles_at_once pos early s.count)) in
      let size : (remove_node s u).count ≡ s.count - 1 = rw (on, remove_node) refl in
      let times : (remove_node s u).time_stamp ≡ s.time_stamp = rw (on, remove_node) refl in
      (
        ap (λ h. at h l) left ∙ ground (arith, at-cut l),
        size,
        λ o.
            let bad = rw (left, size, times) at o l pos in
            ground (arith, bad, at-cut l, at-cut (parent l)),
      )

-- `remove_` keeps the invariant where the node is the root, as in `pop`.
pub remove_root-IsValid :
    (s : SndUList) → IsValid s → 0 < s.count → IsValid (remove_node s (at s.heap 0))
remove_root-IsValid s v some_node =
    remove_node-IsValid s (at s.heap 0) 0 v (v.located.known 0 some_node)
      (λ p. absurd (omega arith))

-- `pop` keeps the invariant, whatever the sockets answer.
pub pop-IsValid :
    (s : SndUList) (now : ℕ) (sockets : ℕ → Sender) → IsValid s → IsValid (pop s now sockets).0
unfolding pop
pop-IsValid s now sockets v = elim (Bool-cases (s.count == 0)) [
  | inl empty ↦ rw empty v
  | inr filled ↦
      let some_node : 0 < s.count = ground arith in
      let u = at s.heap 0 in
      let rest = remove_root-IsValid s v some_node in
      let room =
        remove_node-room s u 0 v (v.located.known 0 some_node)
          (omega (arith, v.located.fits, v.sized)) in
      rw filled (elim (Bool-cases (ltb now (s.time_stamp u))) [
        | inl early ↦ rw early v
        | inr due ↦ rw due (elim (Bool-cases (not (sockets u).connected || (sockets u).broken)) [
          | inl closed ↦ rw closed rest
          | inr live ↦ rw live (elim (Option-cases ((sockets u).pack_data now)) [
            | inl nothing ↦ rw (nothing, pop) rest
            | inr (next, packed) ↦
                rw (packed, pop)
                  (elim (Bool-cases (ltb 0 next)) [
                    | inl again ↦ rw again (insert_node-IsValid (remove_node s u) next u rest room)
                    | inr done ↦ rw done rest
                  ])
          ])
        ])
      ])
]

popped :
    (s : SndUList) (now : ℕ) (sockets : ℕ → Sender) (u : ℕ)
    → (pop s now sockets).1 ≡ some u
    → (u ≡ at s.heap 0)
      × (s.time_stamp u ≤ now)
      × ((sockets u).connected ≡ true)
      × ((sockets u).broken ≡ false)
unfolding pop
popped s now sockets u e = ground arith

-- Where the list is in order, a heap whose nodes have their places noted: the socket whose packet
-- `pop` sends was due, no socket on the list was due earlier, and it is connected and not broken.
pub pop_earliest :
    (s : SndUList) (now : ℕ) (sockets : ℕ → Sender) (u : ℕ)
    → IsValid s
    → (pop s now sockets).1 ≡ some u
    → (s.time_stamp u ≤ now)
      × ((w l : ℕ) → s.heap_loc w ≡ some l → s.time_stamp u ≤ s.time_stamp w)
      × ((sockets u).connected ≡ true)
      × ((sockets u).broken ≡ false)
pop_earliest s now sockets u v e =
    let p = popped s now sockets u e in
    (
      p.1,
      λ w l on. omega (arith, get_next_proc_time_least s w l v on, ap s.time_stamp p.0),
      p.2,
      p.3,
    )
