-- ===== src/SndUList/Tests.antt =====
-- Runs of CSndUList (src/queue.cpp) on small heaps, and the theorems about it applied.
use udt_server.Base.{
  ℕ, ◌+◌, ◌-◌, ◌++◌, ◌∙◌, ap, take, length, Bool-cases, inl, inr, zero, suc, ◌<◌, ◌≤◌, ◌≡◌, refl,
  true, false, Option, none, some, List, [], ◌∷◌, arith, if◌then◌else◌, ◌==◌,
}
use udt_server.SndUList.{SndUList, at, Sender, sift_up, sift_down, insert_node, remove_node, pop}
use udt_server.SndUList.Order.{IsValid, IsHeap}
use udt_server.SndUList.Schedule.{remove_node-IsValid, remove_node_disorders, pop_earliest}

-- Socket `u` waits until the time `u`, so that an array of sockets shows the order.
abbrev place_in : List ℕ → ℕ → ℕ → Option ℕ
place_in [] u i = none
place_in (x ∷ xs) u i = if x == u then some i else place_in xs u (suc i)

abbrev waiting : List ℕ → ℕ → SndUList
waiting xs n = record {
  heap = xs;
  array_length = 8;
  count = n;
  time_stamp = λ u. u;
  heap_loc = λ u. place_in (take n xs) u 0;
  interrupts = 0;
  signals = 0;
}

-- Sockets 10 and 2 under 1, 11 and 12 under 10, and 3, the last one, under 2.
abbrev six : SndUList
six = waiting (1 ∷ 10 ∷ 2 ∷ 11 ∷ 12 ∷ 3 ∷ 0 ∷ 0 ∷ []) 6

-- Removing 11, whose parent is 10, moves 3 under 10.
disordered : (remove_node six 11).heap ≡ 1 ∷ 10 ∷ 2 ∷ 3 ∷ 12 ∷ 3 ∷ 0 ∷ 0 ∷ []
unfolding remove_node sift_down
disordered = refl

-- A socket that is inserted with an early time climbs to the root.
climbs : (insert_node six 0 7).heap ≡ 7 ∷ 10 ∷ 1 ∷ 11 ∷ 12 ∷ 3 ∷ 2 ∷ 0 ∷ []
unfolding insert_node sift_up
climbs = refl

place_in_real :
    (xs rest : List ℕ) (v k i : ℕ)
    → place_in xs v k ≡ some i
    → (k ≤ i) × (i < k + length xs) × (at (xs ++ rest) (i - k) ≡ v)
place_in_real [] rest v k i e = cc
place_in_real (x ∷ xs) rest v k i e = elim (Bool-cases (x == v)) [
  | inl hit ↦
      let here : some k ≡ some i = rw hit at e in
      let same : k ≡ i = ground arith in
      (
        omega arith,
        omega arith,
        ap (at (x ∷ xs ++ rest)) {x = i - k} {y = 0} (omega arith) ∙ ground arith,
      )
  | inr miss ↦
      let p = place_in_real xs rest v (suc k) i (rw miss at e) in
      (
        omega arith,
        omega arith,
        ap (at (x ∷ xs ++ rest)) {x = i - k} {y = suc (i - suc k)} (omega arith) ∙ p.2,
      )
]

six-known : (i : ℕ) → i < 6 → six.heap_loc (at six.heap i) ≡ some i
six-known zero h = refl
six-known (suc zero) h = refl
six-known (suc (suc zero)) h = refl
six-known (suc (suc (suc zero))) h = refl
six-known (suc (suc (suc (suc zero)))) h = refl
six-known (suc (suc (suc (suc (suc zero))))) h = refl
six-known (suc (suc (suc (suc (suc (suc i)))))) h = absurd (omega arith)

six-order : IsHeap six.time_stamp six.heap 6
six-order zero p h = omega arith
six-order (suc zero) p h = omega arith
six-order (suc (suc zero)) p h = omega arith
six-order (suc (suc (suc zero))) p h = omega arith
six-order (suc (suc (suc (suc zero)))) p h = omega arith
six-order (suc (suc (suc (suc (suc zero))))) p h = omega arith
six-order (suc (suc (suc (suc (suc (suc i)))))) p h = absurd (omega arith)

six-real : (v i : ℕ) → six.heap_loc v ≡ some i → (i < 6) × (at six.heap i ≡ v)
six-real v i e =
    let p = place_in_real (1 ∷ 10 ∷ 2 ∷ 11 ∷ 12 ∷ 3 ∷ []) (0 ∷ 0 ∷ []) v 0 i e in
    (p.1, ap (at six.heap) {x = i} {y = i - 0} (omega arith) ∙ p.2)

six-IsValid : IsValid six
six-IsValid = record {
  sized = refl;
  located = record {
    fits = omega arith;
    known = six-known;
    real = λ v i off e. six-real v i e;
    kept_off = λ i h e. cc;
  };
  order = six-order;
}

abbrev always : ℕ → Sender
always u = record { connected = true; broken = false; pack_data = λ now. some (now + 50) }

remove_node-IsValid_example : IsValid (remove_node six 2)
remove_node-IsValid_example = remove_node-IsValid six 2 2 six-IsValid refl (λ p. omega arith)

remove_node_disorders_example :
    (at (remove_node six 11).heap 3 ≡ 3)
    × ((remove_node six 11).count ≡ 5)
    × (¬ IsHeap
        (remove_node six 11).time_stamp
        (remove_node six 11).heap
        (remove_node six 11).count)
remove_node_disorders_example =
    remove_node_disorders six 11 3 six-IsValid refl (omega arith) (omega arith) (omega arith)

pop_earliest_example :
    (six.time_stamp 1 ≤ 5)
    × ((w l : ℕ) → six.heap_loc w ≡ some l → six.time_stamp 1 ≤ six.time_stamp w)
    × ((always 1).connected ≡ true)
    × ((always 1).broken ≡ false)
unfolding pop
pop_earliest_example = pop_earliest six 5 always 1 six-IsValid refl
