-- ===== src/AckWindow/History.antt =====
-- CACKWindow::store and acknowledge (src/window.cpp) on the list of records that the window holds.
use native.Mathlib.Nat.{mod-eq_of_lt, mod-lt, mod-add-mod, mod-mod, add-mod_right}
use native.Mathlib.Decide.{ℕ_discrete}
use udt_server.Base.{
  ℕ, zero, suc, ◌+◌, ◌-◌, ◌%◌, ◌<◌, ◌≡◌, ◌≢◌, refl, sym, ap, ap₂, ◌∙◌, List, [], ◌∷◌, ◌++◌, leb,
  ltb, ◌==◌, Option, none, some, inl, inr, Bool-cases, ne→==, if◌then◌else◌, length, get_or, drop,
  length-append, length-set, get_or-set, arith,
}
use udt_server.Base.Wrap.{suc-mod, mod_apart, wrapped_count, count_mod}
use udt_server.AckWindow.{
  AckWindow, minus_one, store, Answer, reset, round_trip, scan_straight, scan_wrapped, acknowledge,
}
use udt_server.AckWindow.Contents.{
  Sent, sent_at, entries, count, contents, IsValid, entries_mod, entries_same,
}

-- A full window forgets its oldest record.
abbrev pub keep_newest : ℕ → List Sent → List Sent
keep_newest room xs = if ltb room (length xs) then drop 1 xs else xs

contents_at :
    (w : AckWindow) (n : ℕ)
    → IsValid w
    → n < w.size
    → (w.tail + n) % w.size ≡ w.head
    → contents w ≡ entries w w.tail n
contents_at w n v h e =
    ap (entries w w.tail) (wrapped_count w.size w.tail w.head n v.tail_in v.head_in h e)

count_bound : (w : AckWindow) → IsValid w → count w < w.size
count_bound w v = ground arith

length-entries : (w : AckWindow) (j n : ℕ) → length (entries w j n) ≡ n
length-entries w j zero = refl
length-entries w j (suc n) = ap suc (length-entries w (suc j) n)

-- `store` keeps the arrays' sizes and both pointers in range.
pub store-IsValid : {w : AckWindow} (seq ack now : ℕ) → IsValid w → IsValid (store w seq ack now)
unfolding store
store-IsValid {w} seq ack now v = ground (
  arith,
  length-set w.ack_seq_no w.head seq,
  length-set w.ack w.head ack,
  length-set w.time_stamp w.head now,
)

module _ (w : AckWindow) (seq ack now : ℕ) (v : IsValid w) where
  abbrev new : Sent
  new = record { seq = seq; ack = ack; time = now }

  sent_at-store :
      (i : ℕ) → sent_at (store w seq ack now) i ≡ (if w.head == i then new else sent_at w i)
  unfolding store
  sent_at-store i = ground (
    arith,
    get_or-set w.ack_seq_no w.head i seq 0,
    get_or-set w.ack w.head i ack 0,
    get_or-set w.time_stamp w.head i now 0,
  )

  entries-store :
      (n j : ℕ)
      → n < w.size
      → (j + n) % w.size ≡ w.head
      → entries (store w seq ack now) j (suc n) ≡ entries w j n ++ new ∷ []
  unfolding store
  entries-store zero j h e =
      let here : j % w.size ≡ w.head = ap (λ k. k % w.size) (omega arith) ∙ e in
      ap (λ x. x ∷ []) (sent_at-store (j % w.size) ∙ ground arith)
  entries-store (suc n) j h e =
      let off : j % w.size ≢ w.head = λ q. mod_apart w.size j (suc n) (omega arith) h (e ∙ sym q) in
      ap₂ ◌∷◌ (sent_at-store (j % w.size) ∙ ground arith)
        (entries-store n (suc j) (omega arith) (ap (λ k. k % w.size) (omega arith) ∙ e))

  next_head : (w.tail + suc (count w)) % w.size ≡ (w.head + 1) % w.size
  next_head =
      let here = count_mod w.size w.tail w.head v.tail_in v.head_in in
      ap (λ k. k % w.size) (omega arith)
      ∙ suc-mod w.size (w.tail + count w) w.head (here ∙ sym (mod-eq_of_lt v.head_in))
      ∙ ap (λ k. k % w.size) (omega arith)

  store_with_room :
      (w.head + 1) % w.size ≢ w.tail
      → (suc (count w) < w.size) × (contents (store w seq ack now) ≡ contents w ++ new ∷ [])
  unfolding store
  store_with_room ne =
      let st = store w seq ack now in
      let n = count w in
      let below = count_bound w v in
      let kept : st.tail ≡ w.tail = ground arith in
      let open_slot : suc n ≢ w.size = λ q. ne (
        sym next_head
        ∙ ap (λ k. (w.tail + k) % w.size) q
        ∙ add-mod_right w.tail w.size
        ∙ mod-eq_of_lt v.tail_in) in
      (
        omega arith,
        contents_at st (suc n) (store-IsValid seq ack now v) (omega arith)
              (ap (λ t. (t + suc n) % w.size) kept ∙ next_head)
            ∙ ap (λ t. entries st t (suc n)) kept
            ∙ entries-store n w.tail below (count_mod w.size w.tail w.head v.tail_in v.head_in),
      )

  store_when_full :
      (w.head + 1) % w.size ≡ w.tail
      → (suc (count w) ≡ w.size)
        × (contents (store w seq ack now) ≡ drop 1 (contents w ++ new ∷ []))
  unfolding store
  store_when_full e =
      let st = store w seq ack now in
      let n = count w in
      let below = count_bound w v in
      let moved : st.tail ≡ (w.tail + 1) % w.size = ground arith in
      let turn : suc n ≡ w.size = elim (ℕ_discrete (suc n) w.size) [
        | yes q ↦ q
        | no q ↦ absurd (
            mod_apart w.size w.tail (suc n) (omega arith) (omega arith)
              (next_head ∙ e ∙ sym (mod-eq_of_lt v.tail_in)))
      ] in
      let lands : (st.tail + n) % w.size ≡ (w.head + 1) % w.size =
        ap (λ t. (t + n) % w.size) moved
        ∙ mod-add-mod (w.tail + 1) w.size n
        ∙ ap (λ k. k % w.size) (omega arith)
        ∙ next_head in
      let from_next : st.tail % w.size ≡ suc w.tail % w.size =
        ap (λ t. t % w.size) moved
        ∙ mod-mod (w.tail + 1) w.size
        ∙ ap (λ k. k % w.size) (omega arith) in
      (
        turn,
        contents_at st n (store-IsValid seq ack now v) below lands
            ∙ entries_mod st st.tail (suc w.tail) n from_next
            ∙ ap (drop 1)
                (entries-store n w.tail below (count_mod w.size w.tail w.head v.tail_in v.head_in)),
      )

  -- Storing a record puts it behind the others, and drops the oldest one when `size - 1` records
  -- are there already.
  pub contents-store :
      contents (store w seq ack now) ≡ keep_newest (w.size - 1) (contents w ++ new ∷ [])
  contents-store = elim (ℕ_discrete ((w.head + 1) % w.size) w.tail) [
    | yes e ↦ ground (
      arith,
      store_when_full e,
      length-append (contents w) (new ∷ []),
      length-entries w w.tail (count w),
    )
    | no ne ↦ ground (
      arith,
      store_with_room ne,
      length-append (contents w) (new ∷ []),
      length-entries w w.tail (count w),
    )
  ]

-- What `acknowledge` looks for: the first record with the number, and the records after it.
abbrev pub after : ℕ → List Sent → Option (Sent × List Sent)
after seq [] = none
after seq (x ∷ xs) = if seq == x.seq then some (x, xs) else after seq xs

-- What a search among `found` must answer, for the caller's old `ack` and the clock's `now`.
abbrev pub Answers : AckWindow → ℕ → ℕ → Answer → Option (Sent × List Sent) → Type 0
Answers w ack now answer none = answer ≡ record { window = w; ack = ack; rtt = minus_one }
Answers w ack now answer (some (x, rest)) =
    (contents answer.window ≡ rest)
    × (answer.ack ≡ x.ack)
    × (answer.rtt ≡ round_trip now x.time)
    × IsValid answer.window

module _ (w : AckWindow) (v : IsValid w) where
  reset-IsValid : IsValid (reset w)
  reset-IsValid = omega (arith, length-set w.ack_seq_no 0 minus_one)

  -- Moving the tail behind the record at `j` leaves the `n` records after it.
  behind :
      (j n : ℕ)
      → suc n < w.size
      → (suc j + n) % w.size ≡ w.head
      → contents (record w { tail = (j % w.size + 1) % w.size }) ≡ entries w (suc j) n
  behind j n h e =
      let step : (j % w.size + 1) % w.size ≡ suc j % w.size =
        mod-add-mod j w.size 1 ∙ ap (λ k. k % w.size) (omega arith) in
      let x = record w { tail = (j % w.size + 1) % w.size } in
      let valid : IsValid x = omega (arith, mod-lt (j % w.size + 1) {m = w.size}) in
      contents_at x n valid (omega arith)
        (ap (λ t. (t + n) % w.size) step ∙ mod-add-mod (suc j) w.size n ∙ e)
      ∙ entries_mod x x.tail (suc j) n (ap (λ t. t % w.size) step ∙ mod-mod (suc j) w.size)
      ∙ entries_same x w (suc j) n refl refl refl refl

  straight-Answers :
      (seq ack now n i : ℕ)
      → i + n ≡ w.head
      → Answers w ack now (scan_straight w seq ack now i n) (after seq (entries w i n))
  unfolding scan_straight
  straight-Answers seq ack now zero i e = refl
  straight-Answers seq ack now (suc n) i e =
      let inside : i % w.size ≡ i = mod-eq_of_lt (omega arith) in
      rw inside (elim (Bool-cases (seq == get_or w.ack_seq_no i 0)) [
        | inl hit ↦ rw hit (elim (Bool-cases (i + 1 == w.head)) [
          | inl last ↦
              rw last
                (ap (entries w (suc i)) {x = 0} {y = n} (ground arith), refl, refl, reset-IsValid)
          | inr more ↦ rw more (
            ap (λ k. contents (record w { tail = (k + 1) % w.size })) (sym inside)
                ∙ behind i n (ground arith)
                    (mod-eq_of_lt {n = suc i + n} (omega arith) ∙ omega arith),
            refl,
            refl,
            omega (arith, mod-lt (i + 1) {m = w.size}),
          )
        ])
        | inr miss ↦ rw miss (straight-Answers seq ack now n (suc i) (omega arith))
      ])

  wrapped-Answers :
      (seq ack now n j : ℕ)
      → n < w.size
      → (j + n) % w.size ≡ w.head
      → Answers w ack now (scan_wrapped w seq ack now j n) (after seq (entries w j n))
  unfolding scan_wrapped
  wrapped-Answers seq ack now zero j h e = refl
  wrapped-Answers seq ack now (suc n) j h e =
      let next : (suc j + n) % w.size ≡ w.head = ap (λ k. k % w.size) (omega arith) ∙ e in
      let away : j % w.size ≢ w.head =
        λ q. mod_apart w.size j (suc n) (omega arith) h (e ∙ sym q) in
      elim (Bool-cases (seq == get_or w.ack_seq_no (j % w.size) 0)) [
        | inl hit ↦
            rw (hit, ne→== (j % w.size) w.head away)
              (behind j n h next, refl, refl, omega (arith, mod-lt (j % w.size + 1) {m = w.size}))
        | inr miss ↦ rw miss (wrapped-Answers seq ack now n (suc j) (omega arith) next)
      ]

-- `acknowledge` answers with the oldest record of that number, and drops it and all older ones; a
-- number that no record has leaves everything as it was and returns -1.
pub acknowledge-Answers :
    (w : AckWindow) (seq ack now : ℕ)
    → IsValid w
    → Answers w ack now (acknowledge w seq ack now) (after seq (contents w))
unfolding acknowledge
acknowledge-Answers w seq ack now v = elim (Bool-cases (leb w.tail w.head)) [
  | inl e ↦ rw e (straight-Answers w v seq ack now (w.head - w.tail) w.tail (ground arith))
  | inr e ↦
      let there = rw e at (count_mod w.size w.tail w.head v.tail_in v.head_in) in
      rw e (wrapped-Answers w v seq ack now (w.head + w.size - w.tail) w.tail (ground arith) there)
]
