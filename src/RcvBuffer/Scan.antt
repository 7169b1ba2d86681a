-- ===== src/RcvBuffer/Scan.antt =====
-- CRcvBuffer::scanMsg (src/buffer.cpp): its loops come to an end.
use native.Mathlib.Nat.{mod-eq_of_lt, mod-add-mod, mod-lt}
use udt_server.Base.{
  ℕ, zero, suc, ◌+◌, ◌-◌, ◌%◌, ◌<◌, ◌≡◌, refl, sym, ap, ◌∙◌, Bool, true, false, ◌&&◌, Option, none,
  some, [], inl, inr, ◌==◌, ltb, Bool-cases, Option-cases, ==_iff, get_or, arith, if◌then◌else◌,
}
use udt_server.RcvBuffer.{RcvBuffer, next, release, get_rcv_data_size}
use udt_server.RcvBuffer.Round.{next-mod}
use udt_server.RcvBuffer.Stream.{data_size_lands}
use udt_server.RcvBuffer.Message.{
  Found, boundary, is_end, look_ahead, moved_on, skip_bad, search_msg, scan_msg, get_rcv_msg_num,
  read_msg, msg_loop,
}

-- From `i`, the last acknowledged position is `k` steps away.
pub record Leads (b : RcvBuffer) (i k : ℕ) : Type 0 where
  pub inside : i < b.size
  pub lands : (i + k) % b.size ≡ b.last_ack_pos

Leads-next : (b : RcvBuffer) (i k : ℕ) → Leads b i (suc k) → Leads b (next b.size i) k
Leads-next b i k h =
    let step = next-mod b.size i h.inside in
    record {
      inside = omega (arith, step, mod-lt (suc i) {m = b.size}, h.inside);
      lands =
          ap (λ j. (j + k) % b.size) step
          ∙ mod-add-mod (suc i) b.size k
          ∙ ap (λ j. j % b.size) {x = suc i + k} {y = i + suc k} (omega arith)
          ∙ h.lands;
    }

Leads-zero : (b : RcvBuffer) (i : ℕ) → Leads b i 0 → i ≡ b.last_ack_pos
Leads-zero b i h =
    sym (mod-eq_of_lt h.inside) ∙ ap (λ j. j % b.size) {x = i} {y = i + 0} (omega arith) ∙ h.lands

look_ahead_returns :
    (fuel k : ℕ) (b : RcvBuffer) (i : ℕ)
    → Leads b i k
    → k < fuel
    → (r : Bool) × (look_ahead fuel b i ≡ some r)
unfolding look_ahead
look_ahead_returns zero k b i h small = absurd (omega arith)
look_ahead_returns (suc fuel) zero b i h small =
    (true, rw ((==_iff i b.last_ack_pos).1 (Leads-zero b i h), look_ahead) refl)
look_ahead_returns (suc fuel) (suc k) b i h small = elim (Bool-cases (i == b.last_ack_pos)) [
  | inl e ↦ (true, rw (look_ahead, e) refl)
  | inr e ↦ elim (Option-cases (get_or b.unit i none)) [
    | inl free ↦ (false, rw (look_ahead, e, free) refl)
    | inr (u, there) ↦ elim (Bool-cases (b.flag u == 1)) [
      | inr f ↦ (false, rw (look_ahead, e, there, f) refl)
      | inl f ↦ elim (Bool-cases (is_end b u)) [
        | inl last ↦ (true, rw (look_ahead, e, there, f, last) refl)
        | inr inner ↦
            let (r, rest) =
              look_ahead_returns fuel k b (next b.size i) (Leads-next b i k h) (omega arith) in
            (r, rw (look_ahead, e, there, f, inner) rest)
      ]
    ]
  ]
]

-- The test of the unit `u` at the start.
abbrev test : RcvBuffer → ℕ → Option Bool
test b u =
    if b.flag u == 1 && ltb 1 (boundary b u)
    then look_ahead (suc b.size) b b.start_pos
    else some false

test_returns :
    (k : ℕ) (b : RcvBuffer) (u : ℕ)
    → Leads b b.start_pos k
    → k < b.size
    → (r : Bool) × (test b u ≡ some r)
test_returns k b u h round = elim (Bool-cases (b.flag u == 1 && ltb 1 (boundary b u))) [
  | inl e ↦
      let (r, there) = look_ahead_returns (suc b.size) k b b.start_pos h (omega arith) in
      (r, rw e there)
  | inr e ↦ (false, rw e refl)
]

-- What the skipping of bad messages keeps.
abbrev Skipped : RcvBuffer → RcvBuffer → Type 0
Skipped b c = (c.size ≡ b.size) × (c.last_ack_pos ≡ b.last_ack_pos) × (c.max_pos ≡ b.max_pos)

skip_bad_returns :
    (fuel k : ℕ) (b : RcvBuffer)
    → Leads b b.start_pos k
    → k < fuel
    → k < b.size
    → (c : RcvBuffer) × (skip_bad fuel b ≡ some c) × Skipped b c
unfolding skip_bad
skip_bad_returns zero k b h small round = absurd (omega arith)
skip_bad_returns (suc fuel) zero b h small round = (
  b,
  rw ((==_iff b.start_pos b.last_ack_pos).1 (Leads-zero b b.start_pos h), skip_bad) refl,
  (refl, refl, refl),
)
skip_bad_returns (suc fuel) (suc k) b h small round =
    let l = Leads-next b b.start_pos k h in
    elim (Bool-cases (b.start_pos == b.last_ack_pos)) [
      | inl e ↦ (b, rw (skip_bad, e) refl, (refl, refl, refl))
      | inr e ↦ elim (Option-cases (get_or b.unit b.start_pos none)) [
        | inl free ↦
            let (c, rest, kept) =
              skip_bad_returns fuel k (moved_on b) (record { inside = l.inside; lands = l.lands })
                (omega arith) (omega arith) in
            (c, rw (skip_bad, e, free) rest, kept)
        | inr (u, there) ↦
            let (r, result) = test_returns (suc k) b u h round in
            elim (Bool-cases r) [
              | inl good ↦ (b, rw (skip_bad, e, there, result, good) refl, (refl, refl, refl))
              | inr bad ↦
                  let (c, rest, kept) =
                    skip_bad_returns fuel k (moved_on (release b b.start_pos u))
                      (record { inside = l.inside; lands = l.lands }) (omega arith) (omega arith) in
                  (c, rw (skip_bad, e, there, result, bad) rest, kept)
            ]
      ]
    ]

data_size-lt :
    (b : RcvBuffer) → b.start_pos < b.size → b.last_ack_pos < b.size → get_rcv_data_size b < b.size
unfolding get_rcv_data_size
data_size-lt b s a = ground arith

-- scanMsg comes to an end on every buffer whose two positions lie inside it, and so does
-- getRcvMsgNum. Its loops move neither the last acknowledged position nor m_iMaxPos.
pub scan_msg_returns :
    (b : RcvBuffer)
    → b.start_pos < b.size
    → b.last_ack_pos < b.size
    → (c : RcvBuffer) × (f : Option Found) × (n : ℕ) × (scan_msg b ≡ some (c, f))
      × (get_rcv_msg_num b ≡ some (c, n))
      × (c.last_ack_pos ≡ b.last_ack_pos)
      × (c.max_pos ≡ b.max_pos)
unfolding scan_msg get_rcv_msg_num
scan_msg_returns b s a = elim (Bool-cases (b.start_pos == b.last_ack_pos && b.max_pos == 0)) [
  | inl e ↦
      let scan : scan_msg b ≡ some (b, none) = rw (scan_msg, e) refl in
      (b, none, 0, scan, rw (get_rcv_msg_num, scan) refl, refl, refl)
  | inr e ↦
      let (c, there, (size, ack, top)) =
        skip_bad_returns (suc b.size) (get_rcv_data_size b) b
          (record { inside = s; lands = data_size_lands b s a }) (omega (arith, data_size-lt b s a))
          (data_size-lt b s a) in
      let rounds = suc (c.max_pos + get_rcv_data_size c) in
      let f = search_msg rounds c none c.start_pos (c.start_pos == c.last_ack_pos) in
      let scan : scan_msg b ≡ some (c, f) = rw (scan_msg, e, there) refl in
      elim (Option-cases f) [
        | inl nothing ↦
            let scan' = scan ∙ ap (λ o. some (c, o)) nothing in
            (c, f, 0, scan, rw (get_rcv_msg_num, scan') refl, ack, top)
        | inr (x, found) ↦
            let scan' = scan ∙ ap (λ o. some (c, o)) found in
            (c, f, 1, scan, rw (get_rcv_msg_num, scan') refl, ack, top)
      ]
]

-- A message that fills the buffer, so that the slot behind its last packet is that of its first one,
-- counts as a message, but readMsg returns 0 for it, takes no packet out and copies no byte.
pub full_message_unread :
    (b c : RcvBuffer) (f : Found) (len : ℕ)
    → scan_msg b ≡ some (c, some f)
    → (f.q + 1) % c.size ≡ f.p
    → (d : RcvBuffer) × (get_rcv_msg_num b ≡ some (c, 1))
      × (read_msg b len ≡ some (d, [], 0))
      × (d.unit ≡ c.unit)
unfolding get_rcv_msg_num read_msg msg_loop
full_message_unread b c f len scan full =
    let stop = (f.q + 1) % c.size in
    let at_stop = (==_iff f.p stop).1 (sym full) in
    let loop : msg_loop (suc c.size) c f.p stop f.passack len
        ≡ some (record { buffer = c; p = f.p; bytes = []; rs = len }) =
      rw (msg_loop, at_stop) refl in
    let none_left : len - len ≡ 0 = omega arith in
    (
      record c { start_pos = if f.passack then c.start_pos else stop },
      rw (get_rcv_msg_num, scan) refl,
      rw (read_msg, scan, loop, none_left) refl,
      refl,
    )
