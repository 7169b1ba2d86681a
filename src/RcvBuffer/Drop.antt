-- ===== src/RcvBuffer/Drop.antt =====
-- CRcvBuffer::dropMsg (src/buffer.cpp): which units it marks as dropped.
use native.Mathlib.Nat.{mod-eq_of_lt, mod-add-mod, mod-lt}
use udt_server.Base.{
  ℕ, zero, suc, ◌+◌, ◌%◌, ◌≤◌, ◌<◌, ◌≡◌, ◌≢◌, ◌^◌, refl, sym, ap, ap₂, ◌∙◌, Option, Option-cases,
  none, some, inl, inr, ◌⊎◌, ◌==◌, Bool-cases, ne→==, ==_iff, get_or, arith, if◌then◌else◌,
}
use udt_server.Base.Wrap.{mod_apart}
use native.Mathlib.Decide.{ℕ_discrete}
use udt_server.Packet.{Packet, get_msg_seq}
use udt_server.RcvBuffer.{RcvBuffer, set_flag, drop_loop, drop_msg}
use udt_server.RcvBuffer.Stream.{slot}

-- The mark that one round of the loop makes.
abbrev marked : RcvBuffer → ℕ → Option ℕ → RcvBuffer
marked b m none = b
marked b m (some u) = if m == b.msg_no u then record b { flag = set_flag b.flag u 3 } else b

drop_step :
    (fuel : ℕ) (b : RcvBuffer) (m i n : ℕ)
    → i ≢ n
    → drop_loop (suc fuel) b m i n
      ≡ drop_loop fuel (marked b m (get_or b.unit i none)) m ((i + 1) % b.size) n
unfolding drop_loop
drop_step fuel b m i n ne = rw (ne→== i n ne) (elim (Option-cases (get_or b.unit i none)) [
  | inl e ↦ rw (e, drop_loop)
  | inr (u, e) ↦ rw (e, drop_loop)
])

-- What a round leaves alone.
marked_same :
    (b : RcvBuffer) (m : ℕ) (o : Option ℕ)
    → ((marked b m o).unit ≡ b.unit)
      × ((marked b m o).size ≡ b.size)
      × ((marked b m o).msg_no ≡ b.msg_no)
marked_same b m none = (refl, refl, refl)
marked_same b m (some u) = elim (Bool-cases (m == b.msg_no u)) [
  | inl e ↦ rw e (refl, refl, refl)
  | inr e ↦ rw e (refl, refl, refl)
]

marked_flag :
    (b : RcvBuffer) (m : ℕ) (o : Option ℕ) (v : ℕ)
    → ((marked b m o).flag v ≡ 3) ⊎ ((marked b m o).flag v ≡ b.flag v)
marked_flag b m none v = inr refl
marked_flag b m (some u) v = ground arith

marked_other :
    (b : RcvBuffer) (m : ℕ) (o : Option ℕ) (v : ℕ)
    → b.msg_no v ≢ m
    → (marked b m o).flag v ≡ b.flag v
marked_other b m none v ne = refl
marked_other b m (some u) v ne = ground (arith, λ (e : u ≡ v). ap b.msg_no e)

drop_loop_ends : (fuel : ℕ) (b : RcvBuffer) (m i n : ℕ) → i ≡ n → drop_loop fuel b m i n ≡ b
unfolding drop_loop
drop_loop_ends zero b m i n e = refl
drop_loop_ends (suc fuel) b m i n e = rw ((==_iff i n).1 e)

drop_loop_none : (b : RcvBuffer) (m i n : ℕ) → drop_loop 0 b m i n ≡ b
unfolding drop_loop
drop_loop_none b m i n = refl

drop_loop_other :
    (fuel : ℕ) (b : RcvBuffer) (m i n v : ℕ)
    → b.msg_no v ≢ m
    → (drop_loop fuel b m i n).flag v ≡ b.flag v
drop_loop_other zero b m i n v ne = ap (λ c. c.flag v) (drop_loop_none b m i n)
drop_loop_other (suc fuel) b m i n v ne = elim (ℕ_discrete i n) [
  | yes e ↦ ap (λ c. c.flag v) (drop_loop_ends (suc fuel) b m i n e)
  | no off ↦
      let o = get_or b.unit i none in
      ap (λ c. c.flag v) (drop_step fuel b m i n off)
      ∙ drop_loop_other fuel (marked b m o) m ((i + 1) % b.size) n v
          (λ e. ne (ap (λ f. f v) (sym (marked_same b m o).2) ∙ e))
      ∙ marked_other b m o v ne
]

drop_loop_keeps :
    (fuel : ℕ) (b : RcvBuffer) (m i n v : ℕ) → b.flag v ≡ 3 → (drop_loop fuel b m i n).flag v ≡ 3
drop_loop_keeps zero b m i n v h = ap (λ c. c.flag v) (drop_loop_none b m i n) ∙ h
drop_loop_keeps (suc fuel) b m i n v h = elim (ℕ_discrete i n) [
  | yes e ↦ ap (λ c. c.flag v) (drop_loop_ends (suc fuel) b m i n e) ∙ h
  | no off ↦
      let o = get_or b.unit i none in
      ap (λ c. c.flag v) (drop_step fuel b m i n off)
      ∙ drop_loop_keeps fuel (marked b m o) m ((i + 1) % b.size) n v
          (ground (arith, marked_flag b m o v))
]

drop_loop_marks :
    (fuel c : ℕ) (b : RcvBuffer) (m i n v k : ℕ)
    → i < b.size
    → (i + c) % b.size ≡ n
    → c < b.size
    → c ≤ fuel
    → k < c
    → slot b (i + k) ≡ some v
    → b.msg_no v ≡ m
    → (drop_loop fuel b m i n).flag v ≡ 3
drop_loop_marks zero c b m i n v k hi hn hc hf hk s e = absurd (omega arith)
drop_loop_marks (suc fuel) zero b m i n v k hi hn hc hf hk s e = absurd (omega arith)
drop_loop_marks (suc fuel) (suc c) b m i n v zero hi hn hc hf hk s e =
    let off : i ≢ n =
      λ q. mod_apart b.size i (suc c) (omega arith) hc (hn ∙ sym q ∙ sym (mod-eq_of_lt hi)) in
    let here : get_or b.unit i none ≡ some v =
      ap (λ j. get_or b.unit j none)
        (sym (mod-eq_of_lt hi) ∙ ap (λ j. j % b.size) {x = i} {y = i + 0} (omega arith))
      ∙ s in
    ap (λ d. d.flag v) (drop_step fuel b m i n off)
    ∙ rw here (drop_loop_keeps fuel (marked b m (some v)) m ((i + 1) % b.size) n v (ground arith))
drop_loop_marks (suc fuel) (suc c) b m i n v (suc k) hi hn hc hf hk s e =
    let off : i ≢ n =
      λ q. mod_apart b.size i (suc c) (omega arith) hc (hn ∙ sym q ∙ sym (mod-eq_of_lt hi)) in
    let o = get_or b.unit i none in
    let d = marked b m o in
    let same = marked_same b m o in
    let turn : (t : ℕ) → ((i + 1) % b.size + t) % b.size ≡ (i + suc t) % b.size =
      λ t. mod-add-mod (i + 1) b.size t ∙ ap (λ j. j % b.size) (omega arith) in
    ap (λ x. x.flag v) (drop_step fuel b m i n off)
    ∙ drop_loop_marks fuel c d m ((i + 1) % b.size) n v k
        (omega (arith, same.1, mod-lt (i + 1) {m = b.size}))
        (ap (λ z. ((i + 1) % b.size + c) % z) same.1 ∙ turn c ∙ hn) (omega (arith, same.1))
        (omega arith) (omega arith)
        (ap₂ (λ x z. get_or x (((i + 1) % b.size + k) % z) none) same.0 same.1
          ∙ ap (λ j. get_or b.unit j none) (turn k)
          ∙ s)
        (ap (λ f. f v) same.2 ∙ e)

-- dropMsg compares the whole second header word: it marks as dropped (3) each unit whose word is
-- `m`, among the `c` slots from the start position to the furthest data position, and leaves the
-- flag of every unit with another word.
pub drop_msg_marks :
    (b : RcvBuffer) (m v c : ℕ)
    → b.start_pos < b.size
    → c < b.size
    → (b.start_pos + c) % b.size ≡ (b.last_ack_pos + b.max_pos) % b.size
    → ((k : ℕ)
        → k < c
        → slot b (b.start_pos + k) ≡ some v
        → b.msg_no v ≡ m
        → (drop_msg b m).flag v ≡ 3)
      × (b.msg_no v ≢ m → (drop_msg b m).flag v ≡ b.flag v)
unfolding drop_msg
drop_msg_marks b m v c hs hc hn = (
  λ k hk s e.
      drop_loop_marks b.size c b m b.start_pos ((b.last_ack_pos + b.max_pos) % b.size) v k hs hn hc
        (omega arith) hk s e,
  λ ne. drop_loop_other b.size b m b.start_pos ((b.last_ack_pos + b.max_pos) % b.size) v ne,
)

-- A packet with a boundary bit or the order bit set, which the first and the last packet of every
-- message have, is not dropped for any message number that a drop request can name: its word is at
-- least 2 ^ 29, and CPacket::getMsgSeq, the argument of dropMsg in CUDT::processCtrl, is below.
pub drop_msg_misses_bounds :
    (b : RcvBuffer) (request : Packet) (v : ℕ)
    → 2 ^ 29 ≤ b.msg_no v
    → (drop_msg b (get_msg_seq request)).flag v ≡ b.flag v
unfolding drop_msg get_msg_seq
drop_msg_misses_bounds b request v h =
    drop_loop_other b.size b (request.msg_no % 2 ^ 29) b.start_pos
      ((b.last_ack_pos + b.max_pos) % b.size) v (λ e. omega arith)
