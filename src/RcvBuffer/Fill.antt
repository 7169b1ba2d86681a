-- ===== src/RcvBuffer/Fill.antt =====
-- CRcvBuffer::addData (src/buffer.cpp): a packet takes its slot, and the acknowledged stream stays.
use native.Mathlib.Nat.{mod-lt}
use udt_server.Base.{
  ℕ, zero, suc, ◌+◌, ◌%◌, ◌<◌, ◌≡◌, ◌≢◌, refl, sym, ap, ◌∙◌, Option-cases, ◌↔◌, ltb, none, some,
  inl, inr, true, false, ne→==, get_or, set, drop, get_or-set, length-set, arith, subst,
  if◌then◌else◌,
}
use udt_server.RcvBuffer.{RcvBuffer, add_data, get_rcv_data_size, set_flag, increment}
use udt_server.RcvBuffer.Stream.{
  slot, slots, AreFilled, FitsNotch, stream, IsValid, Agree, slots-Agree, AreFilled-Agree,
  FitsNotch-Agree,
}

AreFilled-at : (b : RcvBuffer) (n j k : ℕ) → AreFilled b j n → k < n → slot b (j + k) ≢ none
AreFilled-at b zero j k f h e = absurd (omega arith)
AreFilled-at b (suc n) j zero ((u, s), f) h e =
    let same : slot b (j + 0) ≡ slot b j = ap (slot b) (omega arith) in ground arith
AreFilled-at b (suc n) j (suc k) (s, f) h e =
    AreFilled-at b n (suc j) k f (omega arith)
      (ap (slot b) {x = suc j + k} {y = j + suc k} (omega arith) ∙ e)

abbrev pub target : RcvBuffer → ℕ → ℕ
target b offset = (b.last_ack_pos + offset) % b.size

-- What addData leaves where the target slot is free.
abbrev pub placed : RcvBuffer → ℕ → ℕ → RcvBuffer
placed b u offset = record b {
  unit = set b.unit (target b offset) (some u);
  max_pos = if ltb b.max_pos offset then offset else b.max_pos;
  flag = set_flag b.flag u 1;
  used = increment b.used;
}

-- A free slot takes the packet.
pub add_data-free :
    (b : RcvBuffer) (u offset : ℕ)
    → get_or b.unit (target b offset) none ≡ none
    → add_data b u offset ≡ (placed b u offset, true)
unfolding add_data
add_data-free b u offset free = rw (free, add_data)

module _ (b : RcvBuffer) (u offset : ℕ) (v : IsValid b)
    (free : get_or b.unit (target b offset) none ≡ none) where
  placed-Agree : Agree (placed b u offset) b refl (get_rcv_data_size b) b.start_pos b.start_pos
  placed-Agree k h =
      let j = (b.start_pos + k) % b.size in
      let off : target b offset ≢ j = λ e.
        AreFilled-at b (get_rcv_data_size b) b.start_pos k v.filled h
          (ap (λ t. get_or b.unit t none) (sym e) ∙ free) in
      get_or-set b.unit (target b offset) j (some u) none
        (omega (arith, v.sized, mod-lt (b.last_ack_pos + offset) {m = b.size}, v.ack_in))
      ∙ rw (ne→== (target b offset) j off)

  pub placed_size : get_rcv_data_size (placed b u offset) ≡ get_rcv_data_size b
  unfolding get_rcv_data_size
  placed_size = refl

  placed-IsValid : IsValid (placed b u offset)
  placed-IsValid = record {
    sized = length-set b.unit (target b offset) (some u) ∙ v.sized;
    start_in = v.start_in;
    ack_in = v.ack_in;
    filled = subst (AreFilled (placed b u offset) b.start_pos) (sym placed_size) (
        AreFilled-Agree (placed b u offset) b refl (get_rcv_data_size b) b.start_pos b.start_pos
          placed-Agree v.filled);
    notched = subst (FitsNotch (placed b u offset) b.start_pos) (sym placed_size) (
        FitsNotch-Agree (placed b u offset) b refl (get_rcv_data_size b) b.start_pos b.start_pos
          placed-Agree refl v.notched);
  }

  placed-stream : stream (placed b u offset) ≡ stream b
  placed-stream =
      ap (λ n. drop b.notch (slots (placed b u offset) b.start_pos n)) placed_size
      ∙ ap (drop b.notch) (
          slots-Agree (placed b u offset) b refl (get_rcv_data_size b) b.start_pos b.start_pos
            placed-Agree)

-- What addData leaves where the target slot is taken.
abbrev seen : RcvBuffer → ℕ → RcvBuffer
seen b offset = record b { max_pos = if ltb b.max_pos offset then offset else b.max_pos }

add_data-taken :
    (b : RcvBuffer) (u offset w : ℕ)
    → get_or b.unit (target b offset) none ≡ some w
    → add_data b u offset ≡ (seen b offset, false)
unfolding add_data
add_data-taken b u offset w taken = rw (taken, add_data)

seen-stream : (b : RcvBuffer) (offset : ℕ) → stream (seen b offset) ≡ stream b
unfolding get_rcv_data_size
seen-stream b offset =
    ap (drop b.notch) (slots-Agree (seen b offset) b refl _ b.start_pos b.start_pos (λ k h. refl))

seen-IsValid : (b : RcvBuffer) (offset : ℕ) → IsValid b → IsValid (seen b offset)
unfolding get_rcv_data_size
seen-IsValid b offset v = record {
  sized = v.sized;
  start_in = v.start_in;
  ack_in = v.ack_in;
  filled = AreFilled-Agree (seen b offset) b refl _ b.start_pos b.start_pos (λ k h. refl) v.filled;
  notched =
      FitsNotch-Agree (seen b offset) b refl _ b.start_pos b.start_pos (λ k h. refl) refl v.notched;
}

-- addData accepts a packet exactly where its slot is free, and then puts it there and marks its
-- unit as occupied; a repeated packet leaves every slot as it was. In both cases the invariant and
-- the bytes that readBuffer has still to deliver stay as they were.
pub add_data_lem :
    (b : RcvBuffer) (u offset : ℕ)
    → IsValid b
    → let (c, accepted) = add_data b u offset in
      IsValid c
      × (stream c ≡ stream b)
      × ((accepted ≡ true) ↔ (get_or b.unit (target b offset) none ≡ none))
      × (accepted ≡ true → (get_or c.unit (target b offset) none ≡ some u) × (c.flag u ≡ 1))
      × (accepted ≡ false → c.unit ≡ b.unit)
add_data_lem b u offset v = elim (Option-cases (get_or b.unit (target b offset) none)) [
  | inl free ↦
      let at_target =
        get_or-set b.unit (target b offset) (target b offset) (some u) none
          (omega (arith, v.sized, mod-lt (b.last_ack_pos + offset) {m = b.size}, v.ack_in)) in
      rw (add_data-free b u offset free) (
        placed-IsValid b u offset v free,
        placed-stream b u offset v free,
        (λ e. free, λ e. refl),
        λ e. (ground (arith, at_target), ground arith),
        λ e. cc,
      )
  | inr (w, taken) ↦
      rw (add_data-taken b u offset w taken)
        (seen-IsValid b offset v, seen-stream b offset, (λ e. cc, λ e. cc), λ e. cc, λ e. refl)
]
