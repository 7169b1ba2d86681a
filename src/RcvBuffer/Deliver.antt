-- ===== src/RcvBuffer/Deliver.antt =====
-- CRcvBuffer::readMsg (src/buffer.cpp): the bytes of a message.
use native.Mathlib.Nat.{mod-eq_of_lt, mod-add-mod, mod-lt}
use udt_server.Base.{
  ℕ, zero, suc, ◌+◌, ◌-◌, ◌%◌, ◌<◌, ◌≡◌, ◌≢◌, refl, sym, ap, ◌∙◌, Bool, true, false, none, some,
  List, [], ◌++◌, inl, inr, ltb, if◌then◌else◌, Bool-cases, ne→==, ==_iff, get_or, set, length,
  take, take-append, take-all, length-append, length-take, length-set, get_or-set, arith,
}
use udt_server.Base.Wrap.{mod_apart}
use udt_server.RcvBuffer.{RcvBuffer, Reading, next, chunk_size}
use udt_server.RcvBuffer.Round.{next-mod}
use udt_server.RcvBuffer.Stream.{slot, bytes_of, slots, AreFilled, slots-Agree, AreFilled-Agree}
use udt_server.RcvBuffer.Message.{Found, msg_packet_read, msg_loop, read_msg, scan_msg}

-- A message: `n` filled slots from `p` up to `stop`, fewer than there are.
pub record IsMessage (b : RcvBuffer) (p stop n : ℕ) : Type 0 where
  pub sized : length b.unit ≡ b.size
  pub inside : p < b.size
  pub lands : (p + n) % b.size ≡ stop
  pub small : n < b.size
  pub filled : AreFilled b p n

module _ (b : RcvBuffer) (p u n stop : ℕ) (h : IsMessage b p stop (suc n)) where
  turned : (k : ℕ) → (next b.size p + k) % b.size ≡ (suc p + k) % b.size
  turned k = ap (λ t. (t + k) % b.size) (next-mod b.size p h.inside) ∙ mod-add-mod (suc p) b.size k

  not_stop : p ≢ stop
  not_stop e =
      mod_apart b.size p (suc n) (omega arith) h.small
        (h.lands ∙ sym e ∙ sym (mod-eq_of_lt h.inside))

  -- The other slots stay as they are.
  read-Agree :
      (passack : Bool) (k : ℕ)
      → k < n
      → slot (msg_packet_read b p u passack) (next b.size p + k) ≡ slot b (suc p + k)
  read-Agree true k lt = ap (λ t. get_or b.unit t none) (turned k)
  read-Agree false k lt =
      let j = (suc p + k) % b.size in
      let off : p ≢ j = λ e.
        mod_apart b.size p (suc k) (omega arith) (omega (arith, h.small))
          (ap (λ t. t % b.size) (omega arith) ∙ sym e ∙ sym (mod-eq_of_lt h.inside)) in
      ap (λ t. get_or (set b.unit p none) t none) (turned k)
      ∙ get_or-set b.unit p j none none (omega (arith, h.sized, h.inside))
      ∙ rw (ne→== p j off)

  next_in : next b.size p < b.size
  next_in = rw (next-mod b.size p h.inside) (mod-lt (suc p) (omega (arith, h.inside)))

  next_lands : (next b.size p + n) % b.size ≡ stop
  next_lands = turned n ∙ ap (λ t. t % b.size) (omega arith) ∙ h.lands

  read-IsMessage :
      (passack : Bool) → IsMessage (msg_packet_read b p u passack) (next b.size p) stop n
  read-IsMessage true = record {
    sized = h.sized;
    inside = next_in;
    lands = next_lands;
    small = omega (arith, h.small);
    filled =
        AreFilled-Agree (msg_packet_read b p u true) b refl n (next b.size p) (suc p)
          (read-Agree true) h.filled.1;
  }
  read-IsMessage false = record {
    sized = length-set b.unit p none ∙ h.sized;
    inside = next_in;
    lands = next_lands;
    small = omega (arith, h.small);
    filled =
        AreFilled-Agree (msg_packet_read b p u false) b refl n (next b.size p) (suc p)
          (read-Agree false) h.filled.1;
  }

  behind :
      (passack : Bool) → slots (msg_packet_read b p u passack) (next b.size p) n ≡ slots b (suc p) n
  behind true =
      slots-Agree (msg_packet_read b p u true) b refl n (next b.size p) (suc p) (read-Agree true)
  behind false =
      slots-Agree (msg_packet_read b p u false) b refl n (next b.size p) (suc p) (read-Agree false)

-- Of a packet, as much is taken as there is room for.
chunk_lem :
    (rs : ℕ) (xs ys : List ℕ)
    → take (chunk_size (length xs) rs) xs ++ take (rs - chunk_size (length xs) rs) ys
      ≡ take rs (xs ++ ys)
chunk_lem rs xs ys = elim (Bool-cases (ltb rs (length xs))) [
  | inl e ↦ rw e (
      ap (λ k. take rs xs ++ take k ys) {x = rs - rs} {y = rs - length xs} (ground arith)
      ∙ sym (take-append rs xs ys))
  | inr e ↦ rw e (
      ap (λ zs. zs ++ take (rs - length xs) ys)
        (take-all (length xs) xs (omega arith) ∙ sym (take-all rs xs (ground arith)))
      ∙ sym (take-append rs xs ys))
]

left : (rs n m : ℕ) → rs - chunk_size n rs - m ≡ rs - (n + m)
left rs n m = ground arith

take_nil : (rs : ℕ) → take {A = ℕ} rs [] ≡ []
take_nil zero = refl
take_nil (suc rs) = refl

-- What the loop of readMsg leaves.
pub record TookMessage (b : RcvBuffer) (p stop n rs : ℕ) (r : Reading) : Type 0 where
  pub bytes : r.bytes ≡ take rs (slots b p n)
  pub rest : r.rs ≡ rs - length (slots b p n)
  pub at_stop : r.p ≡ stop

msg_loop_lem :
    (fuel n : ℕ) (b : RcvBuffer) (p stop rs : ℕ) (passack : Bool)
    → IsMessage b p stop n
    → n < fuel
    → (r : Reading) × (msg_loop fuel b p stop passack rs ≡ some r) × TookMessage b p stop n rs r
unfolding msg_loop
msg_loop_lem zero n b p stop rs passack h small = absurd (omega arith)
msg_loop_lem (suc fuel) zero b p stop rs passack h small =
    let here : p ≡ stop =
      sym (mod-eq_of_lt h.inside)
      ∙ ap (λ k. k % b.size) {x = p} {y = p + 0} (omega arith)
      ∙ h.lands in
    (
      record { buffer = b; p = p; bytes = []; rs = rs },
      rw (msg_loop, (==_iff p stop).1 here) refl,
      record { bytes = sym (take_nil rs); rest = omega arith; at_stop = here },
    )
msg_loop_lem (suc fuel) (suc n) b p stop rs passack h small =
    let ((u, filled), more) = h.filled in
    let there : get_or b.unit p none ≡ some u =
      ap (λ k. get_or b.unit k none) (sym (mod-eq_of_lt h.inside)) ∙ filled in
    let k = chunk_size (length (b.payload u)) rs in
    let (r, rest, took) =
      msg_loop_lem fuel n (msg_packet_read b p u passack) (next b.size p) stop (rs - k) passack
        (read-IsMessage b p u n stop h passack) (omega arith) in
    let off = ne→== p stop (not_stop b p u n stop h) in
    let whole : slots b p (suc n) ≡ b.payload u ++ slots b (suc p) n =
      ap (λ o. bytes_of b.payload o ++ slots b (suc p) n) filled in
    let later = behind b p u n stop h passack in
    (
      record r { bytes = take k (b.payload u) ++ r.bytes },
      rw (msg_loop, off, there, rest) refl,
      record {
        bytes =
            ap (λ xs. take k (b.payload u) ++ xs) (took.bytes ∙ ap (take (rs - k)) later)
            ∙ chunk_lem rs (b.payload u) (slots b (suc p) n)
            ∙ ap (take rs) (sym whole);
        rest =
            took.rest
            ∙ ap (λ xs. rs - k - length xs) later
            ∙ left rs (length (b.payload u)) (length (slots b (suc p) n))
            ∙ ap (λ m. rs - m)
                (sym (length-append (b.payload u) (slots b (suc p) n)) ∙ ap length (sym whole));
        at_stop = took.at_stop;
      },
    )

-- Where scanMsg has found a message, whose slots are all filled and fewer than all, readMsg copies
-- the bytes of its packets, in order, as far as the caller has room, and returns their number.
pub read_msg_lem :
    (b c : RcvBuffer) (f : Found) (n len : ℕ)
    → scan_msg b ≡ some (c, some f)
    → IsMessage c f.p ((f.q + 1) % c.size) n
    → (d : RcvBuffer) × (k : ℕ) × (read_msg b len ≡ some (d, take len (slots c f.p n), k))
      × (k ≡ length (take len (slots c f.p n)))
unfolding read_msg
read_msg_lem b c f n len scan h =
    let stop = (f.q + 1) % c.size in
    let (r, there, took) =
      msg_loop_lem (suc c.size) n c f.p stop len f.passack h (omega (arith, h.small)) in
    let d = record r.buffer { start_pos = if f.passack then r.buffer.start_pos else stop } in
    (
      d,
      len - r.rs,
      rw (read_msg, scan, there) (ap (λ xs. some (d, xs, len - r.rs)) took.bytes),
      omega (arith, took.rest, length-take len (slots c f.p n)),
    )
