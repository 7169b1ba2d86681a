-- ===== src/RcvBuffer/Ack.antt =====
-- CRcvBuffer::ackData (src/buffer.cpp): the acknowledged packets join the stream.
use mathlib.Core.List.{append_assoc}
use native.Mathlib.Nat.{mod-add-mod, mod-lt}
use udt_server.Base.{
  ℕ, zero, suc, ◌+◌, ◌-◌, ◌%◌, ◌≤◌, ◌<◌, ◌≡◌, refl, sym, ap, ◌∙◌, none, ◌++◌, length, get_or, drop,
  arith, drop-append, length-append, subst,
}
use udt_server.RcvBuffer.{RcvBuffer, ack_data, get_rcv_data_size}
use udt_server.RcvBuffer.Stream.{
  slot, bytes_of, slots, AreFilled, FitsNotch, stream, IsValid, Agree, slots-Agree, AreFilled-Agree,
  FitsNotch-Agree, data_size_lands, data_size_count,
}
use udt_server.RcvBuffer.Round.{no_notch}

slots-append : (b : RcvBuffer) (m n j : ℕ) → slots b j (m + n) ≡ slots b j m ++ slots b (j + m) n
slots-append b zero n j =
    ap (slots b j) {x = 0 + n} {y = n} (omega arith)
    ∙ ap (λ i. slots b i n) {x = j} {y = j + 0} (omega arith)
slots-append b (suc m) n j =
    ap (slots b j) {x = suc m + n} {y = suc (m + n)} (omega arith)
    ∙ ap (λ t. bytes_of b.payload (slot b j) ++ t) (slots-append b m n (suc j))
    ∙ sym (append_assoc (bytes_of b.payload (slot b j)) (slots b (suc j) m) (slots b (suc j + m) n))
    ∙ ap (λ i. slots b j (suc m) ++ slots b i n) {x = suc j + m} {y = j + suc m} (omega arith)

AreFilled-append :
    (b : RcvBuffer) (m n j : ℕ) → AreFilled b j m → AreFilled b (j + m) n → AreFilled b j (m + n)
AreFilled-append b zero n j f g =
    subst (AreFilled b j) {x = n} {y = 0 + n} (omega arith)
      (subst (λ i. AreFilled b i n) {x = j + 0} {y = j} (omega arith) g)
AreFilled-append b (suc m) n j (s, f) g =
    subst (AreFilled b j) {x = suc (m + n)} {y = suc m + n} (omega arith) (
      s,
      AreFilled-append b m n (suc j) f
          (subst (λ i. AreFilled b i n) {x = j + suc m} {y = suc j + m} (omega arith) g),
    )

notch-le : (b : RcvBuffer) (p n : ℕ) → FitsNotch b p n → b.notch ≤ length (slots b p n)
notch-le b p zero f = omega arith
notch-le b p (suc n) f =
    omega (arith, length-append (bytes_of b.payload (slot b p)) (slots b (suc p) n))

longer_notch : (b : RcvBuffer) (p m n : ℕ) → FitsNotch b p m → FitsNotch b p (m + n)
longer_notch b p zero n f =
    subst (FitsNotch b p) {x = n} {y = 0 + n} (omega arith) (no_notch b p n f)
longer_notch b p (suc m) n f =
    subst (FitsNotch b p) {x = suc (m + n)} {y = suc m + n} (omega arith) f

module _ (b : RcvBuffer) (len : ℕ) (v : IsValid b) (room : get_rcv_data_size b + len < b.size)
    (full : AreFilled b b.last_ack_pos len) where
  abbrev acked : RcvBuffer
  acked = record b { last_ack_pos = (b.last_ack_pos + len) % b.size; max_pos = b.max_pos - len }

  abbrev size : ℕ
  size = get_rcv_data_size b

  acked_size : get_rcv_data_size acked ≡ size + len
  acked_size =
      data_size_count acked (size + len) v.start_in
        (mod-lt (b.last_ack_pos + len) (omega (arith, v.ack_in))) room
        (ap (λ k. k % b.size) {x = b.start_pos + (size + len)} {y = b.start_pos + size + len}
            (omega arith)
          ∙ sym (mod-add-mod (b.start_pos + size) b.size len)
          ∙ ap (λ k. (k + len) % b.size) (data_size_lands b v.start_in v.ack_in))

  from_ack : Agree b b refl len (b.start_pos + size) b.last_ack_pos
  from_ack k h =
      ap (λ i. get_or b.unit i none)
        (sym (mod-add-mod (b.start_pos + size) b.size k)
          ∙ ap (λ t. (t + k) % b.size) (data_size_lands b v.start_in v.ack_in))

  same_slots : (n : ℕ) → Agree acked b refl n b.start_pos b.start_pos
  same_slots n k h = refl

  whole_run : AreFilled b b.start_pos (size + len)
  whole_run =
      AreFilled-append b size len b.start_pos v.filled
        (AreFilled-Agree b b refl len (b.start_pos + size) b.last_ack_pos from_ack full)

  acked-stream : stream acked ≡ stream b ++ slots b b.last_ack_pos len
  acked-stream =
      ap (λ n. drop b.notch (slots acked b.start_pos n)) acked_size
      ∙ ap (drop b.notch) (
          slots-Agree acked b refl (size + len) b.start_pos b.start_pos (same_slots (size + len))
          ∙ slots-append b size len b.start_pos
          ∙ ap (λ t. slots b b.start_pos size ++ t)
              (slots-Agree b b refl len (b.start_pos + size) b.last_ack_pos from_ack))
      ∙ drop-append b.notch (slots b b.start_pos size) (slots b b.last_ack_pos len)
      ∙ ap (λ k. stream b ++ drop k (slots b b.last_ack_pos len))
          {x = b.notch - length (slots b b.start_pos size)} {y = 0}
          (omega (arith, notch-le b b.start_pos size v.notched))

  acked-IsValid : IsValid acked
  acked-IsValid = record {
    sized = v.sized;
    start_in = v.start_in;
    ack_in = mod-lt (b.last_ack_pos + len) (omega (arith, v.ack_in));
    filled = subst (AreFilled acked b.start_pos) (sym acked_size) (
        AreFilled-Agree acked b refl (size + len) b.start_pos b.start_pos (same_slots (size + len))
          whole_run);
    notched = subst (FitsNotch acked b.start_pos) (sym acked_size) (
        FitsNotch-Agree acked b refl (size + len) b.start_pos b.start_pos (same_slots (size + len))
          refl (longer_notch b b.start_pos size len v.notched));
  }

-- Acknowledging `len` packets that have all arrived, and that leave one slot free, puts their bytes
-- behind the stream and keeps the invariant.
pub ack_data_lem :
    (b : RcvBuffer) (len : ℕ)
    → IsValid b
    → get_rcv_data_size b + len < b.size
    → AreFilled b b.last_ack_pos len
    → IsValid (ack_data b len)
      × (stream (ack_data b len) ≡ stream b ++ slots b b.last_ack_pos len)
      × (get_rcv_data_size (ack_data b len) ≡ get_rcv_data_size b + len)
unfolding ack_data
ack_data_lem b len v room full =
    (acked-IsValid b len v room full, acked-stream b len v room full, acked_size b len v room full)
