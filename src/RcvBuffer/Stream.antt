-- ===== src/RcvBuffer/Stream.antt =====
-- CRcvBuffer (src/buffer.cpp): the bytes that the acknowledged packets hold, in order.
use udt_server.Base.{
  ℕ, zero, suc, ◌+◌, ◌%◌, ◌≤◌, ◌<◌, ◌≡◌, refl, ap, ap₂, ◌∙◌, Option, none, some, List, [], ◌++◌,
  length, get_or, drop, arith,
}
use udt_server.Base.Wrap.{wrapped_count, count_mod}
use udt_server.RcvBuffer.{RcvBuffer, get_rcv_data_size, get_avail_buf_size}

abbrev pub slot : RcvBuffer → ℕ → Option ℕ
slot b j = get_or b.unit (j % b.size) none

abbrev pub bytes_of : (ℕ → List ℕ) → Option ℕ → List ℕ
bytes_of payload none = []
bytes_of payload (some u) = payload u

-- The bytes of the `n` slots from `j` on, going round.
abbrev pub slots : RcvBuffer → ℕ → ℕ → List ℕ
slots b j zero = []
slots b j (suc n) = bytes_of b.payload (slot b j) ++ slots b (suc j) n

abbrev pub AreFilled : RcvBuffer → ℕ → ℕ → Type 0
AreFilled b j zero = Unit
AreFilled b j (suc n) = ((u : ℕ) × (slot b j ≡ some u)) × AreFilled b (suc j) n

-- The notch stands inside the first of the `n` packets from `p` on, and is 0 where there is none.
abbrev pub FitsNotch : RcvBuffer → ℕ → ℕ → Type 0
FitsNotch b p zero = b.notch ≡ 0
FitsNotch b p (suc n) = b.notch ≤ length (bytes_of b.payload (slot b p))

-- What readBuffer has still to deliver.
abbrev pub stream : RcvBuffer → List ℕ
stream b = drop b.notch (slots b b.start_pos (get_rcv_data_size b))

pub record IsValid (b : RcvBuffer) : Type 0 where
  pub sized : length b.unit ≡ b.size
  pub start_in : b.start_pos < b.size
  pub ack_in : b.last_ack_pos < b.size
  pub filled : AreFilled b b.start_pos (get_rcv_data_size b)
  pub notched : FitsNotch b b.start_pos (get_rcv_data_size b)

-- One slot is always free: what is acknowledged and what is available add up to the size less one.
pub avail-add-data :
    (b : RcvBuffer)
    → IsValid b
    → (get_rcv_data_size b < b.size) × (get_avail_buf_size b + get_rcv_data_size b + 1 ≡ b.size)
unfolding get_rcv_data_size get_avail_buf_size
avail-add-data b v = ground arith

-- The number of acknowledged packets leads from the start to the last acknowledged position.
pub data_size_lands :
    (b : RcvBuffer)
    → b.start_pos < b.size
    → b.last_ack_pos < b.size
    → (b.start_pos + get_rcv_data_size b) % b.size ≡ b.last_ack_pos
unfolding get_rcv_data_size
data_size_lands b s a =
    ap (λ k. (b.start_pos + k) % b.size) (ground arith)
    ∙ count_mod b.size b.start_pos b.last_ack_pos s a

pub data_size_count :
    (b : RcvBuffer) (n : ℕ)
    → b.start_pos < b.size
    → b.last_ack_pos < b.size
    → n < b.size
    → (b.start_pos + n) % b.size ≡ b.last_ack_pos
    → get_rcv_data_size b ≡ n
unfolding get_rcv_data_size
data_size_count b n s a h e =
    ground (arith, wrapped_count b.size b.start_pos b.last_ack_pos n s a h e)

-- Two buffers that agree on `n` slots, from `i` and from `j` on, hold the same there.
module _ (b c : RcvBuffer) (same : b.payload ≡ c.payload) where
  abbrev pub Agree : ℕ → ℕ → ℕ → Type 0
  Agree n i j = (k : ℕ) → k < n → slot b (i + k) ≡ slot c (j + k)

  first : (n i j : ℕ) → Agree (suc n) i j → slot b i ≡ slot c j
  first n i j h =
      ap (slot b) {x = i} {y = i + 0} (omega arith)
      ∙ h 0 (omega arith)
      ∙ ap (slot c) {x = j + 0} {y = j} (omega arith)

  others : (n i j : ℕ) → Agree (suc n) i j → Agree n (suc i) (suc j)
  others n i j h k p =
      ap (slot b) {x = suc i + k} {y = i + suc k} (omega arith)
      ∙ h (suc k) (omega arith)
      ∙ ap (slot c) {x = j + suc k} {y = suc j + k} (omega arith)

  pub slots-Agree : (n i j : ℕ) → Agree n i j → slots b i n ≡ slots c j n
  slots-Agree zero i j h = refl
  slots-Agree (suc n) i j h =
      ap₂ ◌++◌ (ap₂ bytes_of same (first n i j h)) (slots-Agree n (suc i) (suc j) (others n i j h))

  pub AreFilled-Agree : (n i j : ℕ) → Agree n i j → AreFilled c j n → AreFilled b i n
  AreFilled-Agree zero i j h f = tt
  AreFilled-Agree (suc n) i j h ((u, e), f) =
      ((u, first n i j h ∙ e), AreFilled-Agree n (suc i) (suc j) (others n i j h) f)

  pub FitsNotch-Agree :
      (n i j : ℕ) → Agree n i j → b.notch ≡ c.notch → FitsNotch c j n → FitsNotch b i n
  FitsNotch-Agree zero i j h e f = e ∙ f
  FitsNotch-Agree (suc n) i j h e f = rw (e, same, first n i j h) f
