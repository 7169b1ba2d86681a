-- ===== src/AckWindow/Contents.antt =====
-- CACKWindow (src/window.cpp): the records that the circular arrays hold, oldest first.
use udt_server.Base.{
  ℕ, zero, suc, ◌+◌, ◌-◌, ◌%◌, ◌<◌, ◌≡◌, refl, ap, ap₂, List, [], ◌∷◌, leb, if◌then◌else◌, length,
  get_or,
}
use udt_server.Base.Wrap.{suc-mod}
use udt_server.AckWindow.{AckWindow}

-- One ACK that was sent: its own number, the data sequence number in it, and when it was sent.
pub record Sent : Type 0 where
  pub seq : ℕ
  pub ack : ℕ
  pub time : ℕ

-- What an index outside the arrays would give: no index of a valid window is.
abbrev pub sent_at : AckWindow → ℕ → Sent
sent_at w i = record {
  seq = get_or w.ack_seq_no i 0;
  ack = get_or w.ack i 0;
  time = get_or w.time_stamp i 0;
}

abbrev pub entries : AckWindow → ℕ → ℕ → List Sent
entries w j zero = []
entries w j (suc n) = sent_at w (j % w.size) ∷ entries w (suc j) n

abbrev pub count : AckWindow → ℕ
count w = if leb w.tail w.head then w.head - w.tail else w.head + w.size - w.tail

abbrev pub contents : AckWindow → List Sent
contents w = entries w w.tail (count w)

pub record IsValid (w : AckWindow) : Type 0 where
  pub seqs_fit : length w.ack_seq_no ≡ w.size
  pub acks_fit : length w.ack ≡ w.size
  pub times_fit : length w.time_stamp ≡ w.size
  pub head_in : w.head < w.size
  pub tail_in : w.tail < w.size

-- Entries depend on the start only up to a whole turn.
pub entries_mod :
    (w : AckWindow) (i j n : ℕ) → i % w.size ≡ j % w.size → entries w i n ≡ entries w j n
entries_mod w i j zero e = refl
entries_mod w i j (suc n) e =
    ap₂ ◌∷◌ (ap (sent_at w) e) (entries_mod w (suc i) (suc j) n (suc-mod w.size i j e))

-- The same for two windows that differ in their pointers alone.
pub entries_same :
    (w v : AckWindow) (j n : ℕ)
    → w.ack_seq_no ≡ v.ack_seq_no
    → w.ack ≡ v.ack
    → w.time_stamp ≡ v.time_stamp
    → w.size ≡ v.size
    → entries w j n ≡ entries v j n
entries_same w v j zero a b c d = refl
entries_same w v j (suc n) a b c d = ap₂ ◌∷◌ (cc) (entries_same w v (suc j) n a b c d)
