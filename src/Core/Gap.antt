-- ===== src/Core/Gap.antt =====
-- CUDT::processData (src/core.cpp): the packets that it turns away, and the gaps that it finds.
use udt_server.Base.{
  ℕ, ◌+◌, ◌*◌, ◌%◌, ◌^◌, ◌<◌, ◌≤◌, ◌≡◌, ◌≢◌, ◌⊎◌, refl, sym, ap, ◌∙◌, true, false, ◌||◌, none, some,
  List, [], ◌∷◌, inl, inr, arith, ltb, leb, ◌==◌, if◌then◌else◌, get_or, length, Bool-cases,
  Option-cases, ne→==,
}
use udt_server.Base.Int.{ℤ, pos, pos_part, ltb_ℤ, negsuc, ◌+ℤ◌}
use udt_server.SeqNo.{IsSeqNo, seq_no_th, seqcmp, seqoff, seqlen, incseq, decseq, incseq_by}
use udt_server.Packet.{Packet, create, pack, get_type, block}
use udt_server.RcvBuffer.{RcvBuffer, add_data, get_avail_buf_size}
use udt_server.RcvBuffer.Fill.{target, placed, add_data-free}
use udt_server.RcvLossList.{RcvLossList, insert}
use udt_server.RcvLossList.Contents.{IsEmpty, IsList}
use udt_server.RcvLossList.Insert.{insert_empty}
use udt_server.RcvLossList.Query.{get_first_lost_seq}
use udt_server.LossList.{read}
use mathlib.Core.Option.{some-injective}
use udt_server.Core.{World, Udt, sent, words}
use udt_server.Core.SendCtrl.{send_nak, nak_wait, ack_number}
use udt_server.Core.Receive.{process_data, arrived, ack_asked, detect_loss, note_seq, take_in}
use udt_server.Core.Deliver.{in_window}
use Prim.Native.Nat.{bit_or}

-- What is not touched when a packet is turned away: the slots of the buffer, the loss list, the
-- largest number, the last ACK, and all that goes out.
pub record IsUntouched (u s : Udt) : Type 0 where
  pub slots : s.rcv_buffer.unit ≡ u.rcv_buffer.unit
  pub losses : s.rcv_loss_list ≡ u.rcv_loss_list
  pub number : s.rcv_curr_seq_no ≡ u.rcv_curr_seq_no
  pub acked : s.rcv_last_ack ≡ u.rcv_last_ack
  pub quiet : s.events ≡ u.events

outside :
    (o : ℤ) (avail : ℕ)
    → (ltb_ℤ o (pos 0) ≡ true) ⊎ (avail ≤ pos_part o)
    → (ltb_ℤ o (pos 0) || leb avail (pos_part o)) ≡ true
outside o avail (inl h) = ground arith
outside o avail (inr h) = ground arith

add_data-taken :
    (b : RcvBuffer) (v k x : ℕ)
    → get_or b.unit (target b k) none ≡ some x
    → add_data b v k ≡ (record b { max_pos = if ltb b.max_pos k then k else b.max_pos }, false)
unfolding add_data
add_data-taken b v k x e = rw (e, add_data) refl

out_of_window :
    (w : World) (u : Udt) (v seq : ℕ)
    → (ltb_ℤ (seqoff u.rcv_last_ack seq) (pos 0)
        || leb (get_avail_buf_size u.rcv_buffer) (pos_part (seqoff u.rcv_last_ack seq)))
      ≡ true
    → (s : Udt) × (process_data w u v seq ≡ some (s, false)) × IsUntouched u s
unfolding process_data arrived
out_of_window w u v seq e = (
  arrived w u seq,
  simp e,
  record { slots = refl; losses = refl; number = refl; acked = refl; quiet = refl },
)

-- A packet is turned away with the result -1 where its number lies before the last ACK, or beyond
-- the free part of the buffer, or where its slot is taken. Then the slots of the buffer, the loss
-- list, the largest number and the last ACK stay, and nothing is sent.
pub process_data_refuses :
    (w : World) (u : Udt) (v seq : ℕ)
    → let k = pos_part (seqoff u.rcv_last_ack seq) in
      ((ltb_ℤ (seqoff u.rcv_last_ack seq) (pos 0) ≡ true) ⊎ (get_avail_buf_size u.rcv_buffer ≤ k))
        ⊎ (get_or u.rcv_buffer.unit (target u.rcv_buffer k) none ≢ none)
      → (s : Udt) × (process_data w u v seq ≡ some (s, false)) × IsUntouched u s
unfolding process_data arrived
process_data_refuses w u v seq (inl out) =
    out_of_window w u v seq
      (outside (seqoff u.rcv_last_ack seq) (get_avail_buf_size u.rcv_buffer) out)
process_data_refuses w u v seq (inr taken) =
    let b = u.rcv_buffer in
    let k = pos_part (seqoff u.rcv_last_ack seq) in
    elim (Bool-cases (ltb_ℤ (seqoff u.rcv_last_ack seq) (pos 0) || leb (get_avail_buf_size b) k)) [
      | inl e ↦ out_of_window w u v seq e
      | inr e ↦ elim (Option-cases (get_or b.unit (target b k) none)) [
        | inl free ↦ absurd (taken free)
        | inr (x, there) ↦ (
          record (arrived w u seq) {
            rcv_buffer = record b { max_pos = if ltb b.max_pos k then k else b.max_pos };
          },
          simp (e, add_data-taken b v k x there),
          record { slots = refl; losses = refl; number = refl; acked = refl; quiet = refl },
        )
      ]
    ]

-- The words that report the numbers from `a` to `b`.
abbrev pub report_words : ℕ → ℕ → List ℕ
report_words a b = if a == b then b ∷ [] else bit_or a 0x8000_0000 ∷ b ∷ []

-- A loss report of the numbers from `a` to `b`.
pub IsReport : Packet → ℕ → ℕ → Type 0
IsReport p a b = (get_type p ≡ 3) × (words p.content ≡ report_words a b)

nak_packet : Udt → ℕ → ℕ → Packet
nak_packet u a b = record {
  seq_no = bit_or 0x8000_0000 (3 * 2 ^ 16 % 2 ^ 32);
  msg_no = 0;
  time_stamp = 0;
  id = u.peer_id;
  content = block (report_words a b);
  len = if a == b then 4 else 8;
}

-- What the detection of a loss leaves, with the new loss list `l`.
gap_found : World → Udt → RcvLossList → ℕ → Udt
gap_found w u l seq =
    let s = record u { rcv_loss_list = l } in
    record s {
      events = sent (nak_packet u (incseq u.rcv_curr_seq_no) (decseq seq)) ∷ u.events;
      sent_nak_total = u.sent_nak_total + 1;
      nak_int = nak_wait w s;
      rcv_loss_total = u.rcv_loss_total +ℤ (seqlen u.rcv_curr_seq_no seq +ℤ negsuc 1);
    }

detect_loss-gap :
    (w : World) (u : Udt) (l : RcvLossList) (seq : ℕ)
    → ltb_ℤ (pos 0) (seqcmp seq (incseq u.rcv_curr_seq_no)) ≡ true
    → insert u.rcv_loss_list (incseq u.rcv_curr_seq_no) (decseq seq) ≡ some l
    → detect_loss w u seq ≡ some (gap_found w u l seq)
unfolding detect_loss send_nak create pack gap_found nak_packet nak_wait
detect_loss-gap w u l seq gap there = elim (Bool-cases (incseq u.rcv_curr_seq_no == decseq seq)) [
  | inl e ↦ simp (gap, there, e)
  | inr e ↦ simp (gap, there, e)
]

module _ (c n : ℕ) (h : IsSeqNo c) (k : n + 2 < seq_no_th) where
  gap_ahead : ltb_ℤ (pos 0) (seqcmp (incseq_by c (n + 2)) (incseq c)) ≡ true
  unfolding seqcmp incseq incseq_by
  gap_ahead = ground arith

  gap_moves : ltb_ℤ (pos 0) (seqcmp (incseq_by c (n + 2)) c) ≡ true
  unfolding seqcmp incseq_by
  gap_moves = ground arith

  gap_counts : 0 < pos_part (seqlen (incseq c) (decseq (incseq_by c (n + 2))))
  unfolding seqlen incseq decseq incseq_by
  gap_counts = ground arith

-- What a packet behind a gap leaves.
gap_taken : World → Udt → ℕ → ℕ → ℕ → RcvLossList → Udt
gap_taken w u v seq k l =
    let b = placed u.rcv_buffer v k in
    let s = gap_found w (record (arrived w u seq) { rcv_buffer = b }) l seq in
    record (ack_asked w s (length (b.payload v))) { rcv_curr_seq_no = seq }

-- A packet that is `n` + 2 numbers ahead of the largest one, with nothing lost before, in the window
-- and with a free slot, is taken. The numbers between, and no others, are put on the loss list and
-- reported to the peer in one packet, and the next ACK will carry the first of them.
pub gap_reported :
    (w : World) (u : Udt) (v n k : ℕ)
    → let a = incseq u.rcv_curr_seq_no in
      let seq = incseq_by u.rcv_curr_seq_no (n + 2) in
      IsSeqNo u.rcv_curr_seq_no
      → n + 2 < seq_no_th
      → seqoff u.rcv_last_ack seq ≡ pos k
      → k < get_avail_buf_size u.rcv_buffer
      → get_or u.rcv_buffer.unit (target u.rcv_buffer k) none ≡ none
      → IsEmpty u.rcv_loss_list
      → (s : Udt) × (p : Packet) × (process_data w u v seq ≡ some (s, true))
        × (s.rcv_curr_seq_no ≡ seq)
        × (s.events ≡ sent p ∷ u.events)
        × IsReport p a (decseq seq)
        × IsList s.rcv_loss_list [] (a, decseq seq)
        × (ack_number s ≡ some a)
unfolding process_data take_in note_seq arrived ack_number get_first_lost_seq gap_taken gap_found
    nak_packet IsReport get_type
gap_reported w u v n k h near apart room free none_lost =
    let c = u.rcv_curr_seq_no in
    let a = incseq c in
    let seq = incseq_by c (n + 2) in
    let (l, there, head, list) = insert_empty u.rcv_loss_list a (decseq seq) none_lost in
    let first : read l.data1 0 ≡ some a =
      ap (read l.data1) (some-injective 0 list.t (sym head ∙ list.to_tail)) ∙ list.at_tail.first in
    let counted : (l.length == 0) ≡ false =
      ne→== l.length 0 (omega (arith, list.counted, gap_counts c n h near)) in
    let inside = in_window (get_avail_buf_size u.rcv_buffer) k room in
    let s0 = record (arrived w u seq) { rcv_buffer = placed u.rcv_buffer v k } in
    (
      gap_taken w u v seq k l,
      nak_packet u a (decseq seq),
      simp (
        apart,
        inside,
        add_data-free u.rcv_buffer v k free,
        take_in,
        note_seq,
        detect_loss-gap w s0 l seq (gap_ahead c n h near) there,
        gap_moves c n h near,
      ),
      refl,
      refl,
      (refl, refl),
      list,
      simp (counted, head, first),
    )
