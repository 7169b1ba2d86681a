-- ===== src/Core/Deliver.antt =====
-- CUDT::processData and the ACK of CUDT::sendCtrl (src/core.cpp): how a packet becomes readable.
use mathlib.Core.List.{append-nil}
use udt_server.Base.{
  ℕ, ◌+◌, ◌*◌, ◌%◌, ◌^◌, ◌<◌, ◌≡◌, refl, sym, ap, ◌∙◌, subst, true, false, ◌||◌, none, some, List,
  [], ◌∷◌, ◌++◌, inl, inr, arith, ltb, leb, ◌==◌, if◌then◌else◌, get_or, get_elem?, length,
  get_or-set_here, ap₂, Bool-cases, ==_iff, ne→==,
}
use udt_server.Base.Int.{pos, pos_part, ltb_ℤ}
use native.Mathlib.Nat.{mod-lt}
use udt_server.SeqNo.Walk.{incseq-decseq}
use udt_server.SeqNo.{IsSeqNo, seqcmp, seqoff, incseq, incack}
use Prim.Native.Nat.{bit_or}
use udt_server.AckWindow.{store}
use udt_server.Core.Times.{since}
use udt_server.Packet.{Packet, create, pack, get_type, block}
use udt_server.RcvBuffer.{RcvBuffer, ack_data, get_rcv_data_size, get_avail_buf_size}
use udt_server.RcvBuffer.Stream.{IsValid, AreFilled, stream, slots, slot, bytes_of}
use udt_server.RcvBuffer.Fill.{target, placed, placed_size, add_data-free, add_data_lem}
use udt_server.RcvBuffer.Ack.{ack_data_lem}
use udt_server.Core.{World, Udt, Event, sent, words}
use udt_server.Core.SendCtrl.{
  send_ctrl, send_ack, send_full_ack, ack_number, acknowledge_up_to, ack_words, rate_words,
}
use udt_server.Core.Receive.{process_data, arrived, ack_asked, detect_loss, note_seq, take_in}

-- An ACK of all numbers before `ack`.
pub IsAck : Packet → ℕ → Type 0
IsAck p ack = (get_type p ≡ 2) × (get_elem? (words p.content) 0 ≡ some ack)

pub seqcmp_self : (a : ℕ) → ltb_ℤ (pos 0) (seqcmp a a) ≡ false
unfolding seqcmp
seqcmp_self a = ground arith

seqoff_self : (a : ℕ) → seqoff a a ≡ pos 0
unfolding seqoff
seqoff_self a = ground arith

seqcmp_next : (a : ℕ) → IsSeqNo a → ltb_ℤ (pos 0) (seqcmp (incseq a) a) ≡ true
unfolding seqcmp incseq
seqcmp_next a h = ground arith

seqoff_next : (a : ℕ) → IsSeqNo a → seqoff a (incseq a) ≡ pos 1
unfolding seqoff incseq
seqoff_next a h = ground arith

ack_packet : Udt → List ℕ → ℕ → Packet
ack_packet u ws len = record {
  seq_no = bit_or 0x8000_0000 (2 * 2 ^ 16 % 2 ^ 32);
  msg_no = incack u.ack_seq_no;
  time_stamp = 0;
  id = u.peer_id;
  content = block ws;
  len = len;
}

-- What a full ACK leaves.
after_ack : World → Udt → ℕ → List ℕ → ℕ → Udt
after_ack w u time ws len = record u {
  events = sent (ack_packet u ws len) ∷ u.events;
  last_ack_time = time;
  ack_seq_no = incack u.ack_seq_no;
  ack_window = store u.ack_window (incack u.ack_seq_no) u.rcv_last_ack (w.time 0);
  sent_ack_total = u.sent_ack_total + 1;
}

full_ack : World → Udt → Udt
full_ack w u =
    if ltb u.syn_int (since (w.tsc 0) u.last_ack_time)
    then after_ack w u (w.tsc 1) (ack_words u ++ rate_words w u) 24
    else after_ack w u u.last_ack_time (ack_words u) 16

-- A full ACK is sent where the sender has not got it, and leaves the buffer and the number alone.
full_ack_sent :
    (w : World) (u : Udt)
    → ltb_ℤ (pos 0) (seqcmp u.rcv_last_ack u.rcv_last_ack_ack) ≡ true
    → (send_full_ack w u ≡ some (full_ack w u))
      × ((p : Packet) × ((full_ack w u).events ≡ sent p ∷ u.events) × IsAck p u.rcv_last_ack)
      × ((full_ack w u).rcv_buffer ≡ u.rcv_buffer)
      × ((full_ack w u).rcv_last_ack ≡ u.rcv_last_ack)
unfolding send_full_ack create pack get_type IsAck full_ack after_ack ack_packet
full_ack_sent w u new = elim (Bool-cases (ltb u.syn_int (since (w.tsc 0) u.last_ack_time))) [
  | inl e ↦ (
    simp (new, e),
    (ack_packet u (ack_words u ++ rate_words w u) 24, simp e, (refl, refl)),
    simp e,
    simp e,
  )
  | inr e ↦ (simp (new, e), (ack_packet u (ack_words u) 16, simp e, (refl, refl)), simp e, simp e)
]

ahead_differs : (a b : ℕ) → ltb_ℤ (pos 0) (seqcmp a b) ≡ true → (a == b) ≡ false
ahead_differs a b h = ne→== a b (λ e.
    let same : ltb_ℤ (pos 0) (seqcmp a a) ≡ true =
      subst (λ c. ltb_ℤ (pos 0) (seqcmp a c) ≡ true) (sym e) h in
    let stays = seqcmp_self a in absurd cc)

-- A full ACK call where the number to acknowledge, `ack`, has moved past the last one and the
-- sender has not heard of it, and the `n` packets up to it are in the buffer: their bytes join
-- what can be read, and the last thing done is to send an ACK of `ack`.
pub send_ctrl_delivers :
    (w : World) (u : Udt) (ack n : ℕ)
    → ack_number u ≡ some ack
    → ltb_ℤ (pos 0) (seqcmp ack u.rcv_last_ack) ≡ true
    → ltb_ℤ (pos 0) (seqcmp ack u.rcv_last_ack_ack) ≡ true
    → seqoff u.rcv_last_ack ack ≡ pos n
    → IsValid u.rcv_buffer
    → get_rcv_data_size u.rcv_buffer + n < u.rcv_buffer.size
    → AreFilled u.rcv_buffer u.rcv_buffer.last_ack_pos n
    → (t : Udt) × (p : Packet) × (es : List Event) × (send_ctrl w u 2 none none 0 ≡ some t)
      × (t.events ≡ sent p ∷ es)
      × IsAck p ack
      × (t.rcv_last_ack ≡ ack)
      × IsValid t.rcv_buffer
      × (stream t.rcv_buffer
          ≡ stream u.rcv_buffer ++ slots u.rcv_buffer u.rcv_buffer.last_ack_pos n)
unfolding send_ctrl send_ack acknowledge_up_to
send_ctrl_delivers w u ack n number moved unheard apart v room filled =
    let s = acknowledge_up_to u ack in
    let (e, (p, there, is_ack), b, last) = full_ack_sent w s unheard in
    let here : s.rcv_buffer ≡ ack_data u.rcv_buffer n =
      ap (λ k. ack_data u.rcv_buffer (pos_part k)) apart in
    let (valid, more, size) = ack_data_lem u.rcv_buffer n v room filled in
    (
      full_ack w s,
      p,
      s.events,
      simp (send_ack, number, ahead_differs ack u.rcv_last_ack_ack unheard, moved, e),
      there,
      is_ack,
      last,
      subst IsValid (sym (b ∙ here)) valid,
      ap stream (b ∙ here) ∙ more,
    )

pub in_window : (avail k : ℕ) → k < avail → (ltb_ℤ (pos k) (pos 0) || leb avail k) ≡ false
in_window avail k h = ground arith

-- What the next packet in order leaves, where its slot is free.
abbrev next_taken : World → Udt → ℕ → ℕ → Udt
next_taken w u v k =
    let seq = incseq u.rcv_curr_seq_no in
    let b = placed u.rcv_buffer v k in
    record (ack_asked w (record (arrived w u seq) { rcv_buffer = b }) (length (b.payload v))) {
      rcv_curr_seq_no = seq;
    }

-- The packet that follows the largest number is taken, and nothing counts as lost.
next_in_order :
    (w : World) (u : Udt) (v k : ℕ)
    → IsSeqNo u.rcv_curr_seq_no
    → seqoff u.rcv_last_ack (incseq u.rcv_curr_seq_no) ≡ pos k
    → k < get_avail_buf_size u.rcv_buffer
    → get_or u.rcv_buffer.unit (target u.rcv_buffer k) none ≡ none
    → process_data w u v (incseq u.rcv_curr_seq_no) ≡ some (next_taken w u v k, true)
unfolding process_data arrived take_in detect_loss note_seq
next_in_order w u v k h apart room free =
    let inside = in_window (get_avail_buf_size u.rcv_buffer) k room in
    simp (
      apart,
      inside,
      add_data-free u.rcv_buffer v k free,
      take_in,
      detect_loss,
      note_seq,
      seqcmp_self (incseq u.rcv_curr_seq_no),
      seqcmp_next u.rcv_curr_seq_no h,
    )

held : (b : RcvBuffer) (v : ℕ) → IsValid b → slot (placed b v 0) b.last_ack_pos ≡ some v
held b v v' =
    ap (λ i. get_or (placed b v 0).unit i none) {x = b.last_ack_pos % b.size} {y = target b 0}
      (ap (λ i. i % b.size) (omega arith))
    ∙ get_or-set_here b.unit (target b 0) (some v) none
        (omega (arith, v'.sized, mod-lt (b.last_ack_pos + 0) {m = b.size}, v'.ack_in))

-- Where everything before the next number is acknowledged and nothing is lost, the packet with that
-- number is taken; the next full ACK call then makes its bytes readable, behind the others, and sends
-- an ACK of it. The buffer has room, the packet's slot is free, and the sender has not heard of
-- such an ACK.
pub deliver_in_order :
    (w w' : World) (u : Udt) (v : ℕ)
    → IsSeqNo u.rcv_curr_seq_no
    → u.rcv_loss_list.length ≡ 0
    → u.rcv_last_ack ≡ incseq u.rcv_curr_seq_no
    → IsValid u.rcv_buffer
    → 0 < get_avail_buf_size u.rcv_buffer
    → get_or u.rcv_buffer.unit (target u.rcv_buffer 0) none ≡ none
    → ltb_ℤ (pos 0) (seqcmp (incseq u.rcv_last_ack) u.rcv_last_ack_ack) ≡ true
    → (s : Udt) × (t : Udt) × (p : Packet) × (es : List Event) × (process_data w u v u.rcv_last_ack
        ≡ some (s, true))
      × (send_ctrl w' s 2 none none 0 ≡ some t)
      × (t.events ≡ sent p ∷ es)
      × IsAck p (incseq u.rcv_last_ack)
      × (t.rcv_last_ack ≡ incseq u.rcv_last_ack)
      × (stream t.rcv_buffer ≡ stream u.rcv_buffer ++ u.rcv_buffer.payload v)
unfolding arrived ack_number get_avail_buf_size
deliver_in_order w w' u v h whole acked valid room free unheard =
    let next = incseq u.rcv_curr_seq_no in
    let next_in : IsSeqNo next = (incseq-decseq u.rcv_curr_seq_no h).0 in
    let s = next_taken w u v 0 in
    let b = u.rcv_buffer in
    let apart : seqoff u.rcv_last_ack next ≡ pos 0 =
      ap (λ a. seqoff a next) acked ∙ seqoff_self next in
    let taken = next_in_order w u v 0 h apart room free in
    let (valid', same, _, _, _) = add_data_lem b v 0 valid in
    let eq = add_data-free b v 0 free in
    let number : ack_number s ≡ some (incseq next) =
      rw ((==_iff u.rcv_loss_list.length 0).1 whole) refl in
    let moved : ltb_ℤ (pos 0) (seqcmp (incseq next) u.rcv_last_ack) ≡ true =
      ap (λ a. ltb_ℤ (pos 0) (seqcmp (incseq next) a)) acked ∙ seqcmp_next next next_in in
    let (t, p, es, there, events, is_ack, last, valid'', more) =
      send_ctrl_delivers w' s (incseq next) 1 number moved
        (subst (λ a. ltb_ℤ (pos 0) (seqcmp (incseq a) u.rcv_last_ack_ack) ≡ true) acked unheard)
        (ap (λ a. seqoff a (incseq next)) acked ∙ seqoff_next next next_in)
        (subst (λ r. IsValid (r.0)) eq valid') (omega (arith, placed_size b v 0 valid free))
        ((v, held b v valid), tt) in
    (
      s,
      t,
      p,
      es,
      ap (process_data w u v) acked ∙ taken,
      there,
      events,
      subst (λ a. IsAck p (incseq a)) (sym acked) is_ack,
      last ∙ ap incseq (sym acked),
      more
          ∙ ap₂ (λ x y. x ++ y) (ap (λ r. stream (r.0)) (sym eq) ∙ same)
              (ap (λ o. bytes_of b.payload o ++ []) (held b v valid) ∙ append-nil (b.payload v)),
    )
