-- ===== src/Core/Window.antt =====
-- CUDT::packData (src/core.cpp): which packets go out, and what is asked of the peer for an expired
-- message.
use udt_server.Base.{
  ℕ, ◌+◌, ◌*◌, ◌%◌, ◌^◌, ◌<◌, ◌≡◌, ◌⊎◌, refl, subst, true, Option, none, some, List, [], ◌∷◌, inl,
  inr, arith, ◌==◌, if◌then◌else◌, length, Bool-cases, Option-cases,
}
use udt_server.Base.Int.{ℤ, pos, pos_part, ltb_ℤ, leb_ℤ, ◌≤ℤ◌}
use udt_server.SeqNo.{IsSeqNo, seq_no_th, seqcmp, seqlen, seqoff, incseq, incseq_by}
use udt_server.Packet.{Packet, create, pack, get_type, block}
use udt_server.SndBuffer.{SndBuffer, read_data}
use udt_server.SndBuffer.Read.{Answer, read_data_at}
use udt_server.SndLossList.{SndLossList}
use udt_server.SndLossList.Remove.{remove, get_lost_seq}
use Prim.Native.Nat.{bit_or}
use udt_server.Core.{World, Udt, sent, words}
use udt_server.Core.SendCtrl.{send_ctrl}
use udt_server.Core.Send.{
  late, packed, drop_message, nothing_sent, resend_block, resend, least_window, has_room,
  send_block, send_new, pack_data,
}

-- A lost number that is sent again, or the next number, where the windows have room for it.
abbrev pub IsDue : Udt → Udt → Packet → Type 0
IsDue u t p =
    ((l : SndLossList) × (get_lost_seq u.snd_loss_list ≡ some (l, some p.seq_no)))
    ⊎ ((p.seq_no ≡ incseq u.snd_curr_seq_no)
        × (t.snd_curr_seq_no ≡ incseq u.snd_curr_seq_no)
        × (seqlen u.snd_last_ack p.seq_no ≤ℤ least_window u))

room_left : (a b : ℤ) → leb_ℤ a b ≡ true → a ≤ℤ b
room_left a b h = ground arith

-- Of a result that has a packet.
abbrev DueOrNone : Udt → Udt → Option (Packet × ℕ) → Type 0
DueOrNone u t none = Unit
DueOrNone u t (some (p, ts)) = IsDue u t p × (p.id ≡ u.peer_id)

abbrev Outcome : Udt → Option (Udt × Option (Packet × ℕ)) → Type 0
Outcome u none = Unit
Outcome u (some (t, o)) = DueOrNone u t o

nothing_sent-Outcome : (u : Udt) (o : Option Udt) → Outcome u (nothing_sent o)
nothing_sent-Outcome u none = tt
nothing_sent-Outcome u (some t) = tt

module _ (w : World) (u : Udt) (l : SndLossList) where
  abbrev ready : Udt
  ready = record (late w u) { snd_loss_list = l }

  resend_block-Outcome :
      (b : SndBuffer) (seq : ℕ) (a : Answer)
      → get_lost_seq u.snd_loss_list ≡ some (l, some seq)
      → Outcome u (resend_block w (record ready { snd_buffer = b }) seq a)
  unfolding resend_block packed late
  resend_block-Outcome b seq (Answer.expired m len) lost = nothing_sent-Outcome u _
  resend_block-Outcome b seq (Answer.block xs m) lost = elim (Bool-cases (length xs == 0)) [
    | inl e ↦ rw e tt
    | inr e ↦ rw e (inl (l, lost), refl)
  ]

  resend-Outcome :
      (seq : ℕ) → get_lost_seq u.snd_loss_list ≡ some (l, some seq) → Outcome u (resend w ready seq)
  unfolding resend late
  resend-Outcome seq lost = elim (Bool-cases (ltb_ℤ (seqoff u.snd_last_data_ack seq) (pos 0))) [
    | inl e ↦ rw e tt
    | inr e ↦ rw e (
        answered (read_data_at u.snd_buffer (pos_part (seqoff u.snd_last_data_ack seq)) (w.time 0)))
  ]
    where
      answered :
          (o : Option (SndBuffer × Answer))
          → Outcome u (elim o [
            | none ↦ none
            | some (b, a) ↦ resend_block w (record ready { snd_buffer = b }) seq a
          ])
      answered none = tt
      answered (some (b, a)) = resend_block-Outcome b seq a lost

  send_block-Outcome :
      (b : SndBuffer) (front : Option (List ℕ × ℕ))
      → seqlen u.snd_last_ack (incseq u.snd_curr_seq_no) ≤ℤ least_window u
      → let (t, o) = send_block w (record ready { snd_buffer = b }) front in DueOrNone u t o
  unfolding send_block packed late
  send_block-Outcome b none room = tt
  send_block-Outcome b (some (xs, m)) room = elim (Bool-cases (length xs == 0)) [
    | inl e ↦ rw e tt
    | inr e ↦ rw e (inr (refl, refl, room), refl)
  ]

  send_new-Outcome : let (t, o) = send_new w ready in DueOrNone u t o
  unfolding send_new late
  send_new-Outcome = elim (Bool-cases (has_room u)) [
    | inl e ↦ rw e (
        let (b, front) = read_data u.snd_buffer in
        send_block-Outcome b front
          (room_left (seqlen u.snd_last_ack (incseq u.snd_curr_seq_no)) (least_window u) e))
    | inr e ↦ rw e tt
  ]

pack_data-Outcome : (w : World) (u : Udt) → Outcome u (pack_data w u)
unfolding pack_data late
pack_data-Outcome w u = elim (Option-cases (get_lost_seq u.snd_loss_list)) [
  | inl e ↦ rw (Outcome, pack_data, e) tt
  | inr ((l, none), e) ↦ rw (Outcome, pack_data, e) (send_new-Outcome w u l)
  | inr ((l, some seq), e) ↦ rw (Outcome, pack_data, e) (resend-Outcome w u l seq e)
]

-- A packet that packData hands out is addressed to the peer. It has the number that getLostSeq of
-- the loss list returns, or the number after the largest one sent, which then becomes the largest; in
-- the second case the packets from the last acknowledged number to it fit into the flow window and
-- the congestion window.
pub pack_data-IsDue :
    (w : World) (u t : Udt) (p : Packet) (ts : ℕ)
    → pack_data w u ≡ some (t, some (p, ts))
    → IsDue u t p × (p.id ≡ u.peer_id)
pack_data-IsDue w u t p ts e = subst (Outcome u) e (pack_data-Outcome w u)

drop_packet : Udt → ℕ → ℕ → ℕ → Packet
drop_packet u seq msg_no len = record {
  seq_no = bit_or 0x8000_0000 (7 * 2 ^ 16 % 2 ^ 32);
  msg_no = msg_no;
  time_stamp = 0;
  id = u.peer_id;
  content = block (seq ∷ incseq_by seq len ∷ []);
  len = 8;
}

drop_sent :
    (w : World) (u : Udt) (seq msg_no len : ℕ)
    → send_ctrl w u 7 (some msg_no) (some (seq ∷ incseq_by seq len ∷ [])) 8
      ≡ some (record u { events = sent (drop_packet u seq msg_no len) ∷ u.events })
unfolding send_ctrl create pack drop_packet
drop_sent w u seq msg_no len = refl

one_more :
    (seq len : ℕ) → IsSeqNo seq → len < seq_no_th → seqlen seq (incseq_by seq len) ≡ pos (len + 1)
unfolding seqlen incseq_by
one_more seq len h k = ground arith

-- For an expired message with `len` packets from the lost packet `seq` on, the peer is asked to drop
-- a range of `len` + 1 numbers from `seq` on, so the packet behind the message is given up too. The
-- largest number sent then is at least the one behind that range, where it was before it.
pub drop_message_drops_more :
    (w : World) (u : Udt) (l : SndLossList) (seq msg_no len : ℕ)
    → IsSeqNo seq
    → len < seq_no_th
    → remove u.snd_loss_list (incseq_by seq len) ≡ some l
    → (t : Udt) × (p : Packet) × (drop_message w u seq msg_no len ≡ some t)
      × (t.events ≡ sent p ∷ u.events)
      × (get_type p ≡ 7)
      × (words p.content ≡ seq ∷ incseq_by seq len ∷ [])
      × (seqlen seq (incseq_by seq len) ≡ pos (len + 1))
      × (t.snd_curr_seq_no ≡ (
          if ltb_ℤ (seqcmp u.snd_curr_seq_no (incseq (incseq_by seq len))) (pos 0)
          then incseq (incseq_by seq len)
          else u.snd_curr_seq_no))
unfolding drop_message get_type drop_packet
drop_message_drops_more w u l seq msg_no len h k there =
    let end' = incseq_by seq len in
    let p = drop_packet u seq msg_no len in
    (
      record u {
        events = sent p ∷ u.events;
        snd_loss_list = l;
        snd_curr_seq_no =
            if ltb_ℤ (seqcmp u.snd_curr_seq_no (incseq end')) (pos 0)
            then incseq end'
            else u.snd_curr_seq_no;
      },
      p,
      simp (drop_message, drop_sent w u seq msg_no len, there),
      refl,
      refl,
      refl,
      one_more seq len h k,
      refl,
    )
