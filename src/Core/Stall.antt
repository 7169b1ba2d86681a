-- ===== src/Core/Stall.antt =====
-- CUDT::processCtrl and packData (src/core.cpp): a light ACK of numbers that were not sent.
use udt_server.Base.{
  ℕ, ◌+◌, ◌-◌, ◌^◌, ◌<◌, ◌≤◌, ◌≡◌, ◌≢◌, refl, ap, ◌∙◌, Bool, true, false, Option, none, some, arith,
  ◌==◌, if◌then◌else◌, get_elem?, ==_iff,
}
use udt_server.Base.Int.{ℤ, pos, ltb_ℤ, leb_ℤ, neg, ◌+ℤ◌}
use udt_server.SeqNo.{IsSeqNo, seq_no_th, seqcmp, seqlen, seqoff, incseq, incseq_by}
use udt_server.Core.Send.{pack_data, send_new, send_block, resend, late, idle, has_room}
use udt_server.Packet.{Packet, get_type}
use udt_server.SndBuffer.{read_data}
use udt_server.SndLossList.{SndLossList}
use udt_server.SndLossList.Remove.{get_lost_seq}
use udt_server.Core.{World, Udt, words}
use udt_server.Core.Receive.{heard}
use udt_server.Core.Ack.{take_light_ack, take_ack}
use udt_server.Core.Control.{process_ctrl}
use udt_server.Core.Sender.{process_ctrl_breaks}

-- The socket after a light ACK.
abbrev believed : World → Udt → ℕ → Udt
believed w u ack = record (heard w u) {
  flow_window_size = u.flow_window_size +ℤ neg (seqoff u.snd_last_ack ack);
  snd_last_ack = ack;
}

beyond_sent :
    (next k : ℕ)
    → IsSeqNo next
    → k + 2 < seq_no_th
    → ltb_ℤ (pos 0) (seqcmp (incseq_by next (k + 2)) next) ≡ true
unfolding seqcmp incseq_by
beyond_sent next k h small = ground arith

-- The numbers from one that is beyond the next one, round to the next one.
round_to_next :
    (next k : ℕ)
    → IsSeqNo next
    → k + 2 < seq_no_th
    → seqlen (incseq_by next (k + 2)) next ≡ pos (2 ^ 31 - 1 - k)
unfolding seqlen incseq_by
round_to_next next k h small = ground arith

window_full :
    (flow : ℤ) (window far : ℕ)
    → window < far
    → leb_ℤ (pos far) (if ltb_ℤ flow (pos window) then flow else pos window) ≡ false
window_full flow window far h = ground arith

nothing_lost : (s : SndLossList) → (s.length == 0) ≡ true → get_lost_seq s ≡ some (s, none)
unfolding get_lost_seq
nothing_lost s empty = rw empty refl

idles : (w : World) (v : Udt) → has_room v ≡ false → send_new w v ≡ (idle v, none)
unfolding send_new
idles w v full =
    let sends = λ (b : Bool).
      if b
      then (let (c, front) = read_data v.snd_buffer in
          send_block w (record v { snd_buffer = c }) front)
      else (idle v, none) in
    ap sends full

stalled :
    (w : World) (u : Udt)
    → (u.snd_loss_list.length == 0) ≡ true
    → has_room u ≡ false
    → (t : Udt) × (pack_data w u ≡ some (t, none))
unfolding pack_data late
stalled w u empty full =
    let v = record (late w u) { snd_loss_list = u.snd_loss_list } in
    let sends = λ (o : Option (SndLossList × Option ℕ)).
      elim o as (λ (_ : Option (SndLossList × Option ℕ)). Option (Udt × Option (Packet × ℕ))) [
        | none ↦ none
        | some (l, none) ↦ some (send_new w (record (late w u) { snd_loss_list = l }))
        | some (l, some seq) ↦ resend w (record (late w u) { snd_loss_list = l }) seq
      ] in
    (idle v, ap sends (nothing_lost u.snd_loss_list empty) ∙ ap (λ r. some r) (idles w v full))

-- Of a number that is at least two, and fewer than 2 ^ 30 - 1, beyond the next one to be sent, and
-- not behind the last acknowledged one: an ACK that is not a light one breaks the connection with
-- it. A light ACK is not compared with what was sent. The connection goes on, and where no number
-- is lost, packData has no packet then, whatever the flow window, for a congestion window of up to
-- 2 ^ 30.
pub light_ack_stalls :
    (w w' : World) (u : Udt) (p q : Packet) (k : ℕ)
    → let next = incseq u.snd_curr_seq_no in
      let ack = incseq_by next (k + 2) in
      IsSeqNo next
      → k + 2 < seq_no_th
      → leb_ℤ (pos 0) (seqcmp ack u.snd_last_ack) ≡ true
      → (get_type p ≡ 2) × (p.len ≡ 4) × (get_elem? (words p.content) 0 ≡ some ack)
      → (get_type q ≡ 2) × (q.len ≢ 4) × (get_elem? (words q.content) 0 ≡ some ack)
      → (u.snd_loss_list.length == 0) ≡ true
      → u.congestion_window ≤ 2 ^ 30
      → ((s : Udt) × (process_ctrl w u q ≡ some s) × (s.broken ≡ true))
        × ((t : Udt) × (process_ctrl w u p ≡ some t)
            × (t.broken ≡ u.broken)
            × ((t' : Udt) × (pack_data w' t ≡ some (t', none))))
unfolding process_ctrl take_ack take_light_ack
light_ack_stalls w w' u p q k range small ahead (kind, short, first) (kind', full, first') empty
      window =
    let next = incseq u.snd_curr_seq_no in
    let ack = incseq_by next (k + 2) in
    let t = believed w u ack in
    let (s, breaks, broken, _, _) =
      process_ctrl_breaks w u q ack kind' full first' (beyond_sent next k range small) in
    let round = round_to_next next k range small in
    let none_left : has_room t ≡ false =
      rw round
        (window_full t.flow_window_size u.congestion_window (2 ^ 31 - 1 - k) (omega arith)) in
    (
      (s, breaks, broken),
      (
        t,
        simp (kind, take_ack, first, (==_iff p.len 4).1 short, take_light_ack, ahead),
        refl,
        stalled w' t empty none_left,
      ),
    )
