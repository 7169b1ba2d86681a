-- ===== src/Core/Send.antt =====
-- CUDT::packData (src/core.cpp): the next data packet of a socket.
-- NO_BUSY_WAITING is defined, as in src/udt.h. The result is the packet and the time of the next one; it is
-- `none` for the returned 0.
use udt_server.Base.{
  ℕ, ◌+◌, ◌-◌, ◌%◌, ◌^◌, Bool, false, ◌&&◌, not, Option, none, some, List, [], ◌∷◌, length, ltb,
  leb, ◌==◌, if◌then◌else◌,
}
use udt_server.Base.Int.{ℤ, pos, pos_part, ltb_ℤ, leb_ℤ}
use udt_server.SeqNo.{seqcmp, seqlen, seqoff, incseq, incseq_by}
use udt_server.Packet.{Packet, block}
use udt_server.SndBuffer.{read_data}
use udt_server.SndBuffer.Read.{Answer, read_data_at}
use udt_server.SndLossList.Remove.{remove, get_lost_seq}
use udt_server.Core.{World, Udt, called, on_pkt_sent, set_snd_curr_seq_no}
use udt_server.Core.Times.{plus_64, since}
use udt_server.Core.SendCtrl.{send_ctrl}

-- The delay of this call against its time.
unfoldable pub late : World → Udt → Udt
late w u = record u {
  time_diff =
      if not (u.target_time == 0) && ltb u.target_time (w.tsc 0)
      then plus_64 u.time_diff (since (w.tsc 0) u.target_time)
      else u.time_diff;
}

-- The time of the next packet, and what is left of the delay, which shortens the wait.
abbrev pub next_time : ℕ → Udt → ℕ × ℕ
next_time now u =
    if leb u.interval u.time_diff
    then (now, u.time_diff - u.interval)
    else (since (plus_64 now u.interval) u.time_diff, 0)

-- The end of the method: the packet's header and the time of the next packet. The second packet of
-- a probing pair comes right behind the first.
unfoldable pub packed : World → Udt → ℕ → ℕ → List ℕ → Bool → Udt × Packet × ℕ
packed w u seq msg_no payload probe =
    let (ts, diff) = if probe then (w.tsc 0, u.time_diff) else next_time (w.tsc 0) u in
    (
      record (called u (on_pkt_sent seq)) {
        sent_total = u.sent_total + 1;
        time_diff = diff;
        target_time = ts;
      },
      record {
        seq_no = seq;
        msg_no = msg_no;
        time_stamp = since (w.time 1) u.start_time % 2 ^ 32;
        id = u.peer_id;
        content = block payload;
        len = length payload;
      },
      ts,
    )

-- The message of the lost packet `seq`, with `len` packets from it on, has expired: the peer is told
-- to drop it.
unfoldable pub drop_message : World → Udt → ℕ → ℕ → ℕ → Option Udt
drop_message w u seq msg_no len =
    let end' = incseq_by seq len in
    elim (send_ctrl w u 7 (some msg_no) (some (seq ∷ end' ∷ [])) 8) [
      | none ↦ none
      | some s ↦ elim (remove s.snd_loss_list end') [
        | none ↦ none
        | some l ↦ some (record s {
          snd_loss_list = l;
          snd_curr_seq_no =
              if ltb_ℤ (seqcmp s.snd_curr_seq_no (incseq end')) (pos 0)
              then incseq end'
              else s.snd_curr_seq_no;
        })
      ]
    ]

abbrev pub nothing_sent : Option Udt → Option (Udt × Option (Packet × ℕ))
nothing_sent none = none
nothing_sent (some u) = some (u, none)

abbrev pub one_sent : Udt × Packet × ℕ → Option (Udt × Option (Packet × ℕ))
one_sent (u, p, ts) = some (u, some (p, ts))

-- What the send buffer answers for the lost packet `seq`.
unfoldable pub resend_block : World → Udt → ℕ → Answer → Option (Udt × Option (Packet × ℕ))
resend_block w u seq (Answer.expired msg_no len) = nothing_sent (drop_message w u seq msg_no len)
resend_block w u seq (Answer.block payload msg_no) =
    if length payload == 0
    then some (u, none)
    else one_sent
        (packed w (record u { retrans_total = u.retrans_total + 1 }) seq msg_no payload false)

-- A lost packet goes out again.
unfoldable pub resend : World → Udt → ℕ → Option (Udt × Option (Packet × ℕ))
resend w u seq =
    let offset = seqoff u.snd_last_data_ack seq in
    if ltb_ℤ offset (pos 0)
    then some (u, none)
    else elim (read_data_at u.snd_buffer (pos_part offset) (w.time 0)) [
      | none ↦ none
      | some (b, a) ↦ resend_block w (record u { snd_buffer = b }) seq a
    ]

-- There is nothing to send, or no room for it.
abbrev pub idle : Udt → Udt
idle u = record u { target_time = 0; time_diff = 0 }

-- The least of the flow window and the congestion window.
abbrev pub least_window : Udt → ℤ
least_window u =
    if ltb_ℤ u.flow_window_size (pos u.congestion_window)
    then u.flow_window_size
    else pos u.congestion_window

abbrev pub has_room : Udt → Bool
has_room u = leb_ℤ (seqlen u.snd_last_ack (incseq u.snd_curr_seq_no)) (least_window u)

-- The next block of the send buffer, if there is one, becomes the next packet.
unfoldable pub send_block : World → Udt → Option (List ℕ × ℕ) → Udt × Option (Packet × ℕ)
send_block w u none = (idle u, none)
send_block w u (some (payload, msg_no)) =
    let seq = incseq u.snd_curr_seq_no in
    let moved = called (record u { snd_curr_seq_no = seq }) (set_snd_curr_seq_no seq) in
    let (t, p, ts) = packed w moved seq msg_no payload (seq % 2 ^ 4 == 0) in
    if length payload == 0 then (idle u, none) else (t, some (p, ts))

-- A new packet goes out, if the windows have room.
unfoldable pub send_new : World → Udt → Udt × Option (Packet × ℕ)
send_new w u =
    if has_room u
    then (let (b, front) = read_data u.snd_buffer in
        send_block w (record u { snd_buffer = b }) front)
    else (idle u, none)

unfoldable pub pack_data : World → Udt → Option (Udt × Option (Packet × ℕ))
pack_data w u0 =
    let u = late w u0 in
    elim (get_lost_seq u.snd_loss_list) [
      | none ↦ none
      | some (l, lost) ↦
          let s = record u { snd_loss_list = l } in
          elim lost [ none ↦ some (send_new w s) | some seq ↦ resend w s seq ]
    ]
