-- ===== src/Core/Receive.antt =====
-- CUDT::processData (src/core.cpp): a data packet has arrived.
-- The packet is in the unit `v`, whose data the receive buffer knows; `seq` is its number.
use udt_server.Base.{
  ℕ, ◌+◌, ◌%◌, ◌^◌, Bool, true, false, ◌||◌, Option, none, some, [], ◌∷◌, length, leb, ◌==◌,
  if◌then◌else◌,
}
use udt_server.Base.Int.{pos, negsuc, pos_part, ltb_ℤ, ◌+ℤ◌}
use udt_server.SeqNo.{seqcmp, seqlen, seqoff, incseq, decseq}
use udt_server.RcvBuffer.{add_data, get_avail_buf_size}
use udt_server.RcvLossList.{insert, remove}
use udt_server.PktTimeWindow.{PktTimeWindow, on_pkt_arrival, probe1_arrival, probe2_arrival}
use udt_server.Core.{World, Udt, called, on_pkt_received}
use udt_server.Core.SendCtrl.{send_nak}
use Prim.Native.Nat.{bit_or}

-- Something was heard from the peer.
abbrev pub heard : World → Udt → Udt
heard w u = record u { exp_count = 1; last_rsp_time = w.tsc 0 }

-- The times of the packets, and of the two of a probing pair.
abbrev pub timed : World → PktTimeWindow → ℕ → PktTimeWindow
timed w t seq =
    let t' = on_pkt_arrival t (w.time 0) in
    if seq % 2 ^ 4 == 0
    then probe1_arrival t' (w.time 1)
    else if seq % 2 ^ 4 == 1
    then probe2_arrival t' (w.time 1)
    else t'

-- What is done for every packet.
unfoldable pub arrived : World → Udt → ℕ → Udt
arrived w u seq = record (called (heard w u) (on_pkt_received seq)) {
  pkt_count = u.pkt_count + 1;
  rcv_time_window = timed w u.rcv_time_window seq;
  recv_total = u.recv_total + 1;
}

abbrev pub loss_counted : Udt → ℕ → Option Udt → Option Udt
loss_counted u seq none = none
loss_counted u seq (some s) =
    some
      (record s { rcv_loss_total = u.rcv_loss_total +ℤ (seqlen u.rcv_curr_seq_no seq +ℤ negsuc 1) })

-- Loss detection: a packet that does not follow the largest number so far.
unfoldable pub detect_loss : World → Udt → ℕ → Option Udt
detect_loss w u seq =
    let a = incseq u.rcv_curr_seq_no in
    let b = decseq seq in
    if ltb_ℤ (pos 0) (seqcmp seq a)
    then elim (insert u.rcv_loss_list a b) [
      | none ↦ none
      | some l ↦ loss_counted u seq (
          send_nak w (record u { rcv_loss_list = l }) (some (bit_or a 0x8000_0000 ∷ b ∷ []))
            (if a == b then 1 else 2))
    ]
    else some u

-- A packet of another size than the regular one asks for an ACK now.
abbrev pub ack_asked : World → Udt → ℕ → Udt
ack_asked w u len = record u {
  next_ack_time = if len == u.payload_size then u.next_ack_time else w.tsc 1;
}

-- The largest number moves on, or the packet is no longer lost.
unfoldable pub note_seq : Udt → ℕ → Option Udt
note_seq u seq =
    if ltb_ℤ (pos 0) (seqcmp seq u.rcv_curr_seq_no)
    then some (record u { rcv_curr_seq_no = seq })
    else elim (remove u.rcv_loss_list seq) [
      | none ↦ none
      | some (l, found) ↦ some (record u { rcv_loss_list = l })
    ]

abbrev pub accepted : Option Udt → Option (Udt × Bool)
accepted none = none
accepted (some u) = some (u, true)

-- What is done for a packet that the buffer has taken.
unfoldable pub take_in : World → Udt → ℕ → ℕ → Option Udt
take_in w u len seq = elim (detect_loss w u seq) [
  | none ↦ none
  | some s ↦ note_seq (ack_asked w s len) seq
]

-- The result is `true` for 0 and `false` for -1.
unfoldable pub process_data : World → Udt → ℕ → ℕ → Option (Udt × Bool)
process_data w u v seq =
    let s = arrived w u seq in
    let offset = seqoff u.rcv_last_ack seq in
    if ltb_ℤ offset (pos 0) || leb (get_avail_buf_size u.rcv_buffer) (pos_part offset)
    then some (s, false)
    else let (b, added) = add_data u.rcv_buffer v (pos_part offset) in
      if added
      then accepted (take_in w (record s { rcv_buffer = b }) (length (b.payload v)) seq)
      else some (record s { rcv_buffer = b }, false)
