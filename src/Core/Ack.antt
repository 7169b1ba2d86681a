-- ===== src/Core/Ack.antt =====
-- CUDT::processCtrl (src/core.cpp), the cases of an ACK and of the ACK of an ACK.
use udt_server.Base.{
  ℕ, ◌+◌, true, false, ◌||◌, Option, none, some, List, ◌∷◌, ltb, ◌==◌, if◌then◌else◌, get_elem?,
}
use udt_server.Base.Int.{ℤ, pos, pos_part, neg, ltb_ℤ, leb_ℤ, ◌+ℤ◌}
use udt_server.SeqNo.{seqcmp, seqoff, incseq, decseq}
use udt_server.Packet.{Packet, get_ack_seq_no}
use udt_server.SndBuffer.{ack_data}
use udt_server.SndLossList.Remove.{remove}
use udt_server.AckWindow.{acknowledge}
use udt_server.Core.{
  World, Udt, called, words, cc_update, syn_interval, on_ack, set_rtt, set_rcv_rate, set_bandwidth,
  signal_send, epoll, reschedule,
}
use udt_server.Core.Times.{since, to_int, abs, scale, shift_right, smooth}
use udt_server.Core.SendCtrl.{send_ctrl}

-- The connection is given up; the counter is for the garbage collection.
abbrev pub break_off : Udt → Udt
break_off u = record u { broken = true; broken_counter = 0 }

abbrev pub rtt_measured : Udt → ℤ → Udt
rtt_measured u rtt =
    let new = smooth u.rtt rtt in
    called
      (record u {
        rtt_var = shift_right 2 (scale 3 u.rtt_var +ℤ pos (abs (rtt +ℤ neg u.rtt)));
        rtt = new;
      })
      (set_rtt new)

-- A light ACK.
unfoldable pub take_light_ack : Udt → ℕ → Udt
take_light_ack u ack =
    if leb_ℤ (pos 0) (seqcmp ack u.snd_last_ack)
    then record u {
      flow_window_size = u.flow_window_size +ℤ neg (seqoff u.snd_last_ack ack);
      snd_last_ack = ack;
    }
    else u

-- The answer to an ACK, not more often than needed.
unfoldable pub answer_ack : World → Udt → ℕ → Option Udt
answer_ack w u seq =
    if ltb syn_interval (since (w.tsc 0) u.snd_last_ack2_time) || (seq == u.snd_last_ack2)
    then elim (send_ctrl w u 6 (some seq) none 0) [
      | none ↦ none
      | some s ↦ some (record s { snd_last_ack2 = seq; snd_last_ack2_time = w.time 0 })
    ]
    else some u

-- What the sender drops up to `ack`: data, and lost numbers. This is done with m_AckLock.
unfoldable pub drop_acked : World → Udt → ℕ → Option Udt
drop_acked w u ack = elim (remove u.snd_loss_list (decseq ack)) [
  | none ↦ none
  | some l ↦ some (record u {
    snd_buffer = ack_data u.snd_buffer (pos_part (seqoff u.snd_last_data_ack ack));
    snd_duration_total = u.snd_duration_total + since (w.tsc 0) u.snd_duration_counter;
    snd_duration_counter = w.tsc 0;
    snd_last_data_ack = ack;
    snd_loss_list = l;
  })
]

-- The rates that a longer ACK carries.
unfoldable pub rates_taken : Udt → ℤ → ℤ → Udt
rates_taken u rate band =
    let rate' = if ltb_ℤ (pos 0) rate then smooth u.delivery_rate rate else u.delivery_rate in
    let band' = if ltb_ℤ (pos 0) band then smooth u.bandwidth band else u.bandwidth in
    called (called (record u { delivery_rate = rate'; bandwidth = band' }) (set_rcv_rate rate'))
      (set_bandwidth band')

-- The other side of that: waiting senders, the round trip time and the congestion control.
unfoldable pub react_to_ack : World → Udt → ℕ → ℕ → Option ℕ → Option ℕ → ℕ → Option Udt
react_to_ack w u ack rtt rate band len =
    let told = if u.syn_sending then signal_send ∷ u.events else u.events in
    let measured =
      rtt_measured (record u { events = reschedule false ∷ epoll 4 ∷ told }) (to_int rtt) in
    let rated : Option Udt =
      if ltb 16 len
      then elim rate [
        | none ↦ none
        | some r ↦ elim band [
          | none ↦ none
          | some b ↦ some (rates_taken measured (to_int r) (to_int b))
        ]
      ]
      else some measured in
    elim rated [
      | none ↦ none
      | some s ↦
          let done = cc_update w (called s (on_ack ack)) in
          some (record done { recv_ack_total = u.recv_ack_total + 1 })
    ]

-- The flow window goes with the last ACK.
unfoldable pub window_taken : Udt → ℕ → List ℕ → Option Udt
window_taken u ack ws =
    if leb_ℤ (pos 0) (seqcmp ack u.snd_last_ack)
    then elim (get_elem? ws 3) [
      | none ↦ none
      | some window ↦ some (record u { flow_window_size = to_int window; snd_last_ack = ack })
    ]
    else some u

-- An ACK of data, with the words `ws` and the length `len`.
unfoldable pub take_data_ack : World → Udt → ℕ → List ℕ → ℕ → Option Udt
take_data_ack w u ack ws len =
    if ltb_ℤ (pos 0) (seqcmp ack (incseq u.snd_curr_seq_no))
    then some (break_off u)
    else elim (window_taken u ack ws) [
      | none ↦ none
      | some s ↦
          if leb_ℤ (seqoff u.snd_last_data_ack ack) (pos 0)
          then some s
          else elim (drop_acked w s ack) [
            | none ↦ none
            | some dropped ↦ elim (get_elem? ws 1) [
              | none ↦ none
              | some rtt ↦ react_to_ack w dropped ack rtt (get_elem? ws 4) (get_elem? ws 5) len
            ]
          ]
    ]

-- Case 2, an ACK.
unfoldable pub take_ack : World → Udt → Packet → Option Udt
take_ack w u p = elim (get_elem? (words p.content) 0) [
  | none ↦ none
  | some ack ↦
      if p.len == 4 then some (take_light_ack u ack) else elim (answer_ack w u (get_ack_seq_no p)) [
        | none ↦ none
        | some s ↦ take_data_ack w s ack (words p.content) p.len
      ]
]

-- Case 6, an ACK of an ACK. `ack` of the answer is only read where there was one.
unfoldable pub take_ack2 : World → Udt → Packet → Udt
take_ack2 w u p =
    let a = acknowledge u.ack_window (get_ack_seq_no p) 0 (w.time 0) in
    let s = record u { ack_window = a.window } in
    if ltb_ℤ (pos 0) (to_int a.rtt)
    then (let m = rtt_measured s (to_int a.rtt) in
        if ltb_ℤ (pos 0) (seqcmp a.ack u.rcv_last_ack_ack)
        then record m { rcv_last_ack_ack = a.ack }
        else m)
    else s
