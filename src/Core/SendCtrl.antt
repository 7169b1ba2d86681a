-- ===== src/Core/SendCtrl.antt =====
-- CUDT::sendCtrl (src/core.cpp): the control packets that a socket sends.
use udt_server.Base.{
  ℕ, ◌+◌, ◌*◌, ◌/◌, Option, none, some, List, [], ◌∷◌, ◌++◌, length, ltb, ◌==◌, if◌then◌else◌,
  get_or,
}
use udt_server.Base.Int.{pos, pos_part, ltb_ℤ}
use udt_server.SeqNo.{seqcmp, seqoff, incseq, incack}
use udt_server.Packet.{create, pack}
use udt_server.RcvBuffer.{ack_data, get_avail_buf_size}
use udt_server.RcvLossList.Query.{get_first_lost_seq, get_loss_array}
use udt_server.AckWindow.{store}
use udt_server.PktTimeWindow.{get_pkt_rcv_speed, get_bandwidth}
use udt_server.Core.{World, Udt, send, signal_recv, epoll}
use udt_server.Core.Times.{since, plus_64, times_64, pattern, rtt_bound}

-- The number that an ACK carries.
unfoldable pub ack_number : Udt → Option ℕ
ack_number u =
    if u.rcv_loss_list.length == 0
    then some (incseq u.rcv_curr_seq_no)
    else get_first_lost_seq u.rcv_loss_list

-- There are new packets to acknowledge, up to `ack`. The events are for a waiting recv and epoll.
unfoldable pub acknowledge_up_to : Udt → ℕ → Udt
acknowledge_up_to u ack = record u {
  rcv_last_ack = ack;
  rcv_buffer = ack_data u.rcv_buffer (pos_part (seqoff u.rcv_last_ack ack));
  events = epoll 1 ∷ (if u.syn_recving then signal_recv ∷ u.events else u.events);
}

-- The four words of every full ACK.
abbrev pub ack_words : Udt → List ℕ
ack_words u =
    let avail = get_avail_buf_size u.rcv_buffer in
    u.rcv_last_ack
    ∷ pattern 32 u.rtt
    ∷ pattern 32 u.rtt_var
    ∷ (if ltb avail 2 then 2 else avail)
    ∷ []

abbrev pub rate_words : World → Udt → List ℕ
rate_words w u =
    pattern 32 (get_pkt_rcv_speed w.rate u.rcv_time_window)
    ∷ pattern 32 (get_bandwidth w.average_rate u.rcv_time_window)
    ∷ []

-- The history of ACKs and the counters, with the ACK's own number `seq`.
abbrev pub ack_sent : World → Udt → ℕ → Option Udt → Option Udt
ack_sent w u seq none = none
ack_sent w u seq (some s) = some (record s {
  ack_seq_no = seq;
  ack_window = store u.ack_window seq u.rcv_last_ack (w.time 0);
  sent_ack_total = u.sent_ack_total + 1;
})

-- The last part of the case: the ACK goes out unless the sender has it already.
unfoldable pub send_full_ack : World → Udt → Option Udt
send_full_ack w u =
    let seq = incack u.ack_seq_no in
    if ltb_ℤ (pos 0) (seqcmp u.rcv_last_ack u.rcv_last_ack_ack)
    then ack_sent w u seq (
        if ltb u.syn_int (since (w.tsc 0) u.last_ack_time)
        then send (record u { last_ack_time = w.tsc 1 })
            (pack create 2 (some seq) (some (ack_words u ++ rate_words w u)) 24)
        else send u (pack create 2 (some seq) (some (ack_words u)) 16))
    else some u

-- Case 2, an ACK; with the size 4 a light one.
unfoldable pub send_ack : World → Udt → ℕ → Option Udt
send_ack w u size = elim (ack_number u) [
  | none ↦ none
  | some ack ↦
      if ack == u.rcv_last_ack_ack
      then some u
      else if size == 4
      then send u (pack create 2 none (some (ack ∷ [])) 4)
      else if ltb_ℤ (pos 0) (seqcmp ack u.rcv_last_ack)
      then send_full_ack w (acknowledge_up_to u ack)
      else if ack == u.rcv_last_ack
      then (if ltb (since (w.tsc 0) u.last_ack_time)
            (times_64 (pattern 64 (rtt_bound u.rtt u.rtt_var)) u.cpu_frequency)
          then some u
          else send_full_ack w u)
      else some u
]

abbrev pub nak_sent : Option Udt → Option Udt
nak_sent none = none
nak_sent (some s) = some (record s { sent_nak_total = s.sent_nak_total + 1 })

-- The time to the next NAK.
unfoldable pub nak_wait : World → Udt → ℕ
nak_wait w u =
    let base = times_64 (pattern 64 (rtt_bound u.rtt u.rtt_var)) u.cpu_frequency in
    let speed = get_pkt_rcv_speed w.rate u.rcv_time_window in
    let wait =
      if ltb_ℤ (pos 0) speed
      then plus_64 base
          (times_64 (times_64 u.rcv_loss_list.length 1000000 / pos_part speed) u.cpu_frequency)
      else base in
    if ltb wait u.min_nak_int then u.min_nak_int else wait

abbrev pub wait_set : World → Option Udt → Option Udt
wait_set w none = none
wait_set w (some s) = some (record s { nak_int = nak_wait w s })

-- Case 3, a loss report: of the words given, two for a run, or else of the loss list. Of a run of
-- one number, only the second word is sent.
unfoldable pub send_nak : World → Udt → Option (List ℕ) → ℕ → Option Udt
send_nak w u (some ws) size = wait_set w (
    nak_sent (
      send u (
        if size == 1
        then pack create 3 none (some (get_or ws 1 0 ∷ [])) 4
        else pack create 3 none (some ws) 8)))
send_nak w u none size = wait_set w (
    if ltb 0 u.rcv_loss_list.length
    then elim (get_loss_array u.rcv_loss_list (u.payload_size / 4)) [
      | none ↦ none
      | some ws ↦
          if ltb 0 (length ws)
          then nak_sent (send u (pack create 3 none (some ws) (length ws * 4)))
          else some u
    ]
    else some u)

abbrev pub warned : ℕ → Option Udt → Option Udt
warned now none = none
warned now (some s) = some (record s { last_warning_time = now })

-- The whole method; the second argument of pack is `lparam`.
unfoldable pub send_ctrl : World → Udt → ℕ → Option ℕ → Option (List ℕ) → ℕ → Option Udt
send_ctrl w u pkttype lparam rparam size =
    if pkttype == 2
    then send_ack w u size
    else if pkttype == 6
    then send u (pack create 6 lparam none 0)
    else if pkttype == 3
    then send_nak w u rparam size
    else if pkttype == 4
    then warned (w.tsc 0) (send u (pack create 4 none none 0))
    else if pkttype == 1
    then send u (pack create 1 none none 0)
    else if pkttype == 0
    then send u (pack create 0 none rparam 48)
    else if pkttype == 5
    then send u (pack create 5 none none 0)
    else if pkttype == 7
    then send u (pack create 7 lparam rparam 8)
    else if pkttype == 8
    then send u (pack create 8 lparam none 0)
    else some u
