-- ===== src/Core/Tests.antt =====
-- A small socket, CUDT (src/core.cpp), for the runs in the child modules.
mod Receiving
mod Sending
mod Listening
mod Connecting
mod Calling
use udt_server.Base.{
  ℕ, ◌+◌, ◌*◌, ◌%◌, ◌^◌, ◌<◌, ◌≤◌, ◌≡◌, ◌≢◌, ◌⊎◌, refl, Bool, true, false, Option, none, some, List,
  [], ◌∷◌, ◌++◌, inl, inr, arith, length, drop, if◌then◌else◌, get_elem?,
}
use udt_server.Base.Int.{pos, pos_part, negsuc, ◌+ℤ◌, ltb_ℤ}
use udt_server.SeqNo.{seqcmp, seqoff, seqlen, incseq, decseq, incseq_by}
use udt_server.Packet.{Packet, block, get_type}
use udt_server.SndBuffer.{Block, SndBuffer, blank, read_data}
use udt_server.SndLossList.{SndLossList}
use udt_server.SndLossList.Remove.{remove, get_lost_seq}
use udt_server.RcvBuffer.{RcvBuffer, get_avail_buf_size, get_rcv_data_size}
use udt_server.RcvBuffer.Stream.{stream, slots}
use udt_server.RcvLossList.{RcvLossList}
use udt_server.AckWindow.{AckWindow}
use udt_server.PktTimeWindow.{PktTimeWindow}
use udt_server.Core.{World, Pace, Udt, Event, sent, words, reschedule, cc_update}
use udt_server.Core.Times.{since, times_64, to_int}
use udt_server.Core.SendCtrl.{send_ctrl, ack_number}
use udt_server.Core.Receive.{process_data}
use udt_server.Core.Control.{process_ctrl}
use udt_server.Core.Send.{pack_data, drop_message, send_new, send_block, packed, late}
use udt_server.Core.Timers.{check_timers, check_ack, check_exp, next_exp_time, give_up}
use udt_server.Core.Deliver.{IsAck, send_ctrl_delivers, deliver_in_order}
use udt_server.Core.Gap.{IsUntouched, IsReport, process_data_refuses, gap_reported}
use udt_server.Core.Window.{IsDue, pack_data-IsDue, drop_message_drops_more}
use udt_server.Core.Resend.{report_queued}
use udt_server.Core.Silence.{check_timers_patience}
use udt_server.RcvLossList.Contents.{IsList, IsEmpty}

abbrev holes : List (Option ℕ)
holes = none ∷ none ∷ none ∷ none ∷ []

abbrev world : World
world = record {
  tsc = λ i. 20000000;
  time = λ i. 1000;
  rate = λ x. x;
  average_rate = λ x n. x;
  pace =
      λ calls. record { interval = 10; window = 16; ack_interval = 0; ack_period = 0; rto = none };
  min_interval = none;
}

abbrev byte_block : ℕ → ℕ → Block
byte_block x n = record { payload = x ∷ []; msg_no = n; origin_time = 0; ttl = none }

-- Packets 10 and 11 are out, and a third block is waiting.
abbrev snd : SndBuffer
snd = record {
  ring =
      byte_block 10 0xc000_0001
      ∷ byte_block 11 0xc000_0002
      ∷ byte_block 12 0xc000_0003
      ∷ blank
      ∷ blank
      ∷ [];
  curr = 2;
  last = 3;
  next_msg_no = 4;
  size = 5;
  unit_size = 5;
  mss = 2;
  count = 3;
}

abbrev snd_losses : SndLossList
snd_losses = record {
  data1 = holes;
  data2 = holes;
  next = holes;
  head = none;
  length = 0;
  size = 4;
  last_insert_pos = none;
}

-- Unit 1 is acknowledged.
abbrev rcv : RcvBuffer
rcv = record {
  unit = none ∷ some 1 ∷ none ∷ none ∷ none ∷ none ∷ [];
  size = 6;
  start_pos = 1;
  last_ack_pos = 2;
  max_pos = 0;
  notch = 0;
  flag = λ u. 1;
  payload = λ u. u ∷ (u + 10) ∷ [];
  msg_no = λ u. u;
  used = 1;
}

abbrev rcv_losses : RcvLossList
rcv_losses = record {
  data1 = holes;
  data2 = holes;
  next = holes;
  prior = holes;
  head = none;
  tail = none;
  length = 0;
  size = 4;
}

abbrev history : AckWindow
history = record {
  ack_seq_no = 0 ∷ 0 ∷ [];
  ack = 0 ∷ 0 ∷ [];
  time_stamp = 0 ∷ 0 ∷ [];
  size = 2;
  head = 0;
  tail = 0;
}

abbrev times : PktTimeWindow
times = record {
  aw_size = 2;
  pkt_window = pos 1000000 ∷ pos 1000000 ∷ [];
  pkt_window_ptr = 0;
  pw_size = 2;
  probe_window = pos 1000 ∷ pos 1000 ∷ [];
  probe_window_ptr = 0;
  last_sent_time = pos 0;
  min_pkt_snd_int = pos 1000000;
  last_arr_time = 0;
  curr_arr_time = 0;
  probe_time = 0;
}

-- All packets before 5 are acknowledged, and of the packets sent, all before 10.
abbrev socket : Udt
socket = record {
  socket_id = 1;
  peer_id = 2;
  mss = 1500;
  flight_flag_size = 25600;
  rendezvous = false;
  isn = 3;
  payload_size = 1456;
  syn_recving = true;
  syn_sending = true;
  closing = false;
  shutdown = false;
  broken = false;
  peer_health = true;
  broken_counter = 0;
  exp_count = 17;
  bandwidth = pos 1;
  rtt = pos 100000;
  rtt_var = pos 50000;
  delivery_rate = pos 16;
  snd_buffer = snd;
  snd_loss_list = snd_losses;
  interval = 10;
  time_diff = 0;
  flow_window_size = pos 25;
  congestion_window = 16;
  snd_last_ack = 10;
  snd_last_data_ack = 10;
  snd_curr_seq_no = 11;
  last_dec_seq = 9;
  snd_last_ack2 = 9;
  snd_last_ack2_time = 0;
  rcv_buffer = rcv;
  rcv_loss_list = rcv_losses;
  ack_window = history;
  rcv_time_window = times;
  rcv_last_ack = 5;
  last_ack_time = 0;
  rcv_last_ack_ack = 5;
  ack_seq_no = 0;
  rcv_curr_seq_no = 4;
  last_warning_time = 0;
  start_time = 0;
  sent_total = 0;
  recv_total = 0;
  snd_loss_total = pos 0;
  rcv_loss_total = pos 0;
  retrans_total = 0;
  sent_ack_total = 0;
  recv_ack_total = 0;
  sent_nak_total = 0;
  recv_nak_total = 0;
  snd_duration_total = 0;
  snd_duration_counter = 0;
  cpu_frequency = 1;
  next_ack_time = 30000000;
  syn_int = 10000;
  ack_int = 10000;
  nak_int = 300000;
  last_rsp_time = 0;
  min_nak_int = 300000;
  min_exp_int = 300000;
  pkt_count = 0;
  light_ack_count = 1;
  target_time = 0;
  events = [];
  calls = [];
}
