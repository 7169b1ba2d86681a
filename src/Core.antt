-- ===== src/Core.antt =====
-- src/core.h and src/core.cpp, the class CUDT: a connected socket, over its buffers, loss lists and
-- windows.
-- A sequence number is a number below 2 ^ 31, also where it comes in a control packet. A time is a
-- uint64_t, with its wrap written out. An int that may be negative is an integer; counters and the
-- smoothed times are kept without the bound of an int. Of m_dCongestionWindow, only (int) of it is
-- kept, which is all that is read, and of the counters the totals. The content of a control packet is the list of its words.
-- What a call finds outside the socket is a World. What it does there is put on `events`, and its
-- calls of the congestion control, which an application may replace, on `calls`, the latest first.
-- The result of a call is `none` where the source reads out of bounds, through a null pointer, or
-- goes on with the -1 of an empty loss list.
pub mod Times
pub mod SendCtrl
pub mod Receive
pub mod Control
pub mod Ack
pub mod Send
pub mod Timers
pub mod Listen
pub mod Cookie
pub mod Connect
pub mod Agree
pub mod Calls
pub mod Waiting
pub mod Rendezvous
pub mod Deliver
pub mod Gap
pub mod Window
pub mod Silence
pub mod Sender
pub mod Stall
pub mod Resend
mod Tests
use udt_server.Base.{ℕ, ◌+◌, ◌*◌, Bool, Option, none, some, List, [], ◌∷◌, ltb, if◌then◌else◌}
use udt_server.Base.Int.{ℤ}
use udt_server.Packet.{Packet, Field, block}
use udt_server.SndBuffer.{SndBuffer}
use udt_server.SndLossList.{SndLossList}
use udt_server.RcvBuffer.{RcvBuffer}
use udt_server.RcvLossList.{RcvLossList}
use udt_server.AckWindow.{AckWindow}
use udt_server.PktTimeWindow.{PktTimeWindow}

-- The calls of a CCC.
pub data Call : Type 0 where
  on_pkt_received on_pkt_sent on_ack : ℕ → Call
  on_loss : List ℕ → Call
  on_timeout : Call
  set_rtt set_rcv_rate set_bandwidth : ℤ → Call
  set_snd_curr_seq_no set_mss : ℕ → Call
  set_max_cwnd_size : ℤ → Call
  init : Call
  process_custom_msg : Packet → Call

-- What CUDT reads from a CCC: m_dPktSndPeriod times the clock's frequency, m_dCWndSize, m_iACKInterval,
-- m_iACKPeriod, and m_iRTO where the user has defined one.
pub record Pace : Type 0 where
  pub interval : ℕ
  pub window : ℕ
  pub ack_interval : ℕ
  pub ack_period : ℕ
  pub rto : Option ℕ

-- What a call does outside the socket. `reschedule` is CSndUList::update, `epoll` an event bit set
-- by CEPoll::update_events, `epoll_off` one cleared by it, `release` CUDT::releaseSynch and `trigger` CTimer::triggerEvent. `registered`
-- is registerConnector of the receiving queue with the end of its time, `unregistered` removeConnector,
-- `new_entry` setNewEntry, and `completed` CUDTUnited::connect_complete.
pub data Event : Type 0 where
  sent : Packet → Event
  signal_recv signal_send release trigger : Event
  epoll epoll_off : ℕ → Event
  reschedule : Bool → Event
  registered : ℕ → Event
  unregistered new_entry completed : Event

-- `tsc i` and `time i` are the answers of a call's reading `i` of CTimer::rdtsc and getTime. The
-- next two fields are computations with doubles, as in PktTimeWindow. The congestion control's
-- state is what its calls so far make it. `min_interval` is what m_llMaxBW asks for, if it is set.
pub record World : Type 0 where
  pub tsc : ℕ → ℕ
  pub time : ℕ → ℕ
  pub rate : ℤ → ℤ
  pub average_rate : ℤ → ℕ → ℤ
  pub pace : List Call → Pace
  pub min_interval : Option ℕ

pub record Udt : Type 0 where
  pub socket_id : ℕ
  pub peer_id : ℕ
  pub mss : ℕ
  pub flight_flag_size : ℕ
  pub rendezvous : Bool
  pub isn : ℕ
  pub payload_size : ℕ
  pub syn_recving : Bool
  pub syn_sending : Bool
  pub closing : Bool
  pub shutdown : Bool
  pub broken : Bool
  pub peer_health : Bool
  pub broken_counter : ℕ
  pub exp_count : ℕ
  pub bandwidth : ℤ
  pub rtt : ℤ
  pub rtt_var : ℤ
  pub delivery_rate : ℤ
  pub snd_buffer : SndBuffer
  pub snd_loss_list : SndLossList
  pub interval : ℕ
  pub time_diff : ℕ
  pub flow_window_size : ℤ
  pub congestion_window : ℕ
  pub snd_last_ack : ℕ
  pub snd_last_data_ack : ℕ
  pub snd_curr_seq_no : ℕ
  pub last_dec_seq : ℕ
  pub snd_last_ack2 : ℕ
  pub snd_last_ack2_time : ℕ
  pub rcv_buffer : RcvBuffer
  pub rcv_loss_list : RcvLossList
  pub ack_window : AckWindow
  pub rcv_time_window : PktTimeWindow
  pub rcv_last_ack : ℕ
  pub last_ack_time : ℕ
  pub rcv_last_ack_ack : ℕ
  pub ack_seq_no : ℕ
  pub rcv_curr_seq_no : ℕ
  pub last_warning_time : ℕ
  pub start_time : ℕ
  pub sent_total : ℕ
  pub recv_total : ℕ
  pub snd_loss_total : ℤ
  pub rcv_loss_total : ℤ
  pub retrans_total : ℕ
  pub sent_ack_total : ℕ
  pub recv_ack_total : ℕ
  pub sent_nak_total : ℕ
  pub recv_nak_total : ℕ
  pub snd_duration_total : ℕ
  pub snd_duration_counter : ℕ
  pub cpu_frequency : ℕ
  pub next_ack_time : ℕ
  pub syn_int : ℕ
  pub ack_int : ℕ
  pub nak_int : ℕ
  pub last_rsp_time : ℕ
  pub min_nak_int : ℕ
  pub min_exp_int : ℕ
  pub pkt_count : ℕ
  pub light_ack_count : ℕ
  pub target_time : ℕ
  pub events : List Event
  pub calls : List Call

-- m_iSYNInterval and m_iSelfClockInterval
abbrev pub syn_interval : ℕ
syn_interval = 10000

abbrev pub self_clock_interval : ℕ
self_clock_interval = 64

-- The words of a control packet.
abbrev pub words : Field → List ℕ
words (block ws) = ws
words _ = []

abbrev pub happened : Udt → Event → Udt
happened u e = record u { events = e ∷ u.events }

abbrev pub called : Udt → Call → Udt
called u c = record u { calls = c ∷ u.calls }

-- A control packet goes to the peer.
abbrev pub send : Udt → Option Packet → Option Udt
send u none = none
send u (some p) = some (happened u (sent (record p { id = u.peer_id })))

unfoldable pub cc_update : World → Udt → Udt
cc_update w u =
    let now = w.pace u.calls in
    record u {
      congestion_window = now.window;
      interval = elim w.min_interval [
        | none ↦ now.interval
        | some least ↦ if ltb now.interval least then least else now.interval
      ];
    }
