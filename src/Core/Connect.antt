-- ===== src/Core/Connect.antt =====
-- CUDT::open and the three CUDT::connect of src/core.cpp: how two sockets come to be connected.
-- The address of the peer, the random initial sequence number, the content of new memory, what the
-- path cache knows of the peer and the answers of the clock are arguments. A sequence number one
-- below 0 is kept as the bit pattern of -1. The result is `none` where a null packet is sent.
pub mod Answer
pub mod Call
use udt_server.Base.{
  ℕ, ◌+◌, ◌-◌, ◌*◌, ◌%◌, ◌^◌, Bool, true, false, ◌&&◌, ◌||◌, not, Option, none, some, List, [], ◌∷◌,
  ltb, ◌==◌, if◌then◌else◌, replicate,
}
use udt_server.Base.Int.{ℤ, pos, negsuc, ltb_ℤ, leb_ℤ}
use udt_server.Base.Outcome.{Outcome, returned, thrown}
use udt_server.LossList.{Slots}
use udt_server.Address.{SockAddr, ntop}
use udt_server.Packet
use udt_server.Packet.{Packet, block, get_flag, get_type, pack}
use udt_server.HandShake.{HandShake, content_size, serialize, deserialize}
use udt_server.SndBuffer
use udt_server.SndLossList
use udt_server.RcvBuffer.{RcvBuffer}
use udt_server.RcvLossList
use udt_server.AckWindow
use udt_server.PktTimeWindow
use udt_server.Core.{
  World, Udt, happened, send, sent, syn_interval, epoll, new_entry, completed, registered,
  unregistered, words, set_mss, set_max_cwnd_size, set_snd_curr_seq_no, set_rcv_rate, set_rtt,
  set_bandwidth, init,
}
use udt_server.Core.Times.{since, to_int, times_64, plus_64}

-- A socket with what it needs until it is connected. Before that, the buffers, windows and loss lists
-- of `udt` stand for null pointers and are not read.
pub record Setup : Type 0 where
  pub udt : Udt
  pub opened : Bool
  pub listening : Bool
  pub connecting : Bool
  pub connected : Bool
  pub version : ℕ
  pub sock_type : ℕ
  pub rcv_buf_size : ℕ
  pub conn_req : HandShake
  pub conn_res : HandShake
  pub last_req_time : ℕ
  pub self_ip : List ℕ
  pub peer_addr : Option SockAddr

-- New memory: the links of the loss lists, the arrays of the window of ACKs, a buffer for a
-- handshake, and the units that the receive buffer shares.
pub record Fresh : Type 0 where
  pub snd_next : Slots
  pub rcv_next : Slots
  pub rcv_prior : Slots
  pub ack_seq_no : List ℕ
  pub ack : List ℕ
  pub time_stamp : List ℕ
  pub shake : List ℕ
  pub flag : ℕ → ℕ
  pub payload : ℕ → List ℕ
  pub msg_no : ℕ → ℕ
  pub used : ℕ

-- m_iPktSize - CPacket::m_iPktHdrSize, with m_iPktSize = m_iMSS - 28.
abbrev pub payload_of : ℕ → ℕ
payload_of mss = mss - 28 - 16

abbrev pub before : ℕ → ℕ
before isn = (isn + 2 ^ 32 - 1) % 2 ^ 32

abbrev pub less : ℕ → ℕ → ℕ
less a b = if ltb a b then a else b

-- The timers start at `now`, the answer of rdtsc.
unfoldable pub open_socket : World → Setup → Setup
open_socket w s =
    let u = s.udt in
    let f = u.cpu_frequency in
    record s {
      opened = true;
      udt = record u {
        payload_size = payload_of u.mss;
        exp_count = 1;
        bandwidth = pos 1;
        delivery_rate = pos 16;
        ack_seq_no = 0;
        last_ack_time = 0;
        start_time = w.time 0;
        sent_total = 0;
        recv_total = 0;
        snd_loss_total = pos 0;
        rcv_loss_total = pos 0;
        retrans_total = 0;
        sent_ack_total = 0;
        recv_ack_total = 0;
        sent_nak_total = 0;
        recv_nak_total = 0;
        snd_duration_total = 0;
        rtt = pos (10 * syn_interval);
        rtt_var = pos (5 * syn_interval);
        syn_int = times_64 syn_interval f;
        min_nak_int = times_64 300000 f;
        min_exp_int = times_64 300000 f;
        ack_int = times_64 syn_interval f;
        nak_int = times_64 300000 f;
        last_rsp_time = w.tsc 0;
        next_ack_time = plus_64 (w.tsc 0) (times_64 syn_interval f);
        pkt_count = 0;
        light_ack_count = 1;
        target_time = 0;
        time_diff = 0;
      };
    }

-- The sequence numbers of the sender, from an initial one.
abbrev pub start_sending : ℕ → ℕ → Udt → Udt
start_sending isn now u = record u {
  isn = isn;
  last_dec_seq = before isn;
  snd_last_ack = isn;
  snd_last_data_ack = isn;
  snd_curr_seq_no = before isn;
  snd_last_ack2 = isn;
  snd_last_ack2_time = now;
}

-- The sequence numbers of the receiver, from the peer's initial one.
abbrev pub start_receiving : ℕ → Udt → Udt
start_receiving isn u = record u {
  rcv_last_ack = isn;
  rcv_last_ack_ack = isn;
  rcv_curr_seq_no = before isn;
}

abbrev pub new_rcv_buffer : Fresh → ℕ → RcvBuffer
new_rcv_buffer f size = record {
  unit = replicate size none;
  size = size;
  start_pos = 0;
  last_ack_pos = 0;
  max_pos = 0;
  notch = 0;
  flag = f.flag;
  payload = f.payload;
  msg_no = f.msg_no;
  used = f.used;
}

-- The data structures of a connection, for the sizes that the socket has by now.
unfoldable pub new_structures : Fresh → ℕ → ℕ → ℕ → Udt → Udt
new_structures f rcv_buf_size flow now u = record u {
  snd_buffer = SndBuffer.create 32 u.payload_size;
  rcv_buffer = new_rcv_buffer f rcv_buf_size;
  snd_loss_list = SndLossList.create (flow * 2 % 2 ^ 32) f.snd_next;
  rcv_loss_list = RcvLossList.create u.flight_flag_size f.rcv_next f.rcv_prior;
  ack_window = AckWindow.create 1024 f.ack_seq_no f.ack f.time_stamp;
  rcv_time_window = PktTimeWindow.create 16 64 now;
}

-- What the cache knows of the path, its round trip time and bandwidth.
abbrev pub recall : Option (ℤ × ℤ) → Udt → Udt
recall cached u = record u {
  rtt = elim cached [ none ↦ u.rtt | some (rtt, bandwidth) ↦ rtt ];
  bandwidth = elim cached [ none ↦ u.bandwidth | some (rtt, bandwidth) ↦ bandwidth ];
}

-- A new congestion control, with what it is told.
unfoldable pub start_cc : World → Udt → Udt
start_cc w u =
    let calls =
      init
      ∷ set_bandwidth u.bandwidth
      ∷ set_rtt u.rtt
      ∷ set_rcv_rate u.delivery_rate
      ∷ set_snd_curr_seq_no u.snd_curr_seq_no
      ∷ set_max_cwnd_size u.flow_window_size
      ∷ set_mss u.mss
      ∷ [] in
    record u {
      calls = calls;
      interval = (w.pace calls).interval;
      congestion_window = (w.pace calls).window;
    }

-- The handshake in a control packet.
abbrev pub shake_packet : HandShake → List ℕ → ℕ → Option Packet
shake_packet h buf size =
    let out = serialize h buf size in pack Packet.create 0 none (some out.buf) out.size

-- An array of a negative size makes `new` throw, and that ends in a CUDTException (3, 2). The sizes are
-- those of a packet's data, of the receiver's loss list, and the int product of the sender's.
abbrev pub is_sized : ℕ → ℕ → Bool
is_sized mss flow =
    leb_ℤ (pos 44) (to_int mss)
    && leb_ℤ (pos 0) (to_int flow)
    && leb_ℤ (pos 0) (to_int (flow * 2 % 2 ^ 32))

-- What stands at the end of both ways to connect: the structures, the cache, the congestion control
-- and the place on the receiving queue.
abbrev pub connected_udt : World → Fresh → ℕ → ℕ → Option (ℤ × ℤ) → Udt → Udt
connected_udt w f rcv_buf_size flow cached u =
    happened (start_cc w (recall cached (new_structures f rcv_buf_size flow (w.time 1) u)))
      new_entry
