-- ===== src/Core/Tests/Calling.antt =====
-- Runs of the calls of an application (src/core.cpp), and the theorems about them applied.
use udt_server.Base.{ℕ, ◌+◌, ◌<◌, ◌≡◌, refl, true, false, Option, none, some, [], ◌∷◌, arith}
use udt_server.Base.Int.{ℤ, pos, negsuc}
use udt_server.Base.Outcome.{Outcome, returned, thrown}
use udt_server.SndBuffer.{get_curr_buf_size, make_room, block_count, increase}
use udt_server.RcvBuffer.{RcvBuffer, set_flag, get_rcv_data_size}
use udt_server.RcvBuffer.Stream
use udt_server.RcvBuffer.Message.{
  read_msg, get_rcv_msg_num, scan_msg, skip_bad, look_ahead, search_msg, head_at, msg_loop,
}
use udt_server.Core.{Udt}
use udt_server.Core.Calls.{Endpoint, wait_while, udt_of, udt_stream, udt_dgram}
use udt_server.Core.Calls.Send.{sendmsg}
use udt_server.Core.Calls.Receive.{recv, recvmsg, with_rcv_buffer}
use udt_server.Core.Calls.Limit.{Sound, Keeps}
use udt_server.Core.Calls.Whole.{sendmsg-Sound}
use udt_server.Core.Calls.Input.{incoming, recv_lem}
use udt_server.Core.Calls.File.{Source, Round, Sent, sendfile, sendfile_loop, file_end}
use udt_server.Core.Calls.Short.{Fails, sendfile_short}
use udt_server.SndBuffer.File.{add_file, fill_file}
use udt_server.Core.Calls.Loss.{recvmsg_loses}
use udt_server.Core.Tests.{world, socket, rcv}
use udt_server.Core.Tests.Connecting.{setup}

-- A connected socket that sends packets of 2 bytes, with 3 blocks of 4 in use.
abbrev endpoint : ℕ → Udt → Endpoint
endpoint kind u = record {
  setup = record (setup (record u { payload_size = 2 })) { connected = true; sock_type = kind };
  snd_buf_size = 4;
  snd_time_out = negsuc 0;
  rcv_time_out = negsuc 0;
}

abbrev streaming : Endpoint
streaming = endpoint udt_stream socket

-- The same with a full buffer.
abbrev full : Endpoint
full = record streaming { snd_buf_size = 3 }

endpoint-Sound :
    (kind n : ℕ) → 3 < n + 1 → Sound (record (endpoint kind socket) { snd_buf_size = n })
unfolding get_curr_buf_size
endpoint-Sound kind n h = record {
  valid = record {
    ringed = refl;
    counted = refl;
    room = omega arith;
    read_up = omega arith;
    unit = omega arith;
    packet = omega arith;
  };
  unit = refl;
  within = omega arith;
}

sendmsg-Sound_example : Keeps (
    sendmsg world true
      (endpoint udt_dgram socket)
      (1 ∷ 2 ∷ 3 ∷ [])
      (some 5)
      true
      ((record (endpoint udt_dgram socket) { snd_buf_size = 5 }, 5) ∷ []))
sendmsg-Sound_example =
    sendmsg-Sound world true (1 ∷ 2 ∷ 3 ∷ []) (some 5) true (endpoint udt_dgram socket)
      ((record (endpoint udt_dgram socket) { snd_buf_size = 5 }, 5) ∷ [])
      (endpoint-Sound udt_dgram 4 (omega arith)) (endpoint-Sound udt_dgram 5 (omega arith), tt)

-- The connection is lost, and one of the two bytes of unit 1 is read.
abbrev ended : Endpoint
ended = endpoint udt_stream (record socket { broken = true })

rcv-IsValid : Stream.IsValid (udt_of ended).rcv_buffer
unfolding get_rcv_data_size
rcv-IsValid = record {
  sized = refl;
  start_in = omega arith;
  ack_in = omega arith;
  filled = ((1, refl), tt);
  notched = omega arith;
}

recv_lem_example :
    (e' : Endpoint) × (recv world ended 1 [] ≡ some (e', returned (1 ∷ [], 1)))
    × (incoming e' ≡ 11 ∷ [])
    × Stream.IsValid (udt_of e').rcv_buffer
unfolding get_rcv_data_size
recv_lem_example = recv_lem world ended 1 [] rcv-IsValid refl refl (omega arith) (omega arith)

-- A datagram socket, whose calls of recvmsg wait a millisecond at most.
abbrev waiting : Endpoint
waiting = record (endpoint udt_dgram socket) { rcv_time_out = pos 1 }

-- The packet in unit 1 is a message, and the connection is lost.
abbrev last_message : RcvBuffer
last_message = record rcv { msg_no = λ u. 0xc000_0001 }

abbrev lost_one : Endpoint
lost_one = endpoint udt_dgram (record socket { broken = true; rcv_buffer = last_message })

-- What readMsg leaves of it.
abbrev emptied : RcvBuffer
emptied = record last_message {
  unit = none ∷ none ∷ none ∷ none ∷ none ∷ none ∷ [];
  start_pos = 2;
  flag = set_flag (λ u. 1) 1 0;
  used = 0;
}

recvmsg_loses_example :
    (recvmsg waiting 9 ((lost_one, false) ∷ [])
      ≡ some (with_rcv_buffer lost_one emptied, thrown (pos 2) 1))
    × ((e : Endpoint) × (recvmsg lost_one 9 [] ≡ some (e, returned (1 ∷ 11 ∷ [], 2))))
unfolding read_msg get_rcv_msg_num scan_msg skip_bad look_ahead search_msg head_at msg_loop
    get_rcv_data_size
recvmsg_loses_example =
    recvmsg_loses waiting lost_one 9 1 false [] emptied emptied (1 ∷ 11 ∷ []) 1 0 refl refl refl
      refl refl (omega arith) refl refl refl refl refl

-- A file of three bytes.
abbrev short_file : Source
short_file = record { rest = 1 ∷ 2 ∷ 3 ∷ []; failed = false; at_end = false }

abbrev undisturbed : Round
undisturbed = record { world = world; others = λ e. e; wakes = [] }

abbrev outcome_of : Option Sent → Option (ℕ × Outcome ℤ)
outcome_of none = none
outcome_of (some s) = some (s.moved, s.outcome)

-- All of it goes out, and the call throws.
short_file_sent :
    outcome_of (
      sendfile world true streaming short_file
        (some short_file)
        9
        4
        (undisturbed ∷ undisturbed ∷ []))
    ≡ some (3, thrown (pos 4) 4)
unfolding sendfile sendfile_loop add_file fill_file wait_while get_curr_buf_size make_room
    block_count increase
short_file_sent = refl

-- A call for as many bytes as there are gives their number.
whole_file_sent :
    outcome_of (
      sendfile world true streaming short_file
        (some short_file)
        3
        4
        (undisturbed ∷ undisturbed ∷ []))
    ≡ some (3, returned (pos 3))
unfolding sendfile sendfile_loop file_end add_file fill_file wait_while get_curr_buf_size make_room
    block_count increase
whole_file_sent = refl

sendfile_short_example : Fails 3 (
    sendfile world true streaming short_file (some short_file) 9 4 (undisturbed ∷ undisturbed ∷ []))
sendfile_short_example =
    sendfile_short world true streaming short_file short_file 9 4 (undisturbed ∷ undisturbed ∷ [])
      refl refl refl (omega arith) refl refl
