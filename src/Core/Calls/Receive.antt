-- ===== src/Core/Calls/Receive.antt =====
-- CUDT::recv and CUDT::recvmsg of src/core.cpp. What is received comes with its length.
use udt_server.Base.{
  ℕ, zero, suc, Bool, ◌&&◌, not, Option, none, some, List, [], ◌∷◌, map, ◌==◌, if◌then◌else◌,
}
use udt_server.Base.Int.{pos, negsuc}
use udt_server.Base.Outcome.{returned}
use udt_server.RcvBuffer.{RcvBuffer, read_buffer, get_rcv_data_size}
use udt_server.RcvBuffer.Message.{read_msg, get_rcv_msg_num}
use udt_server.Core.{World, happened, epoll_off}
use udt_server.Core.Calls.{
  Endpoint, Reply, udt_stream, udt_dgram, udt_of, with_udt, is_lost, is_connected, Wake, expiry,
  wait_data, throws,
}

abbrev pub Received : Type 0
Received = List ℕ × ℕ

abbrev pub with_rcv_buffer : Endpoint → RcvBuffer → Endpoint
with_rcv_buffer e b = with_udt e (record (udt_of e) { rcv_buffer = b })

-- Nothing to read.
abbrev pub is_drained : Endpoint → Bool
is_drained e = get_rcv_data_size (udt_of e).rcv_buffer == 0

-- The test of a socket that can be read, with the minor number of its exception.
abbrev pub unreadable : Endpoint → Option ℕ
unreadable e =
    if not (is_connected e) then some 2 else if is_lost e && is_drained e then some 1 else none

abbrev pub no_input : Endpoint → Endpoint
no_input e = with_udt e (happened (udt_of e) (epoll_off 1))

-- The result, or the exception for a wait that was too long.
abbrev pub timed : Endpoint → Received → Reply Received
timed e (bytes, zero) = elim e.rcv_time_out [
  | pos ms ↦ throws e 6 3
  | negsuc n ↦ some (e, returned (bytes, 0))
]
timed e (bytes, suc n) = some (e, returned (bytes, suc n))

-- recv after its wait.
unfoldable pub recv_awake : Endpoint → ℕ → Reply Received
recv_awake e len = elim (unreadable e) [
  | some minor ↦ throws e 2 minor
  | none ↦ elim (read_buffer (udt_of e).rcv_buffer len) [
    | none ↦ none
    | some (b, bytes, n) ↦
        let e' = with_rcv_buffer e b in timed (if is_drained e' then no_input e' else e') (bytes, n)
  ]
]

abbrev pub recv_waits : Endpoint → Bool
recv_waits e = not (udt_of e).broken && is_connected e && not (udt_of e).closing && is_drained e

unfoldable pub recv : World → Endpoint → ℕ → List Wake → Reply Received
recv w e len ws = if e.setup.sock_type == udt_dgram then throws e 5 10 else elim (unreadable e) [
  | some minor ↦ throws e 2 minor
  | none ↦
      if len == 0
      then some (e, returned ([], 0))
      else if not (is_drained e)
      then recv_awake e len
      else if not (udt_of e).syn_recving
      then throws e 6 2
      else elim (wait_data recv_waits (expiry e.rcv_time_out (w.time 0)) e ws) [
        | none ↦ none
        | some e' ↦ recv_awake e' len
      ]
]

-- A call of readMsg.
abbrev pub take_message : Endpoint → ℕ → Option (Endpoint × Received)
take_message e len = elim (read_msg (udt_of e).rcv_buffer len) [
  | none ↦ none
  | some (b, bytes, n) ↦ some (with_rcv_buffer e b, (bytes, n))
]

-- getRcvMsgNum, and the socket is no more readable if there is none.
unfoldable pub check_input : Endpoint → Option Endpoint
check_input e = elim (get_rcv_msg_num (udt_of e).rcv_buffer) [
  | none ↦ none
  | some (b, n) ↦ let e' = with_rcv_buffer e b in some (if n == 0 then no_input e' else e')
]

-- Without a wait: a message, or the exception for none.
abbrev pub or_throws : Endpoint → Received → ℕ → ℕ → Reply Received
or_throws e (bytes, zero) major minor = throws e major minor
or_throws e (bytes, suc n) major minor = some (e, returned (bytes, suc n))

-- The state of the socket after a wait of recvmsg.
abbrev pub unconnected : Endpoint → Option ℕ
unconnected e = if is_lost e then some 1 else if not (is_connected e) then some 2 else none

-- What recvmsg ends with.
unfoldable pub message_end : Endpoint → Received → Reply Received
message_end e r = elim (check_input e) [ none ↦ none | some e' ↦ timed e' r ]

-- A message that was waited for, and what follows if there is none yet.
abbrev pub or_else : Endpoint → Received → Reply Received → Reply Received
or_else e (bytes, zero) rest = rest
or_else e (bytes, suc n) rest = message_end e (bytes, suc n)

-- The wait without a limit. Its loop calls readMsg until that gives a message, or until the socket is
-- broken, closing or not connected.
unfoldable pub recvmsg_untimed : Endpoint → ℕ → List Endpoint → Reply Received
recvmsg_untimed e len [] = elim (unconnected e) [
  | some minor ↦ throws e 2 minor
  | none ↦ elim (take_message e len) [ none ↦ none | some (e', r) ↦ or_else e' r none ]
]
recvmsg_untimed e len (e1 ∷ ws) = elim (unconnected e) [
  | some minor ↦ throws e 2 minor
  | none ↦ elim (take_message e len) [
    | none ↦ none
    | some (e', r) ↦ or_else e' r (recvmsg_untimed e1 len ws)
  ]
]

-- The wait with a limit. A thread that wakes, with whether its time is over, reads a message before it
-- looks at the state of the socket.
unfoldable pub recvmsg_timed : ℕ → List (Endpoint × Bool) → Reply Received
recvmsg_timed len [] = none
recvmsg_timed len ((e, late) ∷ ws) = elim (take_message e len) [
  | none ↦ none
  | some (e', r) ↦ elim (unconnected e') [
    | some minor ↦ throws e' 2 minor
    | none ↦ or_else e' r (if late then message_end e' r else recvmsg_timed len ws)
  ]
]

unfoldable pub recvmsg_blocking : Endpoint → ℕ → List (Endpoint × Bool) → Reply Received
recvmsg_blocking e len ws = elim e.rcv_time_out [
  | negsuc n ↦ recvmsg_untimed e len (map (λ w. w.0) ws)
  | pos ms ↦ recvmsg_timed len ws
]

unfoldable pub recvmsg : Endpoint → ℕ → List (Endpoint × Bool) → Reply Received
recvmsg e len ws =
    if e.setup.sock_type == udt_stream
    then throws e 5 9
    else if not (is_connected e)
    then throws e 2 2
    else if len == 0
    then some (e, returned ([], 0))
    else if is_lost e
    then elim (take_message e len) [
      | none ↦ none
      | some (e', r) ↦ elim (check_input e') [ none ↦ none | some e'' ↦ or_throws e'' r 2 1 ]
    ]
    else if (udt_of e).syn_recving
    then recvmsg_blocking e len ws
    else elim (take_message e len) [ none ↦ none | some (e', r) ↦ or_throws e' r 6 2 ]
