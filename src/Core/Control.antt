-- ===== src/Core/Control.antt =====
-- CUDT::processCtrl (src/core.cpp): a control packet has arrived.
use udt_server.Base.{
  ℕ, ◌+◌, ◌-◌, ◌*◌, ◌/◌, ◌%◌, ◌^◌, Bool, not, true, false, ◌&&◌, ◌||◌, Option, none, some, List, [],
  ◌∷◌, leb, ◌==◌, if◌then◌else◌, get_elem?, replicate,
}
use udt_server.Base.Int.{pos, ltb_ℤ, leb_ℤ, ◌+ℤ◌}
use udt_server.SeqNo.{seqcmp, incseq}
use udt_server.Packet.{Packet, get_type, get_msg_seq}
use udt_server.HandShake.{HandShake, serialize, deserialize}
use udt_server.SndLossList.{insert}
use udt_server.RcvBuffer.{drop_msg}
use udt_server.RcvLossList.{remove_range}
use udt_server.Core.{
  World, Udt, called, happened, words, cc_update, on_loss, process_custom_msg, reschedule, release,
  trigger,
}
use udt_server.Core.Times.{to_int}
use udt_server.Core.SendCtrl.{send_ctrl}
use udt_server.Core.Receive.{heard}
use udt_server.Core.Ack.{break_off, take_ack, take_ack2}

-- The numbers from `a` to `b` join the loss list.
abbrev pub lost : Udt → ℕ → ℕ → Option Udt
lost u a b = elim (insert u.snd_loss_list a b) [
  | none ↦ none
  | some (l, num) ↦ some (record u { snd_loss_list = l; snd_loss_total = u.snd_loss_total +ℤ num })
]

-- A run of a loss report, as far as it is not acknowledged.
abbrev pub take_run : Udt → ℕ → ℕ → Option Udt
take_run u a b =
    if leb_ℤ (pos 0) (seqcmp a u.snd_last_ack)
    then lost u a b
    else if leb_ℤ (pos 0) (seqcmp b u.snd_last_ack)
    then lost u u.snd_last_ack b
    else some u

-- Whether a run goes back, or goes past what was sent.
abbrev pub is_bad_run : Udt → ℕ → ℕ → Bool
is_bad_run u a b = ltb_ℤ (pos 0) (seqcmp a b) || ltb_ℤ (pos 0) (seqcmp b u.snd_curr_seq_no)

-- The loop over a loss report; the result is `secure`. A run has two words, the first with the
-- highest bit set.
unfoldable pub take_losses : Option Udt → List ℕ → Option (Udt × Bool)
take_losses none ws = none
take_losses (some u) [] = some (u, true)
take_losses (some u) (x ∷ []) =
    if leb (2 ^ 31) x
    then none
    else if leb_ℤ (pos 0) (seqcmp x u.snd_last_ack)
    then (if ltb_ℤ (pos 0) (seqcmp x u.snd_curr_seq_no)
        then some (u, false)
        else take_losses (lost u x x) [])
    else take_losses (some u) []
take_losses (some u) (x ∷ y ∷ ws) = elim (leb (2 ^ 31) x) [
  | true ↦ elim (is_bad_run u (x % 2 ^ 31) y) [
    | true ↦ some (u, false)
    | false ↦ take_losses (take_run u (x % 2 ^ 31) y) ws
  ]
  | false ↦ elim (leb_ℤ (pos 0) (seqcmp x u.snd_last_ack)) [
    | true ↦ elim (ltb_ℤ (pos 0) (seqcmp x u.snd_curr_seq_no)) [
      | true ↦ some (u, false)
      | false ↦ take_losses (lost u x x) (y ∷ ws)
    ]
    | false ↦ take_losses (some u) (y ∷ ws)
  ]
]

-- Case 3, a loss report. The packet is as long as its words. The result is `none` where the code
-- reads a word behind the last one.
unfoldable pub take_nak : World → Udt → Packet → Option Udt
take_nak w u p =
    let ws = words p.content in
    elim (take_losses (some (cc_update w (called u (on_loss ws)))) ws) [
      | none ↦ none
      | some (s, secure) ↦
          if secure
          then some
              (record (happened s (reschedule true)) { recv_nak_total = u.recv_nak_total + 1 })
          else some (break_off s)
    ]

-- Case 7, a request to drop a message.
unfoldable pub take_drop_request : Udt → Packet → Option Udt
take_drop_request u p = elim (get_elem? (words p.content) 0) [
  | none ↦ none
  | some a ↦ elim (get_elem? (words p.content) 1) [
    | none ↦ none
    | some b ↦ elim (remove_range u.rcv_loss_list a b) [
      | none ↦ none
      | some l ↦ some (record u {
        rcv_buffer = drop_msg u.rcv_buffer (get_msg_seq p);
        rcv_loss_list = l;
        rcv_curr_seq_no =
            if leb_ℤ (seqcmp a (incseq u.rcv_curr_seq_no)) (pos 0)
              && ltb_ℤ (pos 0) (seqcmp b u.rcv_curr_seq_no)
            then b
            else u.rcv_curr_seq_no;
      })
    ]
  ]
]

-- Case 5, the peer shuts down.
unfoldable pub take_shutdown : Udt → Udt
take_shutdown u = record (happened (happened u release) trigger) {
  shutdown = true;
  closing = true;
  broken = true;
  broken_counter = 60;
}

-- CHandShake's constructor.
abbrev pub no_handshake : HandShake
no_handshake = record {
  version = 0;
  type = 0;
  isn = 0;
  mss = 0;
  flight_flag_size = 0;
  req_type = 0;
  id = 0;
  cookie = 0;
  peer_ip = 0 ∷ 0 ∷ 0 ∷ 0 ∷ [];
}

-- The answer to a peer that asks again; a request type is an int, -1 or -2 in an answer.
abbrev pub init_data : Udt → HandShake
init_data u = record no_handshake {
  isn = u.isn;
  mss = u.mss;
  flight_flag_size = u.flight_flag_size;
  req_type = if u.rendezvous then 2 ^ 32 - 2 else 2 ^ 32 - 1;
  id = u.socket_id;
}

abbrev pub is_query : Udt → ℕ → Bool
is_query u req_type =
    ltb_ℤ (pos 0) (to_int req_type) || (u.rendezvous && not (req_type == 2 ^ 32 - 2))

-- Case 0, a handshake.
unfoldable pub take_handshake : World → Udt → Packet → Option Udt
take_handshake w u p =
    let req = deserialize no_handshake (words p.content) p.len in
    if is_query u req.shake.req_type
    then (let out = serialize (init_data u) (replicate (u.payload_size / 4) 0) u.payload_size in
        send_ctrl w u 0 none (some out.buf) out.size)
    else some u

-- In case 4, the factor of the interval is 1.125, which is 9 / 8, rounded up.
unfoldable pub process_ctrl : World → Udt → Packet → Option Udt
process_ctrl w u p =
    let h = heard w u in
    let t = get_type p in
    if t == 2
    then take_ack w h p
    else if t == 6
    then some (take_ack2 w h p)
    else if t == 3
    then take_nak w h p
    else if t == 4
    then some (record h {
      interval = (u.interval * 9 + 7) / 8 % 2 ^ 64;
      last_dec_seq = u.snd_curr_seq_no;
    })
    else if t == 0
    then take_handshake w h p
    else if t == 5
    then some (take_shutdown h)
    else if t == 7
    then take_drop_request h p
    else if t == 8
    then some (record h { peer_health = false })
    else if t == 32767
    then some (cc_update w (called h (process_custom_msg p)))
    else some h
