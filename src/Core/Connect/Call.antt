-- ===== src/Core/Connect/Call.antt =====
-- CUDT::connect(const sockaddr*) of src/core.cpp: the request of the caller, and its wait for an answer.
use udt_server.Base.{
  ℕ, Bool, true, false, ◌&&◌, ◌||◌, not, Option, none, some, List, [], ◌∷◌, ltb, ◌==◌,
  if◌then◌else◌,
}
use udt_server.Base.Int.{ℤ, pos, leb_ℤ}
use udt_server.Base.Outcome.{Outcome, returned, thrown, terminated}
use udt_server.Address.{SockAddr, ntop}
use udt_server.Packet.{Packet}
use udt_server.HandShake.{HandShake}
use udt_server.Core.{World, Udt, happened, sent, registered}
use udt_server.Core.Times.{since, plus_64}
use udt_server.Core.Connect.{Setup, Fresh, less, start_sending, shake_packet}
use udt_server.Core.Connect.Answer.{connect_response}

-- The request of the caller.
abbrev pub request : Setup → SockAddr → ℕ → HandShake
request s addr isn = record s.conn_req {
  version = s.version;
  type = s.sock_type;
  isn = isn;
  mss = s.udt.mss;
  flight_flag_size = less s.rcv_buf_size s.udt.flight_flag_size;
  req_type = if s.udt.rendezvous then 0 else 1;
  id = s.udt.socket_id;
  peer_ip = ntop addr s.conn_req.peer_ip;
}

-- The time after which the caller gives up.
abbrev pub deadline : World → Setup → ℕ
deadline w s = plus_64 (if s.udt.rendezvous then 30000000 else 3000000) (w.time 0)

-- The request as a packet, to the socket `id`.
abbrev pub send_request : Udt → HandShake → List ℕ → ℕ → Option Udt
send_request u req buf id = elim (shake_packet req buf u.payload_size) [
  | none ↦ none
  | some p ↦ some (happened u (sent (record p { id = id })))
]

-- connect(const sockaddr*) up to its wait. `buf` is reqdata, of m_iPayloadSize bytes.
unfoldable pub connect : World → ℕ → List ℕ → SockAddr → Setup → Option (Outcome Setup)
connect w isn buf addr s =
    if not s.opened
    then some (thrown (pos 5) 0)
    else if s.listening || (s.connecting || s.connected)
    then some (thrown (pos 5) 2)
    else (let req = request s addr isn in
        let u = start_sending isn (w.time 1) (happened s.udt (registered (deadline w s))) in
        elim (send_request u req buf 0) [
          | none ↦ none
          | some u' ↦ some (
              returned (record s {
                udt = u';
                connecting = true;
                conn_req = req;
                peer_addr = some addr;
                last_req_time = w.time 2;
              }))
        ])

-- A round of the wait for the answer: whether the socket is being closed, before and after, the packet
-- that comes, and the clock.
pub record Round : Type 0 where
  pub closing : Bool
  pub closing_after : Bool
  pub answer : Option Packet
  pub time : ℕ
  pub time_after : ℕ
  pub fresh : Fresh
  pub cached : Option (ℤ × ℤ)

-- What connect throws in the end, if anything.
unfoldable pub verdict : Setup → Bool → Outcome Setup
verdict s closing =
    if closing
    then thrown (pos 1) 0
    else if s.conn_res.req_type == 1002
    then thrown (pos 1) 2
    else if not s.udt.rendezvous && not (s.udt.isn == s.conn_res.isn)
    then thrown (pos 1) 4
    else returned s

-- The request goes out again after 250 ms.
unfoldable pub repeat_request : Setup → List ℕ → Round → Option Setup
repeat_request s buf r =
    if ltb 250000 (since r.time s.last_req_time)
    then elim (send_request s.udt s.conn_req buf (if s.udt.rendezvous then s.conn_res.id else 0)) [
      | none ↦ none
      | some u ↦ some (record s { udt = u; last_req_time = r.time })
    ]
    else some s

-- The loop of the wait, up to the exception or the return; `none` means that it waits on.
unfoldable pub await : World → ℕ → List ℕ → List Round → Setup → Option (Outcome Setup)
await w ttl buf [] s = none
await w ttl buf (r ∷ rs) s = elim r.closing [
  | true ↦ some (verdict s true)
  | false ↦ elim (repeat_request s buf r) [
    | none ↦ none
    | some s1 ↦ elim r.answer [
      | none ↦ elim (ltb ttl r.time_after) [
        | true ↦ some (thrown (pos 1) 1)
        | false ↦ await w ttl buf rs s1
      ]
      | some p ↦ elim (connect_response w r.fresh r.cached s1 p) [
        | thrown major minor ↦ some (thrown major minor)
        | terminated ↦ some terminated
        | returned (s2, code) ↦ elim (leb_ℤ code (pos 0)) [
          | true ↦ some (verdict s2 r.closing_after)
          | false ↦ elim (ltb ttl r.time_after) [
            | true ↦ some (thrown (pos 1) 1)
            | false ↦ await w ttl buf rs (record s2 { last_req_time = 0 })
          ]
        ]
      ]
    ]
  ]
]

-- connect(const sockaddr*) as a whole; without m_bSynRecving it does not wait.
unfoldable pub connect_call :
    World → ℕ → List ℕ → SockAddr → List Round → Setup → Option (Outcome Setup)
connect_call w isn buf addr rs s = elim (connect w isn buf addr s) [
  | none ↦ none
  | some (thrown major minor) ↦ some (thrown major minor)
  | some terminated ↦ some terminated
  | some (returned s') ↦
      if s'.udt.syn_recving then await w (deadline w s) buf rs s' else some (returned s')
]
