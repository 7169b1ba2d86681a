-- ===== src/Core/Connect/Answer.antt =====
-- CUDT::connect of src/core.cpp on the side that was called, and what the caller does with an answer.
use udt_server.Base.{
  ℕ, ◌-◌, ◌^◌, true, false, ◌&&◌, ◌||◌, not, Option, none, some, ◌==◌, if◌then◌else◌,
}
use udt_server.Base.Int.{ℤ, pos, negsuc, ltb_ℤ}
use udt_server.Base.Outcome.{Outcome, returned, thrown, terminated}
use udt_server.Address.{SockAddr, ntop}
use udt_server.Packet.{Packet, get_flag, get_type}
use udt_server.HandShake.{HandShake, content_size, deserialize}
use udt_server.Core.{World, Udt, happened, send, epoll, completed, unregistered, words}
use udt_server.Core.Times.{to_int}
use udt_server.Core.Connect.{
  Setup, Fresh, payload_of, less, start_sending, start_receiving, shake_packet, is_sized,
  connected_udt,
}

-- The smaller of the two sizes of a packet.
abbrev pub agreed_mss : ℕ → ℕ → ℕ
agreed_mss own peers = if ltb_ℤ (pos own) (to_int peers) then own else peers

-- The handshake that goes back to the caller.
abbrev pub answer : Setup → SockAddr → HandShake → HandShake
answer s peer h = record h {
  mss = agreed_mss s.udt.mss h.mss;
  flight_flag_size = less s.rcv_buf_size s.udt.flight_flag_size;
  id = s.udt.socket_id;
  req_type = 2 ^ 32 - 1;
  peer_ip = ntop peer h.peer_ip;
}

abbrev pub called_udt : ℕ → ℕ → HandShake → Udt → Udt
called_udt now mss h u = record (start_receiving h.isn (start_sending h.isn now u)) {
  mss = mss;
  flow_window_size = to_int h.flight_flag_size;
  peer_id = h.id;
  payload_size = payload_of mss;
}

-- connect(const sockaddr*, CHandShake*), on the side that was called.
unfoldable pub connect_peer :
    World
    → Fresh
    → Option (ℤ × ℤ)
    → SockAddr
    → Setup
    → HandShake
    → Option (Outcome (Setup × HandShake))
connect_peer w f cached peer s h =
    let mss = agreed_mss s.udt.mss h.mss in
    if is_sized mss h.flight_flag_size
    then (let u =
          connected_udt w f s.rcv_buf_size h.flight_flag_size cached
            (called_udt (w.time 0) mss h s.udt) in
        elim (send u (shake_packet (answer s peer h) f.shake content_size)) [
          | none ↦ none
          | some u' ↦ some (
              returned (
                record s { udt = u'; connected = true; self_ip = h.peer_ip; peer_addr = some peer },
                answer s peer h,
              ))
        ])
    else some (thrown (pos 3) 2)

-- The socket of the caller, from the answer.
abbrev pub answered_udt : HandShake → Udt → Udt
answered_udt res u = record (start_receiving res.isn (happened u unregistered)) {
  mss = res.mss;
  flow_window_size = to_int res.flight_flag_size;
  payload_size = payload_of res.mss;
  peer_id = res.id;
}

-- From the label POST_CONNECT on. The function is declared throw(), so that its exception ends the
-- program.
unfoldable pub post_connect : World → Fresh → Option (ℤ × ℤ) → Setup → Outcome (Setup × ℤ)
post_connect w f cached s =
    let res = s.conn_res in
    if is_sized res.mss res.flight_flag_size
    then (let u =
          connected_udt w f s.rcv_buf_size res.flight_flag_size cached (answered_udt res s.udt) in
        returned (
          record s {
            udt = happened (happened u completed) (epoll 4);
            self_ip = res.peer_ip;
            connecting = false;
            connected = true;
          },
          pos 0,
        ))
    else terminated

-- The request is changed, and goes out at once.
abbrev pub ask_again : Setup → HandShake → Outcome (Setup × ℤ)
ask_again s req = returned (record s { conn_req = req; last_req_time = 0 }, pos 1)

-- What a handshake of the peer leads to.
unfoldable pub negotiate : World → Fresh → Option (ℤ × ℤ) → Setup → Outcome (Setup × ℤ)
negotiate w f cached s =
    let res = s.conn_res in
    if s.udt.rendezvous
    then (if res.req_type == 1
        then returned (s, negsuc 0)
        else if s.conn_req.req_type == 0 || res.req_type == 0
        then ask_again s (record s.conn_req { req_type = 2 ^ 32 - 1 })
        else post_connect w f cached s)
    else if res.req_type == 1
    then ask_again s (record s.conn_req { req_type = 2 ^ 32 - 1; cookie = res.cookie })
    else post_connect w f cached s

-- connect(const CPacket&), on the side of the caller.
unfoldable pub connect_response :
    World → Fresh → Option (ℤ × ℤ) → Setup → Packet → Outcome (Setup × ℤ)
connect_response w f cached s p =
    if not s.connecting
    then returned (s, negsuc 0)
    else if s.udt.rendezvous && ((get_flag p == 0 || get_type p == 1) && not (s.conn_res.type == 0))
    then post_connect w f cached s
    else if not (get_flag p == 1) || not (get_type p == 0)
    then returned (s, negsuc 0)
    else negotiate w f cached
        (record s { conn_res = (deserialize s.conn_res (words p.content) p.len).shake })
