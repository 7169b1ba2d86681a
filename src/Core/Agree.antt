-- ===== src/Core/Agree.antt =====
-- The handshake of CUDT::connect (src/core.cpp) on its two sides.
use udt_server.Base.{
  ℕ, ◌-◌, ◌^◌, ◌<◌, ◌≤◌, ◌≡◌, refl, sym, ap, ap₂, ◌∙◌, true, false, ◌&&◌, ◌||◌, not, Option, some,
  List, ◌∷◌, arith, ◌==◌, if◌then◌else◌, length, set, length-set, ==_iff,
}
use udt_server.Base.Int.{ℤ, pos, negsuc}
use udt_server.Base.Outcome.{Outcome, returned, thrown}
use udt_server.SeqNo.{incseq}
use udt_server.Address.{SockAddr, inet, inet6, ntop, word_at}
use udt_server.Packet
use udt_server.Packet.{Packet, block, pack, get_flag, get_type}
use udt_server.HandShake.{HandShake, serialize, deserialize}
use udt_server.HandShake.RoundTrip.{deserialize-serialize}
use udt_server.Core.{World, Udt, Event, sent, words, happened, completed, epoll}
use udt_server.Core.Times.{to_int}
use udt_server.Core.Connect.{
  Setup, Fresh, is_sized, less, connected_udt, new_structures, start_cc, shake_packet, before,
}
use udt_server.Core.Connect.Answer.{
  answer, agreed_mss, connect_peer, connect_response, negotiate, post_connect, ask_again,
  called_udt, answered_udt,
}
use udt_server.Core.Connect.Call.{verdict}

-- Two connected sockets that fit together: each sends next what the other expects, with the number by
-- which the other knows it, in packets of one size, into the window that the other has room for.
pub record Agree (a b : Setup) : Type 0 where
  pub both : (a.connected ≡ true) × (b.connected ≡ true)
  pub first_sent :
      (incseq a.udt.snd_curr_seq_no ≡ b.udt.rcv_last_ack)
      × (incseq b.udt.rcv_curr_seq_no ≡ b.udt.rcv_last_ack)
  pub first_received :
      (incseq b.udt.snd_curr_seq_no ≡ a.udt.rcv_last_ack)
      × (incseq a.udt.rcv_curr_seq_no ≡ a.udt.rcv_last_ack)
  pub acknowledged :
      (a.udt.snd_last_ack ≡ b.udt.rcv_last_ack) × (b.udt.snd_last_ack ≡ a.udt.rcv_last_ack)
  pub ids : (a.udt.peer_id ≡ b.udt.socket_id) × (b.udt.peer_id ≡ a.udt.socket_id)
  pub size : (a.udt.mss ≡ b.udt.mss) × (a.udt.payload_size ≡ b.udt.payload_size)
  pub windows :
      (a.udt.flow_window_size ≡ to_int (less b.rcv_buf_size b.udt.flight_flag_size))
      × (b.udt.flow_window_size ≡ to_int (less a.rcv_buf_size a.udt.flight_flag_size))

length-ntop : (addr : SockAddr) (ip : List ℕ) → length (ntop addr ip) ≡ length ip
unfolding ntop
length-ntop (inet port a) ip = length-set ip 0 a
length-ntop (inet6 port bytes) ip =
    length-set (set (set (set ip 3 (word_at bytes 12)) 2 (word_at bytes 8)) 1 (word_at bytes 4)) 0
      (word_at bytes 0)
    ∙ length-set (set (set ip 3 (word_at bytes 12)) 2 (word_at bytes 8)) 1 (word_at bytes 4)
    ∙ length-set (set ip 3 (word_at bytes 12)) 2 (word_at bytes 8)
    ∙ length-set ip 3 (word_at bytes 12)

-- The packet of a handshake.
abbrev pub shake_in : List ℕ → ℕ → ℕ → Packet
shake_in buf size id = record {
  seq_no = 0x8000_0000;
  msg_no = 0;
  time_stamp = 0;
  id = id;
  content = block buf;
  len = size;
}

pub shake_packet_lem :
    (h : HandShake) (buf : List ℕ) (size : ℕ)
    → shake_packet h buf size
      ≡ some (shake_in (serialize h buf size).buf (serialize h buf size).size 0)
unfolding pack Packet.create
shake_packet_lem h buf size = refl

module _ (w : World) (f : Fresh) (cached : Option (ℤ × ℤ)) (peer : SockAddr) (s : Setup)
    (h : HandShake) where
  -- The called socket, and the packet with its answer.
  abbrev accepted_udt : Udt
  accepted_udt =
      connected_udt w f s.rcv_buf_size h.flight_flag_size cached
        (called_udt (w.time 0) (agreed_mss s.udt.mss h.mss) h s.udt)

  abbrev answer_packet : Packet
  answer_packet =
      shake_in (serialize (answer s peer h) f.shake 48).buf
        (serialize (answer s peer h) f.shake 48).size h.id

  abbrev accepted : Setup
  accepted = record s {
    udt = record accepted_udt { events = sent answer_packet ∷ accepted_udt.events };
    connected = true;
    self_ip = h.peer_ip;
    peer_addr = some peer;
  }

  pub connect_peer_lem :
      is_sized (agreed_mss s.udt.mss h.mss) h.flight_flag_size ≡ true
      → connect_peer w f cached peer s h ≡ some (returned (accepted, answer s peer h))
  unfolding connect_peer start_cc new_structures
  connect_peer_lem sized =
      rw (connect_peer, sized, shake_packet_lem (answer s peer h) f.shake 48) refl

  read_answer :
      (old : HandShake)
      → length h.peer_ip ≡ 4
      → 12 ≤ length f.shake
      → (deserialize old (words answer_packet.content) answer_packet.len).shake ≡ answer s peer h
  read_answer old four room =
      ap (λ d. d.shake)
        (deserialize-serialize (answer s peer h) f.shake 48 (omega arith) (omega arith) old
          (length-ntop peer h.peer_ip ∙ four)).2

-- The caller's socket after an answer that it takes.
module _ (w : World) (f : Fresh) (cached : Option (ℤ × ℤ)) (c : Setup) (res : HandShake)
    (p : Packet) (asked : c.connecting ≡ true) (regular : c.udt.rendezvous ≡ false)
    (flag : get_flag p ≡ 1) (type : get_type p ≡ 0)
    (read : (deserialize c.conn_res (words p.content) p.len).shake ≡ res) where
  abbrev heard_from : Setup
  heard_from = record c { conn_res = res }

  negotiate_lem :
      (res.req_type == 1) ≡ false
      → negotiate w f cached heard_from ≡ post_connect w f cached heard_from
  unfolding negotiate
  negotiate_lem answered =
      let again = ask_again heard_from (record c.conn_req { req_type = 2 ^ 32 - 1 }) in
      let cookie =
        ask_again heard_from (record c.conn_req { req_type = 2 ^ 32 - 1; cookie = res.cookie }) in
      let go_on = post_connect w f cached heard_from in
      ap
        (λ b.
          if b
          then (if res.req_type == 1
              then returned (heard_from, negsuc 0)
              else if c.conn_req.req_type == 0 || res.req_type == 0
              then again
              else go_on)
          else if res.req_type == 1
          then cookie
          else go_on)
        regular
      ∙ ap (λ b. if b then cookie else go_on) answered

  abbrev connected_caller : Setup
  connected_caller = record heard_from {
    udt =
        happened
          (happened
            (connected_udt w f c.rcv_buf_size res.flight_flag_size cached (answered_udt res c.udt))
            completed)
          (epoll 4);
    self_ip = res.peer_ip;
    connecting = false;
    connected = true;
  }

  post_connect_lem :
      is_sized res.mss res.flight_flag_size ≡ true
      → post_connect w f cached heard_from ≡ returned (connected_caller, pos 0)
  unfolding post_connect
  post_connect_lem sized = rw (post_connect, sized) refl

  connect_response_lem :
      (res.req_type == 1) ≡ false
      → connect_response w f cached c p ≡ post_connect w f cached heard_from
  unfolding connect_response negotiate
  connect_response_lem answered =
      let give_up : Outcome (Setup × ℤ) = returned (c, negsuc 0) in
      let go_on = λ (r : HandShake). negotiate w f cached (record c { conn_res = r }) in
      let heard = go_on (deserialize c.conn_res (words p.content) p.len).shake in
      let known = (get_flag p == 0 || get_type p == 1) && not (c.conn_res.type == 0) in
      let recorded = post_connect w f cached c in
      let wrong = λ (a b : ℕ). not (a == 1) || not (b == 0) in
      ap
        (λ b.
          if not b
          then give_up
          else if c.udt.rendezvous && known
          then recorded
          else if wrong (get_flag p) (get_type p)
          then give_up
          else heard)
        asked
      ∙ ap
          (λ b.
            if b && known
            then recorded
            else if wrong (get_flag p) (get_type p)
            then give_up
            else heard)
          regular
      ∙ ap₂ (λ a b. if wrong a b then give_up else heard) flag type
      ∙ ap go_on read
      ∙ negotiate_lem answered

incseq-before : (isn : ℕ) → 0 < isn → isn < 2 ^ 31 → incseq (before isn) ≡ isn
unfolding incseq
incseq-before isn h k = ground arith

-- A caller that waits for an answer and is not in rendezvous mode, and a socket that gets the
-- caller's request: the packet that the called socket sends back makes the caller connected, with
-- 0, and the two sockets fit together. The caller's own security check then passes. The request has
-- the caller's number, size, window and initial sequence number, which is not 0; the sizes are
-- large enough for a header, and those of the windows, and twice these, are no negative ints; the
-- buffer of the answer has room for it.
pub connect_agrees :
    (w w' : World) (f f' : Fresh) (cached cached' : Option (ℤ × ℤ)) (peer : SockAddr) (c s : Setup)
    → c.connecting ≡ true
    → c.udt.rendezvous ≡ false
    → c.conn_req.id ≡ c.udt.socket_id
    → c.conn_req.mss ≡ c.udt.mss
    → c.conn_req.isn ≡ c.udt.isn
    → c.conn_req.flight_flag_size ≡ less c.rcv_buf_size c.udt.flight_flag_size
    → (c.udt.snd_curr_seq_no ≡ before c.udt.isn) × (c.udt.snd_last_ack ≡ c.udt.isn)
    → (0 < c.udt.isn) × (c.udt.isn < 2 ^ 31)
    → length c.conn_req.peer_ip ≡ 4
    → 12 ≤ length f'.shake
    → is_sized (agreed_mss s.udt.mss c.conn_req.mss) c.conn_req.flight_flag_size ≡ true
    → is_sized (agreed_mss s.udt.mss c.conn_req.mss) (less s.rcv_buf_size s.udt.flight_flag_size)
      ≡ true
    → (s' : Setup) × (h : HandShake) × (p : Packet) × (c' : Setup) × (connect_peer w' f' cached'
          peer s c.conn_req
        ≡ some (returned (s', h)))
      × ((rest : List Event) × (s'.udt.events ≡ sent p ∷ rest))
      × (connect_response w f cached c p ≡ returned (c', pos 0))
      × Agree c' s'
      × (verdict c' false ≡ returned c')
unfolding start_cc new_structures get_flag get_type verdict
connect_agrees w w' f f' cached cached' peer c s asked regular id mss isn window start range four
      room sized sized' =
    let h = answer s peer c.conn_req in
    let p = answer_packet w' f' cached' peer s c.conn_req in
    let got = read_answer w' f' cached' peer s c.conn_req c.conn_res four room in
    let first : incseq (before c.udt.isn) ≡ c.udt.isn = incseq-before c.udt.isn range.0 range.1 in
    let next : incseq (before c.conn_req.isn) ≡ c.conn_req.isn = rw isn first in
    let same : (c.udt.isn == c.conn_req.isn) ≡ true = (==_iff _ _).1 (sym isn) in
    let c' = connected_caller w f cached c h p asked regular refl refl got in
    (
      accepted w' f' cached' peer s c.conn_req,
      h,
      p,
      c',
      connect_peer_lem w' f' cached' peer s c.conn_req sized,
      ((accepted_udt w' f' cached' peer s c.conn_req).events, refl),
      connect_response_lem w f cached c h p asked regular refl refl got refl
          ∙ post_connect_lem w f cached c h p asked regular refl refl got sized',
      record {
        both = (refl, refl);
        first_sent = (ap incseq start.0 ∙ first ∙ sym isn, next);
        first_received = (next, next);
        acknowledged = (start.1 ∙ sym isn, refl);
        ids = (refl, id);
        size = (refl, refl);
        windows = (refl, ap to_int window);
      },
      ap₂ (λ r b. if not r && not b then thrown (pos 1) 4 else returned c') regular same,
    )
