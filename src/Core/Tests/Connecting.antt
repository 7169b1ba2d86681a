-- ===== src/Core/Tests/Connecting.antt =====
-- Runs of the calls of CUDT::connect (src/core.cpp), and the theorems about them applied.
use udt_server.Base.{ℕ, ◌≡◌, refl, true, false, Option, none, some, List, [], ◌∷◌, arith, replicate}
use udt_server.Base.Int.{pos, ◌+ℤ◌}
use udt_server.Base.Outcome.{Outcome, returned}
use udt_server.Address.{inet, ntop}
use udt_server.Packet
use udt_server.Packet.{Packet, block, pack, get_flag, get_type}
use udt_server.HandShake.{HandShake, serialize, deserialize}
use udt_server.Core.{Udt, Event, sent}
use udt_server.Core.Control.{no_handshake}
use udt_server.Core.Connect.{Setup, Fresh}
use udt_server.Core.Connect.Answer.{connect_peer, connect_response}
use udt_server.Core.Connect.Call.{Round, connect, await, verdict, request}
use udt_server.Core.Agree.{Agree, connect_agrees}
use udt_server.Core.Rendezvous.{rendezvous_unconnected}
use udt_server.Core.Waiting.{IsEnd, await_ends}
use udt_server.Core.Tests.{world, socket}

abbrev memory : Fresh
memory = record {
  snd_next = [];
  rcv_next = [];
  rcv_prior = [];
  ack_seq_no = [];
  ack = [];
  time_stamp = [];
  shake = replicate 12 0;
  flag = λ u. 0;
  payload = λ u. [];
  msg_no = λ u. 0;
  used = 0;
}

abbrev pub setup : Udt → Setup
setup u = record {
  udt = u;
  opened = true;
  listening = false;
  connecting = false;
  connected = false;
  version = 4;
  sock_type = 1;
  rcv_buf_size = 8192;
  conn_req = no_handshake;
  conn_res = no_handshake;
  last_req_time = 0;
  self_ip = [];
  peer_addr = none;
}

-- The caller has sent its request, with 77 as its first number.
abbrev caller : Setup
caller = record (setup (record socket { isn = 77; snd_curr_seq_no = 76; snd_last_ack = 77 })) {
  connecting = true;
  conn_req = request (setup socket) (inet 9000 5) 77;
}

-- The called socket takes packets of 1000 bytes.
abbrev called : Setup
called = setup (record socket { socket_id = 8; mss = 1000 })

requested :
    (s : Setup) × (connect world 77 (replicate 364 0) (inet 9000 5) (setup socket)
      ≡ some (returned s))
    × (s.conn_req ≡ caller.conn_req)
unfolding connect pack serialize Packet.create
requested = (_, refl, refl)

connect_agrees_example :
    (s' : Setup) × (h : HandShake) × (p : Packet) × (c' : Setup) × (connect_peer world memory none
        (inet 9001 6)
        called
        caller.conn_req
      ≡ some (returned (s', h)))
    × ((rest : List Event) × (s'.udt.events ≡ sent p ∷ rest))
    × (connect_response world memory none caller p ≡ returned (c', pos 0))
    × Agree c' s'
    × (verdict c' false ≡ returned c')
unfolding ◌+ℤ◌ ntop
connect_agrees_example =
    connect_agrees world world memory memory none none (inet 9001 6) caller called refl refl refl
      refl refl refl (refl, refl) (omega arith) refl (omega arith) refl refl

abbrev meeting : Setup
meeting = record (setup (record socket { rendezvous = true })) { connecting = true }

-- The request of a regular caller.
abbrev regular : Packet
regular = record {
  seq_no = 0x8000_0000;
  msg_no = 0;
  time_stamp = 0;
  id = 0;
  content = block (4 ∷ 1 ∷ 5 ∷ 1500 ∷ 25 ∷ 1 ∷ 9 ∷ 0 ∷ 0 ∷ 0 ∷ 0 ∷ 0 ∷ []);
  len = 48;
}

abbrev round : ℕ → Option Packet → Round
round t p = record {
  closing = false;
  closing_after = false;
  answer = p;
  time = 0;
  time_after = t;
  fresh = memory;
  cached = none;
}

rendezvous_unconnected_example :
    (c' : Setup) × (await world 3000000 [] (round 10 (some regular) ∷ []) meeting
      ≡ some (returned c'))
    × (c'.connecting ≡ true)
    × (c'.connected ≡ false)
unfolding get_flag get_type deserialize
rendezvous_unconnected_example =
    rendezvous_unconnected world 3000000 0 10 [] [] memory none meeting
      (deserialize no_handshake (4 ∷ 1 ∷ 5 ∷ 1500 ∷ 25 ∷ 1 ∷ 9 ∷ 0 ∷ 0 ∷ 0 ∷ 0 ∷ 0 ∷ []) 48).shake
      regular refl refl refl refl refl refl refl

await_ends_example :
    (o : Outcome Setup) × (await world 3000000 []
        (round 10 none ∷ round 3000001 (some regular) ∷ [])
        caller
      ≡ some o)
    × IsEnd o
await_ends_example =
    await_ends world 3000000 [] (round 10 none ∷ round 3000001 (some regular) ∷ []) caller refl
