-- ===== src/HandShake/Tests.antt =====
-- A round trip of CHandShake (src/packet.cpp) at concrete words, and the theorems applied.
use udt_server.Base.{ℕ, ◌≡◌, List, [], ◌∷◌, replicate, arith, refl}
use udt_server.HandShake.{HandShake, success, too_small, serialize, deserialize}
use udt_server.HandShake.RoundTrip.{deserialize-serialize, too_small_refused}

abbrev blank : HandShake
blank = record {
  version = 0;
  type = 0;
  isn = 0;
  mss = 0;
  flight_flag_size = 0;
  req_type = 0;
  id = 0;
  cookie = 0;
  peer_ip = 0 ∷ 0 ∷ 0 ∷ 0 ∷ [];
}

abbrev request : HandShake
request = record {
  version = 4;
  type = 1;
  isn = 77;
  mss = 1500;
  flight_flag_size = 25600;
  req_type = 1;
  id = 9;
  cookie = 1234;
  peer_ip = 0x0100007f ∷ 0 ∷ 0 ∷ 0 ∷ [];
}

abbrev room : List ℕ
room = replicate 12 0

deserialize-serialize_example :
    let s = serialize request room 48 in
    (s.status ≡ success)
    × (s.size ≡ 48)
    × (deserialize blank s.buf s.size ≡ record { status = success; shake = request })
deserialize-serialize_example =
    deserialize-serialize request room 48 (omega arith) (omega arith) blank refl

too_small_refused_example :
    (serialize request room 44 ≡ record { status = too_small; buf = room; size = 44 })
    × (deserialize blank room 44 ≡ record { status = too_small; shake = blank })
too_small_refused_example = too_small_refused request blank room 44 (omega arith)
