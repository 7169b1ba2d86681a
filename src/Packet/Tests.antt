-- ===== src/Packet/Tests.antt =====
-- Runs of CPacket (src/packet.cpp), and the theorems about it applied.
use udt_server.Base.{◌≡◌, refl, [], ◌∷◌, none, some, arith}
use udt_server.Packet.{Packet, pad, block, create, pack, get_flag, get_type, get_extended_type}
use udt_server.Packet.Control.{get_extended_type-pack}

abbrev drop_request : Packet
drop_request = record {
  seq_no = 0x8007_0000;
  msg_no = 5;
  time_stamp = 0;
  id = 0;
  content = block (1 ∷ 2 ∷ []);
  len = 8;
}

abbrev custom : Packet
custom = record { seq_no = 0xffff_0011; msg_no = 0; time_stamp = 0; id = 0; content = pad; len = 4 }

pack_runs :
    (pack create 7 (some 5) (some (1 ∷ 2 ∷ [])) 8 ≡ some drop_request)
    × (pack create 32767 (some 0x11) none 0 ≡ some custom)
    × (pack create 6 none none 0 ≡ none)
unfolding pack create
pack_runs = (refl, refl, refl)

get_extended_type-pack_example :
    (get_flag custom ≡ 1) × (get_type custom ≡ 32767) × (get_extended_type custom ≡ 0x11)
unfolding pack create
get_extended_type-pack_example = get_extended_type-pack create 0x11 none 0 (omega arith) refl
