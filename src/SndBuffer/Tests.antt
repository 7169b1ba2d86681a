-- ===== src/SndBuffer/Tests.antt =====
-- Runs of CSndBuffer (src/buffer.cpp) on a small buffer, and the theorems about it applied.
use udt_server.Base.{ℕ, ◌≡◌, refl, true, some, [], ◌∷◌, arith}
use udt_server.Packet.{Packet, pad}
use udt_server.SndBuffer.{Block, SndBuffer, make_room, increase, block_msg_no, order_bit, blank}
use udt_server.SndBuffer.Add.{IsValid}
use udt_server.SndBuffer.Read.{Answer, skip, read_data_at}

abbrev byte_block : ℕ → ℕ → Block
byte_block x n = record { payload = x ∷ []; msg_no = n; origin_time = 0; ttl = some 5 }

-- Two messages of two blocks and one block; the first block has been read.
abbrev sample : SndBuffer
sample = record {
  ring =
      byte_block 10 0x8000_0001
      ∷ byte_block 11 0x4000_0001
      ∷ byte_block 12 0xc000_0002
      ∷ blank
      ∷ blank
      ∷ [];
  curr = 1;
  last = 3;
  next_msg_no = 3;
  size = 5;
  unit_size = 5;
  mss = 2;
  count = 3;
}

sample-IsValid : IsValid sample
sample-IsValid = record {
  ringed = refl;
  counted = refl;
  room = omega arith;
  read_up = omega arith;
  unit = omega arith;
  packet = omega arith;
}

-- The blocks of the first message are skipped when it has expired, also the one not yet read.
expired_message : read_data_at sample 0 6000 ≡ some (record sample { curr = 2 }, Answer.expired 1 2)
unfolding read_data_at skip
expired_message = refl

living_message : read_data_at sample 1 5000 ≡ some (sample, Answer.block (11 ∷ []) 0x4000_0001)
unfolding read_data_at
living_message = refl

grown : (make_room 4 sample 3) ≡ some (increase sample)
unfolding make_room increase
grown = refl

abbrev carrier : Packet
carrier = record {
  seq_no = 7;
  msg_no = block_msg_no 3 (order_bit true) 1 2;
  time_stamp = 0;
  id = 0;
  content = pad;
  len = 1;
}
