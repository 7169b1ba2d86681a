-- ===== src/RcvBuffer/Tests.antt =====
-- Runs of CRcvBuffer (src/buffer.cpp) on a small buffer, and the theorems about it applied.
use udt_server.Base.{
  Option, ◌==◌, if◌then◌else◌, ℕ, ◌+◌, ◌≡◌, refl, false, none, some, [], ◌∷◌, length, take, arith,
}
use udt_server.Packet.{Packet, pad}
use udt_server.RcvBuffer.{set_flag, RcvBuffer, get_rcv_data_size, drop_loop, drop_msg}
use udt_server.RcvBuffer.Stream.{slots, stream, IsValid}
use udt_server.RcvBuffer.Message.{
  Found, scan_msg, skip_bad, look_ahead, search_msg, head_at, msg_loop, read_msg, get_rcv_msg_num,
}
use udt_server.RcvBuffer.Scan.{scan_msg_returns}
use udt_server.RcvBuffer.Deliver.{read_msg_lem}

-- Units 1 and 2 are acknowledged, across the end of the array, and unit 3 has arrived; one byte of
-- unit 1 has been read.
abbrev sample : RcvBuffer
sample = record {
  unit = some 2 ∷ some 3 ∷ none ∷ some 1 ∷ [];
  size = 4;
  start_pos = 3;
  last_ack_pos = 1;
  max_pos = 1;
  notch = 1;
  flag = λ u. 1;
  payload = λ u. u ∷ (u + 10) ∷ (u + 20) ∷ [];
  msg_no = λ u. u;
  used = 3;
}

abbrev request : Packet
request = record {
  seq_no = 0x8007_0000;
  msg_no = 2;
  time_stamp = 0;
  id = 0;
  content = pad;
  len = 4;
}

-- Unit 2 is the only packet of message 2, delivered in order.
abbrev solo : RcvBuffer
solo = record sample { msg_no = λ u. u + 0xe000_0000 }

stream-sample : stream sample ≡ 11 ∷ 21 ∷ 2 ∷ 12 ∷ 22 ∷ []
unfolding get_rcv_data_size
stream-sample = refl

sample-IsValid : IsValid sample
unfolding get_rcv_data_size
sample-IsValid = record {
  sized = refl;
  start_in = omega arith;
  ack_in = omega arith;
  filled = ((1, refl), ((2, refl), tt));
  notched = omega arith;
}

drop_run : ((drop_msg sample 2).flag 2 ≡ 3) × ((drop_msg sample 2).flag 1 ≡ 1)
unfolding drop_msg drop_loop
drop_run = (refl, refl)

-- The three packets of a message that has not ended, in a buffer for four units.
abbrev full : RcvBuffer
full = record {
  unit = some 1 ∷ some 2 ∷ some 3 ∷ none ∷ [];
  size = 4;
  start_pos = 0;
  last_ack_pos = 2;
  max_pos = 0;
  notch = 0;
  flag = λ u. 1;
  payload = λ u. u ∷ [];
  msg_no = λ u. if u == 1 then 0x8000_0001 else 1;
  used = 3;
}

-- The first message has lost its end, the second is the single packet in unit 3.
abbrev cut : RcvBuffer
cut = record full {
  unit = some 1 ∷ none ∷ some 3 ∷ none ∷ [];
  last_ack_pos = 3;
  msg_no = λ u. if u == 1 then 0x8000_0001 else 0xc000_0002;
}

cut_read :
    read_msg cut 5
    ≡ some (
      record cut {
        unit = none ∷ none ∷ none ∷ none ∷ [];
        flag = set_flag (set_flag (λ u. 1) 1 0) 3 0;
        start_pos = 3;
        used = 1;
      },
      3 ∷ [],
      1,
    )
unfolding read_msg scan_msg skip_bad look_ahead search_msg head_at msg_loop get_rcv_data_size
cut_read = refl

scan_msg_returns_example :
    (c : RcvBuffer) × (f : Option Found) × (n : ℕ) × (scan_msg cut ≡ some (c, f))
    × (get_rcv_msg_num cut ≡ some (c, n))
    × (c.last_ack_pos ≡ 3)
    × (c.max_pos ≡ 0)
scan_msg_returns_example = scan_msg_returns cut (omega arith) (omega arith)

-- What scanMsg makes of it: the first packet is gone.
abbrev rest_of_cut : RcvBuffer
rest_of_cut = record cut {
  unit = none ∷ none ∷ some 3 ∷ none ∷ [];
  flag = set_flag (λ u. 1) 1 0;
  start_pos = 2;
  used = 2;
}

read_msg_lem_example :
    (d : RcvBuffer) × (k : ℕ) × (read_msg cut 5 ≡ some (d, take 5 (slots rest_of_cut 2 1), k))
    × (k ≡ length (take 5 (slots rest_of_cut 2 1)))
unfolding scan_msg skip_bad look_ahead search_msg head_at get_rcv_data_size
read_msg_lem_example =
    read_msg_lem cut rest_of_cut (record { p = 2; q = 2; passack = false }) 1 5 refl
      (record {
        sized = refl;
        inside = omega arith;
        lands = refl;
        small = omega arith;
        filled = ((3, refl), tt);
      })
