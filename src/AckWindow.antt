-- ===== src/AckWindow.antt =====
-- src/window.h and src/window.cpp, the class CACKWindow: a circular history of the ACKs sent.
-- An int32_t is kept as its bit pattern, a number below 2 ^ 32, and a time is a number of
-- microseconds below 2 ^ 64. The clock's answer is an argument of the method that reads it.
pub mod Contents
pub mod History
mod Tests
use udt_server.Base.{ℕ, zero, suc, ◌+◌, ◌-◌, ◌%◌, ◌^◌, List, leb, ◌==◌, if◌then◌else◌, get_or, set}

pub record AckWindow : Type 0 where
  pub ack_seq_no : List ℕ
  pub ack : List ℕ
  pub time_stamp : List ℕ
  pub size : ℕ
  pub head : ℕ
  pub tail : ℕ

-- The bit pattern of -1.
abbrev pub minus_one : ℕ
minus_one = 0xffff_ffff

-- The arguments are the three arrays as `new` leaves them, of unspecified content.
unfoldable pub create : ℕ → List ℕ → List ℕ → List ℕ → AckWindow
create size seqs acks times = record {
  ack_seq_no = set seqs 0 minus_one;
  ack = acks;
  time_stamp = times;
  size = size;
  head = 0;
  tail = 0;
}

unfoldable pub store : AckWindow → ℕ → ℕ → ℕ → AckWindow
store w seq ack now =
    let head' = (w.head + 1) % w.size in
    record {
      ack_seq_no = set w.ack_seq_no w.head seq;
      ack = set w.ack w.head ack;
      time_stamp = set w.time_stamp w.head now;
      size = w.size;
      head = head';
      tail = if head' == w.tail then (w.tail + 1) % w.size else w.tail;
    }

-- What a call of `acknowledge` leaves: the window, the caller's `ack`, and the returned `int`.
pub record Answer : Type 0 where
  pub window : AckWindow
  pub ack : ℕ
  pub rtt : ℕ

-- int(now - stamp): the difference of two uint64_t, cut to an int.
abbrev pub round_trip : ℕ → ℕ → ℕ
round_trip now stamp = (now + 2 ^ 64 - stamp) % 2 ^ 64 % 2 ^ 32

abbrev pub reset : AckWindow → AckWindow
reset w = record w { ack_seq_no = set w.ack_seq_no 0 minus_one; head = 0; tail = 0 }

-- The first loop, where the head is not behind the tail; `rounds` counts n - i.
unfoldable pub scan_straight : AckWindow → ℕ → ℕ → ℕ → ℕ → ℕ → Answer
scan_straight w seq ack now i zero = record { window = w; ack = ack; rtt = minus_one }
scan_straight w seq ack now i (suc rounds) =
    let rest = scan_straight w seq ack now (suc i) rounds in
    if seq == get_or w.ack_seq_no i 0
    then (record {
      window = if i + 1 == w.head then reset w else record w { tail = (i + 1) % w.size };
      ack = get_or w.ack i 0;
      rtt = round_trip now (get_or w.time_stamp i 0);
    })
    else rest

-- The second loop, where the head has gone round; `rounds` counts n - j.
unfoldable pub scan_wrapped : AckWindow → ℕ → ℕ → ℕ → ℕ → ℕ → Answer
scan_wrapped w seq ack now j zero = record { window = w; ack = ack; rtt = minus_one }
scan_wrapped w seq ack now j (suc rounds) =
    let rest = scan_wrapped w seq ack now (suc j) rounds in
    if seq == get_or w.ack_seq_no (j % w.size) 0
    then (record {
      window =
          if j % w.size == w.head then reset w else record w { tail = (j % w.size + 1) % w.size };
      ack = get_or w.ack (j % w.size) 0;
      rtt = round_trip now (get_or w.time_stamp (j % w.size) 0);
    })
    else rest

-- `ack` is the value that the caller's variable has before the call.
unfoldable pub acknowledge : AckWindow → ℕ → ℕ → ℕ → Answer
acknowledge w seq ack now =
    if leb w.tail w.head
    then scan_straight w seq ack now w.tail (w.head - w.tail)
    else scan_wrapped w seq ack now w.tail (w.head + w.size - w.tail)
