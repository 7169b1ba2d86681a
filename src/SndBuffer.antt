-- ===== src/SndBuffer.antt =====
-- src/buffer.h and src/buffer.cpp, the class CSndBuffer: the data to send, cut into blocks of at
-- most one packet, in a circular linked list.
-- `ring` is the circle of blocks from m_pFirstBlock on; m_pCurrBlock and m_pLastBlock are positions
-- in it. A block's `payload` is the first m_iLength bytes of its memory. Lengths and counts are kept
-- without the bound of an int. The lock is not modelled, nor is CTimer::triggerEvent, which wakes
-- the other threads after ackData. `memory` says whether the allocations of a call succeed; where
-- one fails, the source throws, and the result is `none`.
pub mod Add
pub mod Cut
pub mod Mark
pub mod Read
pub mod File
mod Tests
use udt_server.Base.{
  ℕ, zero, suc, ◌+◌, ◌-◌, ◌*◌, ◌/◌, ◌%◌, Bool, true, false, ◌&&◌, Option, none, some, List, [], ◌∷◌,
  ◌++◌, ltb, leb, ◌==◌, if◌then◌else◌, length, get_or, set, take, drop, replicate,
}
use udt_server.SeqNo.{max_msg_no}
use Prim.Native.Nat.{bit_or}

-- `ttl` is `none` where m_iTTL is negative.
pub record Block : Type 0 where
  pub payload : List ℕ
  pub msg_no : ℕ
  pub origin_time : ℕ
  pub ttl : Option ℕ

pub record SndBuffer : Type 0 where
  pub ring : List Block
  pub curr : ℕ
  pub last : ℕ
  pub next_msg_no : ℕ
  pub size : ℕ
  pub unit_size : ℕ
  pub mss : ℕ
  pub count : ℕ

-- A block whose content is never read. (Those of `new` are not even initialised.)
abbrev pub blank : Block
blank = record { payload = []; msg_no = 0; origin_time = 0; ttl = none }

unfoldable pub create : ℕ → ℕ → SndBuffer
create size mss = record {
  ring = replicate size blank;
  curr = 0;
  last = 0;
  next_msg_no = 1;
  size = size;
  unit_size = size;
  mss = mss;
  count = 0;
}

abbrev pub next : ℕ → ℕ → ℕ
next n p = if p + 1 == n then 0 else p + 1

-- The new blocks come right behind m_pLastBlock; the positions behind them move on.
unfoldable pub increase : SndBuffer → SndBuffer
increase s = record s {
  ring = take (s.last + 1) s.ring ++ (replicate s.unit_size blank ++ drop (s.last + 1) s.ring);
  curr = if ltb s.last s.curr then s.curr + s.unit_size else s.curr;
  size = s.size + s.unit_size;
}

-- The loop that makes room for `n` further blocks.
unfoldable pub make_room : ℕ → SndBuffer → ℕ → Option SndBuffer
make_room zero s n = none
make_room (suc fuel) s n =
    let rest = make_room fuel (increase s) n in if leb s.size (n + s.count) then rest else some s

-- The number of blocks for `len` bytes.
unfoldable pub block_count : ℕ → ℕ → ℕ
block_count len mss = if len % mss == 0 then len / mss else len / mss + 1

-- The message number of block `i` of `n`.
unfoldable pub block_msg_no : ℕ → ℕ → ℕ → ℕ → ℕ
block_msg_no msg_no inorder i n =
    let plain = bit_or msg_no inorder in
    let begun = if i == 0 then bit_or plain 0x8000_0000 else plain in
    if i + 1 == n then bit_or begun 0x4000_0000 else begun

-- What the blocks of one call have in common.
pub record Message : Type 0 where
  pub bytes : List ℕ
  pub mss : ℕ
  pub msg_no : ℕ
  pub inorder : ℕ
  pub blocks : ℕ
  pub time : ℕ
  pub ttl : Option ℕ

-- Block `i`.
abbrev pub block : Message → ℕ → Block
block m i = record {
  payload = take m.mss (drop (i * m.mss) m.bytes);
  msg_no = block_msg_no m.msg_no m.inorder i m.blocks;
  origin_time = m.time;
  ttl = m.ttl;
}

-- The loop of addBuffer from block `i` on, at the position `p`; the first number counts the rounds.
unfoldable pub fill : ℕ → List Block → ℕ → Message → ℕ → List Block × ℕ
fill zero ring p m i = (ring, p)
fill (suc rounds) ring p m i = fill rounds (set ring p (block m i)) (next (length ring) p) m (i + 1)

abbrev pub following : ℕ → ℕ
following msg_no = if msg_no + 1 == max_msg_no then 1 else msg_no + 1

-- addBuffer with `room` made.
abbrev pub add_message : SndBuffer → Message → SndBuffer
add_message s m =
    let (ring, last) = fill m.blocks s.ring s.last m 0 in
    record s {
      ring = ring;
      last = last;
      count = s.count + m.blocks;
      next_msg_no = following s.next_msg_no;
    }

abbrev pub order_bit : Bool → ℕ
order_bit true = 0x2000_0000
order_bit false = 0

abbrev pub message : SndBuffer → List ℕ → Option ℕ → Bool → ℕ → Message
message s bytes ttl order now = record {
  bytes = bytes;
  mss = s.mss;
  msg_no = s.next_msg_no;
  inorder = order_bit order;
  blocks = block_count (length bytes) s.mss;
  time = now;
  ttl = ttl;
}

unfoldable pub add_buffer : SndBuffer → Bool → List ℕ → Option ℕ → Bool → ℕ → Option SndBuffer
add_buffer s memory bytes ttl order now =
    let n = block_count (length bytes) s.mss in
    if (if memory then false else leb s.size (n + s.count))
    then none
    else elim (make_room (suc (n + s.count)) s n) [
      | none ↦ none
      | some r ↦ some (add_message r (message s bytes ttl order now))
    ]

-- The overload for new data: the block's bytes and message number, `none` for the result 0.
unfoldable pub read_data : SndBuffer → SndBuffer × Option (List ℕ × ℕ)
read_data s =
    let b = get_or s.ring s.curr blank in
    if s.curr == s.last
    then (s, none)
    else (record s { curr = next (length s.ring) s.curr }, some (b.payload, b.msg_no))

unfoldable pub ack_data : SndBuffer → ℕ → SndBuffer
ack_data s offset =
    let n = length s.ring in
    let k = offset % n in
    record s {
      ring = drop k s.ring ++ take k s.ring;
      curr = (s.curr + n - k) % n;
      last = (s.last + n - k) % n;
      count = s.count - offset;
    }

unfoldable pub get_curr_buf_size : SndBuffer → ℕ
get_curr_buf_size s = s.count
