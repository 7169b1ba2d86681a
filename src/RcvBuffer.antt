-- ===== src/RcvBuffer.antt =====
-- src/buffer.h and src/buffer.cpp, the class CRcvBuffer: the received packets, in a circular array
-- of pointers to units of the unit queue.
-- A unit is a number. Its m_iFlag, its packet's data and its packet's m_iMsgNo are functions of it;
-- CPacket::getLength is the length of the data. `used` is CUnitQueue::m_iCount, an int as its bit
-- pattern. A null pointer is `none`, and so is the result of a call that reads through one.
pub mod Stream
pub mod Round
pub mod Read
pub mod Fill
pub mod Ack
pub mod Drop
pub mod Message
pub mod Scan
pub mod Deliver
mod Tests
use udt_server.Base.{
  ℕ, zero, suc, ◌+◌, ◌-◌, ◌%◌, ◌^◌, Bool, ◌||◌, ◌&&◌, not, Option, none, some, List, [], ◌++◌, ltb,
  leb, ◌==◌, if◌then◌else◌, length, get_or, set, take, drop, replicate,
}

pub record RcvBuffer : Type 0 where
  pub unit : List (Option ℕ)
  pub size : ℕ
  pub start_pos : ℕ
  pub last_ack_pos : ℕ
  pub max_pos : ℕ
  pub notch : ℕ
  pub flag : ℕ → ℕ
  pub payload : ℕ → List ℕ
  pub msg_no : ℕ → ℕ
  pub used : ℕ

-- `++` and `--` of an int.
abbrev pub increment : ℕ → ℕ
increment n = (n + 1) % 2 ^ 32

abbrev pub decrement : ℕ → ℕ
decrement n = (n + 2 ^ 32 - 1) % 2 ^ 32

abbrev pub set_flag : (ℕ → ℕ) → ℕ → ℕ → ℕ → ℕ
set_flag flag u f v = if u == v then f else flag v

-- `++ p`, back to 0 at the end of the array.
abbrev pub next : ℕ → ℕ → ℕ
next size p = if p + 1 == size then 0 else p + 1

-- A unit goes back to the unit queue.
abbrev pub release : RcvBuffer → ℕ → ℕ → RcvBuffer
release b p u = record b {
  unit = set b.unit p none;
  flag = set_flag b.flag u 0;
  used = decrement b.used;
}

-- The result is `true` for 0 and `false` for -1, a repeated packet.
unfoldable pub add_data : RcvBuffer → ℕ → ℕ → RcvBuffer × Bool
add_data b u offset =
    let pos = (b.last_ack_pos + offset) % b.size in
    let seen = record b { max_pos = if ltb b.max_pos offset then offset else b.max_pos } in
    elim (get_or b.unit pos none) [
      | some v ↦ (seen, Bool.false)
      | none ↦ (
        record seen {
          unit = set b.unit pos (some u);
          flag = set_flag b.flag u 1;
          used = increment b.used;
        },
        Bool.true,
      )
    ]

-- What the loop of readBuffer leaves: the buffer, `p`, the bytes copied and `rs`.
pub record Reading : Type 0 where
  pub buffer : RcvBuffer
  pub p : ℕ
  pub bytes : List ℕ
  pub rs : ℕ

-- The bytes of a round come before those of the later ones.
abbrev pub prepend : List ℕ → Option Reading → Option Reading
prepend chunk none = none
prepend chunk (some r) = some (record r { bytes = chunk ++ r.bytes })

abbrev pub chunk_size : ℕ → ℕ → ℕ
chunk_size whole rs = if ltb rs whole then rs else whole

-- One round of the loop for the unit `u` at `p`: the unit is used up, or the notch moves on.
abbrev pub is_used_up : ℕ → ℕ → Bool
is_used_up whole rs = ltb (chunk_size whole rs) rs || rs == whole

abbrev pub after_chunk : RcvBuffer → ℕ → ℕ → ℕ → RcvBuffer
after_chunk b p u rs =
    if is_used_up (length (b.payload u) - b.notch) rs
    then record (release b p u) { notch = 0 }
    else (record b { notch = b.notch + rs })

abbrev pub after_pos : RcvBuffer → ℕ → ℕ → ℕ → ℕ
after_pos b p u rs = if is_used_up (length (b.payload u) - b.notch) rs then next b.size p else p

-- `none` is a read through a null pointer, or that the fuel is spent.
unfoldable pub read_loop : ℕ → RcvBuffer → ℕ → ℕ → Option Reading
read_loop zero b p rs = none
read_loop (suc fuel) b p rs =
    if p == b.last_ack_pos || rs == 0
    then some (record { buffer = b; p = p; bytes = []; rs = rs })
    else elim (get_or b.unit p none) [
      | none ↦ none
      | some u ↦
          let n = chunk_size (length (b.payload u) - b.notch) rs in
          let chunk = take n (drop b.notch (b.payload u)) in
          prepend chunk (read_loop fuel (after_chunk b p u rs) (after_pos b p u rs) (rs - n))
    ]

-- The new buffer, the bytes written to `data` and the returned length. The loop goes round at most
-- `size` times before `p` is back where it started.
unfoldable pub read_buffer : RcvBuffer → ℕ → Option (RcvBuffer × List ℕ × ℕ)
read_buffer b len = elim (read_loop (suc b.size) b b.start_pos len) [
  | none ↦ none
  | some r ↦ some (record r.buffer { start_pos = r.p }, r.bytes, len - r.rs)
]

-- m_iMaxPos is set to 0 where the subtraction would take it below; `-` on numbers stops there.
unfoldable pub ack_data : RcvBuffer → ℕ → RcvBuffer
ack_data b len = record b {
  last_ack_pos = (b.last_ack_pos + len) % b.size;
  max_pos = b.max_pos - len;
}

unfoldable pub get_rcv_data_size : RcvBuffer → ℕ
get_rcv_data_size b =
    if leb b.start_pos b.last_ack_pos
    then b.last_ack_pos - b.start_pos
    else b.size + b.last_ack_pos - b.start_pos

unfoldable pub get_avail_buf_size : RcvBuffer → ℕ
get_avail_buf_size b = b.size - get_rcv_data_size b - 1

-- The loop of dropMsg, from `i` up to but not including `n`.
unfoldable pub drop_loop : ℕ → RcvBuffer → ℕ → ℕ → ℕ → RcvBuffer
drop_loop zero b m i n = b
drop_loop (suc fuel) b m i n =
    let marked : RcvBuffer = elim (get_or b.unit i none) [
      | none ↦ b
      | some u ↦ if m == b.msg_no u then record b { flag = set_flag b.flag u 3 } else b
    ] in
    let rest = drop_loop fuel marked m ((i + 1) % b.size) n in if i == n then b else rest

unfoldable pub drop_msg : RcvBuffer → ℕ → RcvBuffer
drop_msg b m = drop_loop b.size b m b.start_pos ((b.last_ack_pos + b.max_pos) % b.size)
