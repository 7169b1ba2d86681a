-- ===== src/SeqNo.antt =====
-- src/common.h, the classes CSeqNo, CAckNo and CMsgNo: numbers that wrap round at a power of two.
-- A sequence number is an int32_t that is never negative, here a number; a difference is an integer.
pub mod Offset
pub mod Walk
mod Tests
use udt_server.Base.{ℕ, ◌+◌, ◌-◌, ◌<◌, ◌^◌, ltb, leb, ◌==◌, if◌then◌else◌}
use udt_server.Base.Int.{ℤ, sub_ℕ, signed}

abbrev pub seq_no_th : ℕ
seq_no_th = 0x3fff_ffff

abbrev pub max_seq_no : ℕ
max_seq_no = 0x7fff_ffff

abbrev pub max_ack_seq_no : ℕ
max_ack_seq_no = 0x7fff_ffff

abbrev pub msg_no_th : ℕ
msg_no_th = 0xfff_ffff

abbrev pub max_msg_no : ℕ
max_msg_no = 0x1fff_ffff

-- abs(a - b)
abbrev pub distance : ℕ → ℕ → ℕ
distance a b = (a - b) + (b - a)

unfoldable pub seqcmp : ℕ → ℕ → ℤ
seqcmp a b = if ltb (distance a b) seq_no_th then sub_ℕ a b else sub_ℕ b a

-- The sum is an int: from a number round to the one before it, it is 2 ^ 31, which wraps round. A number
-- is at most `max_seq_no`, so that the subtractions never go below 0.
unfoldable pub seqlen : ℕ → ℕ → ℤ
seqlen a b = if leb a b then signed (b + 1 - a) else signed (b + max_seq_no + 2 - a)

unfoldable pub seqoff : ℕ → ℕ → ℤ
seqoff a b =
    if ltb (distance a b) seq_no_th
    then sub_ℕ b a
    else if ltb a b
    then sub_ℕ b (a + max_seq_no + 1)
    else sub_ℕ (b + max_seq_no + 1) a

unfoldable pub incseq : ℕ → ℕ
incseq a = if a == max_seq_no then 0 else a + 1

unfoldable pub decseq : ℕ → ℕ
decseq a = if a == 0 then max_seq_no else a - 1

-- The overload with an increment. The subtraction in the second branch never goes below 0.
unfoldable pub incseq_by : ℕ → ℕ → ℕ
incseq_by a inc = if leb inc (max_seq_no - a) then a + inc else a + inc - max_seq_no - 1

unfoldable pub incack : ℕ → ℕ
incack a = if a == max_ack_seq_no then 0 else a + 1

unfoldable pub msgcmp : ℕ → ℕ → ℤ
msgcmp a b = if ltb (distance a b) msg_no_th then sub_ℕ a b else sub_ℕ b a

unfoldable pub msglen : ℕ → ℕ → ℤ
msglen a b = if leb a b then sub_ℕ (b + 1) a else sub_ℕ (b + max_msg_no + 2) a

unfoldable pub msgoff : ℕ → ℕ → ℤ
msgoff a b =
    if ltb (distance a b) msg_no_th
    then sub_ℕ b a
    else if ltb a b
    then sub_ℕ b (a + max_msg_no + 1)
    else sub_ℕ (b + max_msg_no + 1) a

unfoldable pub incmsg : ℕ → ℕ
incmsg a = if a == max_msg_no then 0 else a + 1

-- A sequence number is an int32_t that is at least 0.
abbrev pub IsSeqNo : ℕ → Type 0
IsSeqNo a = a < 2 ^ 31
