-- ===== src/LossList.antt =====
-- What src/list.cpp has twice, in CSndLossList and in CRcvLossList: runs of lost sequence numbers in
-- the nodes of a linked list, whose nodes stand in a circular array.
-- The node `i` holds the run from m_piData1[i] to m_piData2[i]; the second is -1 for a run of one
-- number. -1 is `none` throughout, in the arrays and in the links.

pub mod Chain
pub mod Shift
use udt_server.Base.{
  ℕ, ◌+◌, ◌-◌, ◌%◌, ltb, ◌==◌, if◌then◌else◌, Option, none, some, List, get_or, set,
}
use udt_server.Base.Int.{ℤ, pos_part, neg_part}

abbrev pub Slots : Type 0
Slots = List (Option ℕ)

abbrev pub read : Slots → ℕ → Option ℕ
read xs i = get_or xs i none

-- `if (seqno2 != seqno1) m_piData2[loc] = seqno2`
abbrev pub set_end : Slots → ℕ → ℕ → ℕ → Slots
set_end data2 loc a b = if b == a then data2 else set data2 loc (some b)

-- (head + offset) % size as C computes it, where a negative result is outside the array.
abbrev pub slot_at : ℕ → ℤ → ℕ → Option ℕ
slot_at head offset size =
    if ltb (head + pos_part offset) (neg_part offset)
    then (if (neg_part offset - head - pos_part offset) % size == 0 then some 0 else none)
    else some ((head + pos_part offset - neg_part offset) % size)
