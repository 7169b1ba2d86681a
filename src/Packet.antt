-- ===== src/Packet.antt =====
-- src/packet.h and src/packet.cpp, the class CPacket: the header words of data and control packets.
-- A header word is a uint32_t, here a number below 2 ^ 32; `x & (2 ^ k - 1)` is written `x % 2 ^ k`
-- and `x >> k` is written `x / 2 ^ k`. Bytes are numbers, and a pointer is an option. For a
-- control packet, the numbers that a pointer leads to are the words of 32 bits.
pub mod Control
mod Tests
use Prim.Native.Nat.{bit_or}
use udt_server.Base.{
  ℕ, ◌+◌, ◌*◌, ◌/◌, ◌%◌, ◌^◌, Bool, Option, none, some, List, [], ◌∷◌, ◌==◌, if◌then◌else◌, take,
}

-- What m_PacketVector[1].iov_base points to: nothing, the packet's own padding word, or data.
pub data Field : Type 0 where
  nothing pad : Field
  block : List ℕ → Field

-- `length` is m_PacketVector[1].iov_len. The header's words have the names of their aliases.
pub record Packet : Type 0 where
  pub seq_no : ℕ
  pub msg_no : ℕ
  pub time_stamp : ℕ
  pub id : ℕ
  pub content : Field
  pub len : ℕ

abbrev pub pkt_hdr_size : ℕ
pkt_hdr_size = 16

unfoldable pub create : Packet
create = record { seq_no = 0; msg_no = 0; time_stamp = 0; id = 0; content = nothing; len = 0 }

unfoldable pub set_length : Packet → ℕ → Packet
set_length p n = record p { len = n }

-- The control information of a packet that carries none: four bytes of padding.
abbrev pub padded : Packet → Packet
padded p = record p { content = pad; len = 4 }

abbrev pub carrying : Packet → Option (List ℕ) → ℕ → Packet
carrying p none size = record p { content = nothing; len = size }
carrying p (some bytes) size = record p { content = block bytes; len = size }

-- *(int32_t *)lparam into the second header word; `none` is the read through a null pointer.
abbrev pub with_info : Option ℕ → Packet → Option Packet
with_info none p = none
with_info (some word) p = some (record p { msg_no = word })

abbrev extended : Option ℕ → Option (List ℕ) → ℕ → Packet → Option Packet
extended none rparam size p = none
extended (some word) none size p = some (padded (record p { seq_no = bit_or p.seq_no word }))
extended (some word) (some bytes) size p =
    some (record p { seq_no = bit_or p.seq_no word; content = block bytes; len = size })

abbrev ack_info : Option ℕ → Packet → Packet
ack_info none p = p
ack_info (some word) p = record p { msg_no = word }

-- CPacket::pack; `none` is a null pointer that is read.
unfoldable pub pack : Packet → ℕ → Option ℕ → Option (List ℕ) → ℕ → Option Packet
pack p0 pkttype lparam rparam size =
    let p = record p0 { seq_no = bit_or 0x8000_0000 (pkttype * 2 ^ 16 % 2 ^ 32) } in
    if pkttype == 2
    then some (carrying (ack_info lparam p) rparam size)
    else if pkttype == 6
    then with_info lparam (padded p)
    else if pkttype == 3
    then some (carrying p rparam size)
    else if pkttype == 4
    then some (padded p)
    else if pkttype == 1
    then some (padded p)
    else if pkttype == 0
    then some (carrying p rparam size)
    else if pkttype == 5
    then some (padded p)
    else if pkttype == 7
    then with_info lparam (carrying p rparam size)
    else if pkttype == 8
    then with_info lparam (padded p)
    else if pkttype == 32767
    then extended lparam rparam size p
    else some p

unfoldable pub get_flag : Packet → ℕ
get_flag p = p.seq_no / 2 ^ 31

unfoldable pub get_type : Packet → ℕ
get_type p = p.seq_no / 2 ^ 16 % 2 ^ 15

unfoldable pub get_extended_type : Packet → ℕ
get_extended_type p = p.seq_no % 2 ^ 16

unfoldable pub get_ack_seq_no : Packet → ℕ
get_ack_seq_no p = p.msg_no

unfoldable pub get_msg_boundary : Packet → ℕ
get_msg_boundary p = p.msg_no / 2 ^ 30

unfoldable pub get_msg_order_flag : Packet → Bool
get_msg_order_flag p = p.msg_no / 2 ^ 29 % 2 == 1

unfoldable pub get_msg_seq : Packet → ℕ
get_msg_seq p = p.msg_no % 2 ^ 29

-- The copy of the first `n` bytes of what a field points to.
abbrev pub copied : Field → ℕ → Field
copied nothing n = nothing
copied pad n = pad
copied (block bytes) n = block (take n bytes)

-- CPacket::clone copies the header and `len` bytes of the field into a new packet.
unfoldable pub clone : Packet → Packet
clone p = record p { content = copied p.content p.len }
