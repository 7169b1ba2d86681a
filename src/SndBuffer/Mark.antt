-- ===== src/SndBuffer/Mark.antt =====
-- The message numbers that CSndBuffer::addBuffer (src/buffer.cpp) writes, as CPacket (src/packet.cpp)
-- reads them.
use Prim.Native.Nat.{bit_or}
use udt_server.Base.{
  ℕ, ◌+◌, ◌*◌, ◌/◌, ◌%◌, ◌^◌, ◌<◌, ◌≡◌, ◌∙◌, ap₂, ap, Bool, true, false, arith, inl, inr,
  Bool-cases, ◌==◌,
}
use udt_server.Base.Bits.{bit_or-split, bit_or-zero, zero-bit_or}
use udt_server.Packet.{Packet, get_msg_seq, get_msg_order_flag, get_msg_boundary}
use udt_server.SndBuffer.{block_msg_no, order_bit}

-- A bit above a number.
or_above : (k x : ℕ) → x < 2 ^ k → bit_or x (2 ^ k) ≡ x + 2 ^ k
or_above k x h =
    ap₂ bit_or {x = x} {y = 0 * 2 ^ k + x} {u = 2 ^ k} {v = 1 * 2 ^ k + 0} (omega arith)
      (omega arith)
    ∙ bit_or-split k 0 1 x 0 h (omega arith)
    ∙ omega (arith, bit_or-zero x, zero-bit_or 1)

or_last : (x : ℕ) → x < 2 ^ 30 → bit_or (x + 2 ^ 31) (2 ^ 30) ≡ x + 2 ^ 31 + 2 ^ 30
or_last x h =
    ap₂ bit_or {x = x + 2 ^ 31} {y = 2 * 2 ^ 30 + x} {u = 2 ^ 30} {v = 1 * 2 ^ 30 + 0} (omega arith)
      (omega arith)
    ∙ bit_or-split 30 2 1 x 0 h (omega arith)
    ∙ omega (arith, bit_or-zero x)

or_order : (n : ℕ) (order : Bool) → n < 2 ^ 29 → bit_or n (order_bit order) ≡ n + order_bit order
or_order n true h = or_above 29 n h
or_order n false h = bit_or-zero n ∙ omega arith

abbrev pub mark : Bool → ℕ → ℕ
mark true n = n
mark false n = 0

order_small : (n : ℕ) (order : Bool) → n < 2 ^ 29 → n + order_bit order < 2 ^ 30
order_small n true h = omega arith
order_small n false h = omega arith

block_msg_no-sum :
    (n i blocks : ℕ) (order : Bool)
    → n < 2 ^ 29
    → block_msg_no n (order_bit order) i blocks
      ≡ n + order_bit order + mark (i == 0) (2 ^ 31) + mark (i + 1 == blocks) (2 ^ 30)
unfolding block_msg_no
block_msg_no-sum n i blocks order h =
    let plain = or_order n order h in
    let small : n + order_bit order < 2 ^ 30 = order_small n order h in
    elim (Bool-cases (i == 0)) [
      | inl a ↦ elim (Bool-cases (i + 1 == blocks)) [
        | inl b ↦
            rw (a, b, plain, or_above 31 (n + order_bit order) (omega arith))
              (or_last (n + order_bit order) small)
        | inr b ↦ rw (a, b, plain, or_above 31 (n + order_bit order) (omega arith)) (omega arith)
      ]
      | inr a ↦ elim (Bool-cases (i + 1 == blocks)) [
        | inl b ↦ rw (a, b, plain, or_above 30 (n + order_bit order) small) (omega arith)
        | inr b ↦ rw (a, b, plain) (omega arith)
      ]
    ]

fields :
    (n : ℕ) (order first last : Bool)
    → n < 2 ^ 29
    → let w = n + order_bit order + mark first (2 ^ 31) + mark last (2 ^ 30) in
      (w % 2 ^ 29 ≡ n) × ((w / 2 ^ 29 % 2 == 1) ≡ order) × (w / 2 ^ 30 ≡ mark first 2 + mark last 1)
fields n true true true h = ground arith
fields n true true false h = ground arith
fields n true false true h = ground arith
fields n true false false h = ground arith
fields n false true true h = ground arith
fields n false true false h = ground arith
fields n false false true h = ground arith
fields n false false false h = ground arith

-- A packet that carries block `i` of a message of so many blocks says so: its message number and
-- order flag are the message's, and its boundary is 2 for the first block, 1 for the last, 3 for
-- an only one, and 0 for one between them.
pub get_msg-block :
    (p : Packet) (n i blocks : ℕ) (order : Bool)
    → n < 2 ^ 29
    → p.msg_no ≡ block_msg_no n (order_bit order) i blocks
    → (get_msg_seq p ≡ n)
      × (get_msg_order_flag p ≡ order)
      × (get_msg_boundary p ≡ mark (i == 0) 2 + mark (i + 1 == blocks) 1)
unfolding get_msg_seq get_msg_order_flag get_msg_boundary
get_msg-block p n i blocks order h e =
    let word = e ∙ block_msg_no-sum n i blocks order h in
    let (seq, flag, bounds) = fields n order (i == 0) (i + 1 == blocks) h in
    (
      ap (λ w. w % 2 ^ 29) word ∙ seq,
      ap (λ w. w / 2 ^ 29 % 2 == 1) word ∙ flag,
      ap (λ w. w / 2 ^ 30) word ∙ bounds,
    )
