-- ===== src/Packet/Control.antt =====
-- CPacket::pack (src/packet.cpp): what the getters read from a control packet.
use Prim.Native.Nat.{bit_or}
use udt_server.Base.{
  ℕ, ◌+◌, ◌*◌, ◌%◌, ◌<◌, ◌^◌, ◌≡◌, ◌∙◌, List, Option, none, some, arith, ◌⊎◌, ◌↔◌,
}
use udt_server.Base.Bits.{bit_or-split, zero-bit_or}
use udt_server.Packet.{
  Packet, pad, block, pack, get_flag, get_type, get_extended_type, get_ack_seq_no,
}

control_word :
    (t : ℕ) → t < 2 ^ 15 → bit_or 0x8000_0000 (t * 2 ^ 16 % 2 ^ 32) ≡ 0x8000_0000 + t * 2 ^ 16
control_word t h =
    let whole : t * 2 ^ 16 % 2 ^ 32 ≡ 0 * 2 ^ 31 + t * 2 ^ 16 = omega arith in
    rw whole (
      bit_or-split 31 1 0 0 (t * 2 ^ 16) (omega arith) (omega arith)
      ∙ omega (arith, zero-bit_or (t * 2 ^ 16)))

pack_word :
    (p : Packet) (t : ℕ) (lparam : Option ℕ) (rparam : Option (List ℕ)) (size : ℕ) {q : Packet}
    → t < 32767
    → pack p t lparam rparam size ≡ some q
    → q.seq_no ≡ bit_or 0x8000_0000 (t * 2 ^ 16 % 2 ^ 32)
unfolding pack
pack_word p t none none size h e = ground arith
pack_word p t none (some b) size h e = ground arith
pack_word p t (some a) none size h e = ground arith
pack_word p t (some a) (some b) size h e = ground arith

-- A packed control packet of a type below 0x7FFF has its flag bit set, has the type that was asked
-- for, and has no extended type.
pub get_type-pack :
    (p : Packet) (t : ℕ) (lparam : Option ℕ) (rparam : Option (List ℕ)) (size : ℕ) {q : Packet}
    → t < 32767
    → pack p t lparam rparam size ≡ some q
    → (get_flag q ≡ 1) × (get_type q ≡ t) × (get_extended_type q ≡ 0)
unfolding get_flag get_type get_extended_type
get_type-pack p t lparam rparam size h e =
    omega (arith, pack_word p t lparam rparam size h e, control_word t (omega arith))

-- A user defined packet has type 0x7FFF, and its extended type is the number at `lparam`.
pub get_extended_type-pack :
    (p : Packet) (kind : ℕ) (rparam : Option (List ℕ)) (size : ℕ) {q : Packet}
    → kind < 2 ^ 16
    → pack p 32767 (some kind) rparam size ≡ some q
    → (get_flag q ≡ 1) × (get_type q ≡ 32767) × (get_extended_type q ≡ kind)
unfolding pack get_flag get_type get_extended_type
get_extended_type-pack p kind none size h e =
    ground (arith, bit_or-split 16 0xffff 0 0 kind (omega arith) h, zero-bit_or kind)
get_extended_type-pack p kind (some b) size h e =
    ground (arith, bit_or-split 16 0xffff 0 0 kind (omega arith) h, zero-bit_or kind)

-- `pack` reads through a null `lparam` exactly for the types whose additional information is not
-- optional: ACK-2, drop request, error signal and user defined.
pub pack-eq-none :
    (p : Packet) (t : ℕ) (lparam : Option ℕ) (rparam : Option (List ℕ)) (size : ℕ)
    → (pack p t lparam rparam size ≡ none)
      ↔ ((lparam ≡ none) × ((t ≡ 6) ⊎ (t ≡ 7) ⊎ (t ≡ 8) ⊎ (t ≡ 32767)))
unfolding pack
pack-eq-none p t none none size = ground arith
pack-eq-none p t none (some b) size = ground arith
pack-eq-none p t (some a) none size = ground arith
pack-eq-none p t (some a) (some b) size = ground arith

-- Which of the getters read back the arguments: an ACK, a drop request, an error signal and an
-- ACK-2 carry the number at `lparam`; the types with no control information carry four bytes of
-- padding, and the others the `size` bytes at `rparam`.
pub pack_carries :
    (p : Packet) (t word : ℕ) (bytes : List ℕ) (size : ℕ) {q : Packet}
    → t < 9
    → pack p t (some word) (some bytes) size ≡ some q
    → (((t ≡ 2) ⊎ (t ≡ 6) ⊎ (t ≡ 7) ⊎ (t ≡ 8)) → get_ack_seq_no q ≡ word)
      × (((t ≡ 0) ⊎ (t ≡ 2) ⊎ (t ≡ 3) ⊎ (t ≡ 7)) → (q.content ≡ block bytes) × (q.len ≡ size))
      × (((t ≡ 1) ⊎ (t ≡ 4) ⊎ (t ≡ 5) ⊎ (t ≡ 6) ⊎ (t ≡ 8)) → (q.content ≡ pad) × (q.len ≡ 4))
      × (q.time_stamp ≡ p.time_stamp)
      × (q.id ≡ p.id)
unfolding pack get_ack_seq_no
pack_carries p t word bytes size h e = ground arith
