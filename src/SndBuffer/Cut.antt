-- ===== src/SndBuffer/Cut.antt =====
-- How CSndBuffer::addBuffer (src/buffer.cpp) cuts the data, and the message number of each block.
use udt_server.Base.{
  ℕ, zero, suc, ◌+◌, ◌*◌, ◌/◌, ◌%◌, ◌≤◌, ◌<◌, ◌≡◌, refl, sym, ◌∙◌, ap, Bool, List, [], ◌∷◌, ◌++◌,
  Option, length, take, drop, arith, inl, inr, Bool-cases, length-take, length-drop, drop-drop,
  take-all, ==_iff, ◌==◌,
}
use udt_server.SndBuffer.{Block, SndBuffer, Message, block_count, block, message}
use udt_server.SndBuffer.Add.{blocks_from}
use native.Mathlib.Nat.{div-add-mod', mod-lt}

abbrev pub joined : List Block → List ℕ
joined [] = []
joined (b ∷ bs) = b.payload ++ joined bs

take_add {ℓ} :
    {A : Type ℓ} (a b : ℕ) (xs : List A) → take (a + b) xs ≡ take a xs ++ take b (drop a xs)
take_add zero b xs = ap (λ k. take k xs) {x = 0 + b} {y = b} (omega arith)
take_add (suc a) zero [] = ap (λ k. take k []) {x = suc a + 0} {y = suc (a + 0)} (omega arith)
take_add (suc a) (suc b) [] =
    ap (λ k. take k []) {x = suc a + suc b} {y = suc (a + suc b)} (omega arith)
take_add (suc a) b (x ∷ xs) =
    ap (λ k. take k (x ∷ xs)) {x = suc a + b} {y = suc (a + b)} (omega arith)
    ∙ ap (◌∷◌ x) (take_add a b xs)

joined-blocks_from :
    (m : Message) (i n : ℕ)
    → joined (blocks_from m i n) ≡ take (n * m.mss) (drop (i * m.mss) m.bytes)
joined-blocks_from m i zero =
    ap (λ k. take k (drop (i * m.mss) m.bytes)) {x = 0} {y = 0 * m.mss} (omega arith)
joined-blocks_from m i (suc n) =
    let here = drop (i * m.mss) m.bytes in
    ap (λ bs. take m.mss here ++ bs) (joined-blocks_from m (i + 1) n)
    ∙ ap (λ k. take m.mss here ++ take (n * m.mss) (drop k m.bytes)) {x = (i + 1) * m.mss}
        {y = i * m.mss + m.mss} (grind arith)
    ∙ ap (λ bs. take m.mss here ++ take (n * m.mss) bs) (sym (drop-drop m.mss (i * m.mss) m.bytes))
    ∙ sym (take_add m.mss (n * m.mss) here)
    ∙ ap (λ k. take k here) {x = m.mss + n * m.mss} {y = suc n * m.mss} (grind arith)

pub block_count_bounds :
    (len mss : ℕ)
    → 0 < mss
    → (len ≤ block_count len mss * mss) × (block_count len mss * mss < len + mss)
unfolding block_count
block_count_bounds len mss h = elim (Bool-cases (len % mss == 0)) [
  | inl e ↦
      let none_left = (==_iff (len % mss) 0).0 e in
      rw e (omega (arith, div-add-mod' len mss), omega (arith, div-add-mod' len mss))
  | inr e ↦
      let some_left : 0 < len % mss = ground arith in
      let one_more : (len / mss + 1) * mss ≡ len / mss * mss + mss = grind arith in
      rw e (
        omega (arith, one_more, div-add-mod' len mss, mod-lt len h),
        omega (arith, one_more, div-add-mod' len mss),
      )
]

-- A block before the last one is full, and no block is empty.
block_size :
    (m : Message) (i : ℕ)
    → 0 < m.mss
    → m.blocks ≡ block_count (length m.bytes) m.mss
    → i < m.blocks
    → (0 < length (block m i).payload) × (length (block m i).payload ≤ m.mss)
block_size m i h e hi =
    let bounds = block_count_bounds (length m.bytes) m.mss h in
    let before : (i + 1) * m.mss ≤ m.blocks * m.mss = grind arith in
    let one_more : (i + 1) * m.mss ≡ i * m.mss + m.mss = grind arith in
    let count : m.blocks * m.mss ≡ block_count (length m.bytes) m.mss * m.mss =
      ap (λ k. k * m.mss) e in
    let size = length-take m.mss (drop (i * m.mss) m.bytes) in
    let left = length-drop (i * m.mss) m.bytes in
    (omega (arith, bounds, before, one_more, count, size, left), omega (arith, size))

-- The blocks that addBuffer makes of the data, one after the other, are the data; each holds at
-- least one byte and at most as many as a packet takes.
pub blocks_lem :
    (s : SndBuffer) (bytes : List ℕ) (ttl : Option ℕ) (order : Bool) (now : ℕ)
    → 0 < s.mss
    → let m = message s bytes ttl order now in
      (joined (blocks_from m 0 m.blocks) ≡ bytes)
      × ((i : ℕ)
          → i < m.blocks
          → (0 < length (block m i).payload) × (length (block m i).payload ≤ s.mss))
blocks_lem s bytes ttl order now h =
    let m = message s bytes ttl order now in
    (
      joined-blocks_from m 0 m.blocks
          ∙ ap (λ k. take (m.blocks * s.mss) (drop k bytes)) {x = 0 * s.mss} {y = 0} (omega arith)
          ∙ take-all (m.blocks * s.mss) bytes ((block_count_bounds (length bytes) s.mss h).0),
      λ i hi. block_size m i h refl hi,
    )
