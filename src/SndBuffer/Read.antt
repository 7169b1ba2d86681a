-- ===== src/SndBuffer/Read.antt =====
-- CSndBuffer::readData and ackData (src/buffer.cpp): what is taken from the buffer, and dropped.
use udt_server.Base.{
  ℕ, zero, suc, ◌+◌, ◌-◌, ◌/◌, ◌%◌, ◌^◌, ◌≤◌, ◌<◌, ◌≡◌, ◌≢◌, ◌⊎◌, refl, sym, ◌∙◌, ap, Bool, false,
  ◌||◌, Option, none, some, List, [], ◌∷◌, ◌++◌, length, get_or, take, drop, arith, inl, inr, ltb,
  ◌==◌, if◌then◌else◌, length-append, length-take, length-drop, Bool-cases, ==_iff, drop-all,
  drop-drop, take-all,
}
use udt_server.SndBuffer.{Block, SndBuffer, blank, next, read_data, ack_data, get_curr_buf_size}
use udt_server.SndBuffer.Add.{contents, IsValid, take-append_left}
use native.Mathlib.Nat.{mod-eq_of_lt, mod-eq-sub-mod}

-- What readData(offset) answers: the block's data, or that the message has expired.
pub data Answer : Type 0 where
  block : List ℕ → ℕ → Answer
  expired : ℕ → ℕ → Answer

-- The loop over the other blocks of an expired message: m_pCurrBlock and msglen. It does not end
-- where every block of the circle has the number; then the result is `none`.
unfoldable pub skip : ℕ → List Block → ℕ → ℕ → ℕ → Bool → ℕ → Option (ℕ × ℕ)
skip zero ring msg_no p curr move len = none
skip (suc fuel) ring msg_no p curr move len =
    let n = length ring in
    let move' = (p == curr) || move in
    let curr' = if move' then next n p else curr in
    let rest = skip fuel ring msg_no (next n p) curr' move' (len + 1) in
    if msg_no == (get_or ring p blank).msg_no % 2 ^ 29 then rest else some (curr, len)

-- Whether a block has lived longer than its time, at the time `now`, a uint64_t.
abbrev pub is_expired : Block → ℕ → Bool
is_expired b now = elim b.ttl [
  | none ↦ false
  | some t ↦ ltb t ((now + 2 ^ 64 - b.origin_time) % 2 ^ 64 / 1000)
]

-- The overload for a lost packet, `offset` blocks behind the first.
unfoldable pub read_data_at : SndBuffer → ℕ → ℕ → Option (SndBuffer × Answer)
read_data_at s offset now =
    let n = length s.ring in
    let p = offset % n in
    let b = get_or s.ring p blank in
    let msg_no = b.msg_no % 2 ^ 29 in
    if is_expired b now
    then elim (skip (suc n) s.ring msg_no (next n p) s.curr false 1) [
      | none ↦ none
      | some (curr, len) ↦ some (record s { curr = curr }, expired msg_no len)
    ]
    else some (s, block b.payload b.msg_no)

-- The blocks that have never been read.
abbrev pub unread : SndBuffer → List Block
unread s = drop s.curr (contents s)

drop-get {ℓ} :
    {A : Type ℓ} (xs : List A) (i : ℕ) (d : A)
    → i < length xs
    → drop i xs ≡ get_or xs i d ∷ drop (suc i) xs
drop-get [] i d h = absurd (omega arith)
drop-get (x ∷ xs) zero d h = refl
drop-get (x ∷ xs) (suc i) d h = drop-get xs i d (omega arith)

get_or-take {ℓ} :
    {A : Type ℓ} (xs : List A) (n i : ℕ) (d : A) → i < n → get_or (take n xs) i d ≡ get_or xs i d
get_or-take [] zero i d h = refl
get_or-take [] (suc n) i d h = refl
get_or-take (x ∷ xs) zero i d h = absurd (omega arith)
get_or-take (x ∷ xs) (suc n) zero d h = refl
get_or-take (x ∷ xs) (suc n) (suc i) d h = get_or-take xs n i d (omega arith)

drop-take {ℓ} : {A : Type ℓ} (k n : ℕ) (xs : List A) → drop k (take n xs) ≡ take (n - k) (drop k xs)
drop-take zero n xs = ap (λ m. take m xs) {x = n} {y = n - 0} (omega arith)
drop-take (suc k) zero xs = ap (λ m. take m (drop (suc k) xs)) {x = 0} {y = 0 - suc k} (omega arith)
drop-take (suc k) (suc n) [] = sym (take-all (suc n - suc k) [] (omega arith))
drop-take (suc k) (suc n) (x ∷ xs) =
    drop-take k n xs ∙ ap (λ m. take m (drop k xs)) {x = n - k} {y = suc n - suc k} (omega arith)

differ : (a b : ℕ) → (a == b) ≡ false → a ≢ b
differ a b h = ground arith

next_before : (n p : ℕ) → p + 1 < n → next n p ≡ p + 1
next_before n p h = ground arith

-- A position `k` steps back, on a circle of `n`.
back : (n k p : ℕ) → p < n → k ≤ p → (p + n - k) % n ≡ p - k
back n k p h h' =
    mod-eq-sub-mod {n = p + n - k} {m = n} (omega arith)
    ∙ ap (λ m. m % n) {x = p + n - k - n} {y = p - k} (omega arith)
    ∙ mod-eq_of_lt (omega arith)

-- readData gives the blocks in order, each once: the first one never read before, or nothing when
-- there is none. The contents stay for retransmission.
pub read_data_lem :
    (s : SndBuffer)
    → IsValid s
    → IsValid ((read_data s).0)
      × (contents ((read_data s).0) ≡ contents s)
      × (((unread s ≡ []) × ((read_data s).1 ≡ none) × ((read_data s).0 ≡ s))
          ⊎ ((b : Block) × ((read_data s).1 ≡ some (b.payload, b.msg_no))
              × (unread s ≡ b ∷ unread ((read_data s).0))))
unfolding read_data
read_data_lem s v = elim (Bool-cases (s.curr == s.last)) [
  | inl e ↦
      rw (read_data, e)
        (
          v,
          refl,
          inl (
            drop-all s.curr (contents s)
                (omega (arith, length-take s.last s.ring, (==_iff s.curr s.last).0 e)),
            refl,
            refl,
          ),
        )
  | inr e ↦
      let apart : s.curr ≢ s.last = differ s.curr s.last e in
      let on : next (length s.ring) s.curr ≡ s.curr + 1 =
        next_before (length s.ring) s.curr (omega (arith, v.ringed, v.counted)) in
      let b = get_or s.ring s.curr blank in
      let whole = length-take s.last s.ring in
      rw (read_data, e, on)
        (
          record {
            ringed = v.ringed;
            counted = v.counted;
            room = v.room;
            read_up = omega arith;
            unit = v.unit;
            packet = v.packet;
          },
          refl,
          inr (
            b,
            refl,
            drop-get (contents s) s.curr blank (omega (arith, whole, v.ringed, v.counted))
                ∙ ap (λ x. x ∷ drop (suc s.curr) (contents s))
                    (get_or-take s.ring s.last s.curr blank (omega arith))
                ∙ ap (λ k. b ∷ drop k (contents s)) {x = suc s.curr} {y = s.curr + 1} (omega arith),
          ),
        )
]

-- Acknowledging some of the blocks that were read drops them from the front of the contents; the
-- blocks that were not read stay.
pub acknowledged :
    (s : SndBuffer) (offset : ℕ)
    → IsValid s
    → offset ≤ s.curr
    → IsValid (ack_data s offset)
      × (contents (ack_data s offset) ≡ drop offset (contents s))
      × (unread (ack_data s offset) ≡ unread s)
      × (get_curr_buf_size (ack_data s offset) + offset ≡ get_curr_buf_size s)
unfolding ack_data get_curr_buf_size
acknowledged s offset v h =
    let n = length s.ring in
    let small : offset % n ≡ offset = mod-eq_of_lt (omega (arith, v.ringed, v.counted)) in
    let curr = back n offset s.curr (omega (arith, v.ringed, v.counted)) h in
    let last = back n offset s.last (omega (arith, v.ringed, v.counted)) (omega arith) in
    let split = length-drop offset s.ring in
    let dropped : take (s.last - offset) (drop offset s.ring ++ take offset s.ring)
        ≡ drop offset (contents s) =
      take-append_left (s.last - offset) (drop offset s.ring) (take offset s.ring)
        (omega (arith, split, v.ringed, v.counted))
      ∙ sym (drop-take offset s.last s.ring) in
    rw (ack_data, small, curr, last)
      (
        record {
          ringed = omega (
            arith,
            v.ringed,
            length-append (drop offset s.ring) (take offset s.ring),
            split,
            length-take offset s.ring,
          );
          counted = omega (arith, v.counted);
          room = omega (arith, v.room);
          read_up = omega (arith, v.read_up);
          unit = v.unit;
          packet = v.packet;
        },
        dropped,
        ap (drop (s.curr - offset)) dropped
            ∙ drop-drop (s.curr - offset) offset (contents s)
            ∙ ap (λ k. drop k (contents s)) {x = offset + (s.curr - offset)} {y = s.curr}
                (omega arith),
        omega (arith, v.counted, v.read_up),
      )
