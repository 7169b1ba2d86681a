-- ===== src/SndBuffer/Add.antt =====
-- CSndBuffer::addBuffer (src/buffer.cpp): the contents of the buffer, and the room made for more.
use udt_server.Base.{
  ℕ, zero, suc, ◌+◌, ◌≤◌, ◌<◌, ◌≡◌, refl, sym, ◌∙◌, ap, Bool, true, false, Option, some, List, [],
  ◌∷◌, ◌++◌, length, set, take, drop, replicate, arith, inl, inr, Bool-cases, length-append,
  length-take, length-drop, length-replicate, length-set, ltb, leb, leb→le,
}
use udt_server.SndBuffer.{
  Block, SndBuffer, Message, blank, next, increase, make_room, block, fill, message, add_message,
  add_buffer,
}
use mathlib.Core.List.{append_assoc, append-nil}

-- The blocks with data that is not acknowledged, the oldest first.
abbrev pub contents : SndBuffer → List Block
contents s = take s.last s.ring

pub record IsValid (s : SndBuffer) : Type 0 where
  pub ringed : length s.ring ≡ s.size
  pub counted : s.last ≡ s.count
  pub room : s.count < s.size
  pub read_up : s.curr ≤ s.last
  pub unit : 0 < s.unit_size
  pub packet : 0 < s.mss

-- The blocks from `i` on, `n` of them.
abbrev pub blocks_from : Message → ℕ → ℕ → List Block
blocks_from m i zero = []
blocks_from m i (suc n) = block m i ∷ blocks_from m (i + 1) n

pub take-append_left {ℓ} :
    {A : Type ℓ} (n : ℕ) (xs ys : List A) → n ≤ length xs → take n (xs ++ ys) ≡ take n xs
take-append_left zero xs ys h = refl
take-append_left (suc n) [] ys h = absurd (omega arith)
take-append_left (suc n) (x ∷ xs) ys h = ap (◌∷◌ x) (take-append_left n xs ys (omega arith))

take-take-suc {ℓ} : {A : Type ℓ} (n : ℕ) (xs : List A) → take n (take (suc n) xs) ≡ take n xs
take-take-suc zero xs = refl
take-take-suc (suc n) [] = refl
take-take-suc (suc n) (x ∷ xs) = ap (◌∷◌ x) (take-take-suc n xs)

take-set {ℓ} :
    {A : Type ℓ} (xs : List A) (p : ℕ) (v : A)
    → p < length xs
    → take (suc p) (set xs p v) ≡ take p xs ++ v ∷ []
take-set [] p v h = absurd (omega arith)
take-set (x ∷ xs) zero v h = refl
take-set (x ∷ xs) (suc p) v h = ap (◌∷◌ x) (take-set xs p v (omega arith))

-- The loop writes the blocks one after the other, as long as it does not come to the ring's end.
fill_lem :
    (n : ℕ) (ring : List Block) (p : ℕ) (m : Message) (i : ℕ)
    → p + n < length ring
    → (length ((fill n ring p m i).0) ≡ length ring)
      × ((fill n ring p m i).1 ≡ p + n)
      × (take (p + n) ((fill n ring p m i).0) ≡ take p ring ++ blocks_from m i n)
unfolding fill
fill_lem zero ring p m i h = (
  refl,
  omega arith,
  ap (λ k. take k ring) {x = p + 0} {y = p} (omega arith) ∙ sym (append-nil (take p ring)),
)
fill_lem (suc n) ring p m i h =
    let ring' = set ring p (block m i) in
    let on : next (length ring) p ≡ suc p = ground arith in
    let same : length ring' ≡ length ring = length-set ring p (block m i) in
    let (sized, ended, filled) = fill_lem n ring' (suc p) m (i + 1) (omega (arith, same)) in
    rw (fill, on)
      (
        sized ∙ same,
        omega (arith, ended),
        ap (λ k. take k ((fill n ring' (suc p) m (i + 1)).0)) {x = p + suc n} {y = suc p + n}
              (omega arith)
            ∙ filled
            ∙ ap (λ bs. bs ++ blocks_from m (i + 1) n) (take-set ring p (block m i) (omega arith))
            ∙ append_assoc (take p ring) (block m i ∷ []) (blocks_from m (i + 1) n),
      )

-- What a call for room leaves: as before, with enough free blocks.
pub record HasRoom (s s' : SndBuffer) (n : ℕ) : Type 0 where
  pub valid : IsValid s'
  pub same : contents s' ≡ contents s
  pub same_last : s'.last ≡ s.last
  pub same_count : s'.count ≡ s.count
  pub same_curr : s'.curr ≡ s.curr
  pub same_mss : s'.mss ≡ s.mss
  pub same_msg_no : s'.next_msg_no ≡ s.next_msg_no
  pub enough : n + s'.count < s'.size

increase_lem :
    (s : SndBuffer)
    → IsValid s
    → HasRoom s (increase s) 0 × ((increase s).size ≡ s.size + s.unit_size)
unfolding increase
increase_lem s v =
    let n = s.unit_size in
    let kept : ltb s.last s.curr ≡ false = ground arith in
    let sizes : length (take (s.last + 1) s.ring ++ (replicate n blank ++ drop (s.last + 1) s.ring))
        ≡ length s.ring + n =
      omega (
        arith,
        length-append (take (s.last + 1) s.ring) (replicate n blank ++ drop (s.last + 1) s.ring),
        length-append (replicate n blank) (drop (s.last + 1) s.ring),
        length-replicate n blank,
        length-take (s.last + 1) s.ring,
        length-drop (s.last + 1) s.ring,
        v.ringed,
      ) in
    let valid : IsValid (increase s) = record {
      ringed = omega (arith, sizes, v.ringed);
      counted = v.counted;
      room = omega arith;
      read_up = rw kept (v.read_up);
      unit = v.unit;
      packet = v.packet;
    } in
    (
      record {
        valid = valid;
        same =
            take-append_left s.last (take (s.last + 1) s.ring)
              (replicate n blank ++ drop (s.last + 1) s.ring)
              (omega (arith, length-take (s.last + 1) s.ring))
            ∙ ap (λ k. take s.last (take k s.ring)) {x = s.last + 1} {y = suc s.last} (omega arith)
            ∙ take-take-suc s.last s.ring;
        same_last = refl;
        same_count = refl;
        same_curr = rw kept refl;
        same_mss = refl;
        same_msg_no = refl;
        enough = omega arith;
      },
      refl,
    )

leb-false : {a b : ℕ} → leb a b ≡ false → b < a
leb-false h = ground arith

pub make_room_lem :
    (fuel : ℕ) (s : SndBuffer) (n : ℕ)
    → IsValid s
    → n + s.count + 1 < fuel + s.size
    → 0 < fuel
    → (s' : SndBuffer) × (make_room fuel s n ≡ some s') × HasRoom s s' n
unfolding make_room
make_room_lem zero s n v h pos = absurd (omega arith)
make_room_lem (suc fuel) s n v h pos = elim (Bool-cases (leb s.size (n + s.count))) [
  | inr k ↦ (
    s,
    rw k refl,
    record {
      valid = v;
      same = refl;
      same_last = refl;
      same_count = refl;
      same_curr = refl;
      same_mss = refl;
      same_msg_no = refl;
      enough = leb-false k;
    },
  )
  | inl k ↦
      let (grown, more) = increase_lem s v in
      let below = leb→le s.size (n + s.count) k in
      let (s', made, room) =
        make_room_lem fuel (increase s) n (grown.valid)
          (omega (arith, more, grown.same_count, v.unit)) (omega arith) in
      (
        s',
        rw k made,
        record {
          valid = room.valid;
          same = room.same ∙ grown.same;
          same_last = room.same_last ∙ grown.same_last;
          same_count = room.same_count ∙ grown.same_count;
          same_curr = room.same_curr ∙ grown.same_curr;
          same_mss = room.same_mss ∙ grown.same_mss;
          same_msg_no = room.same_msg_no ∙ grown.same_msg_no;
          enough = room.enough;
        },
      )
]

add_message_lem :
    (r : SndBuffer) (m : Message)
    → IsValid r
    → m.blocks + r.count < r.size
    → IsValid (add_message r m)
      × (contents (add_message r m) ≡ contents r ++ blocks_from m 0 m.blocks)
add_message_lem r m v h =
    let (sized, ended, filled) =
      fill_lem m.blocks r.ring r.last m 0 (omega (arith, v.ringed, v.counted)) in
    (
      record {
        ringed = sized ∙ v.ringed;
        counted = omega (arith, ended, v.counted);
        room = omega arith;
        read_up = omega (arith, ended, v.read_up);
        unit = v.unit;
        packet = v.packet;
      },
      ap (λ k. take k ((fill m.blocks r.ring r.last m 0).0)) ended ∙ filled,
    )

-- All that addBuffer does where there is memory.
pub add_buffer_all :
    (s : SndBuffer) (bytes : List ℕ) (ttl : Option ℕ) (order : Bool) (now : ℕ)
    → IsValid s
    → let m = message s bytes ttl order now in
      (s' : SndBuffer) × (add_buffer s true bytes ttl order now ≡ some s')
      × IsValid s'
      × (contents s' ≡ contents s ++ blocks_from m 0 m.blocks)
      × (s'.curr ≡ s.curr)
      × (s'.count ≡ s.count + m.blocks)
      × (s'.mss ≡ s.mss)
unfolding add_buffer
add_buffer_all s bytes ttl order now v =
    let m = message s bytes ttl order now in
    let (r, made, room) =
      make_room_lem (suc (m.blocks + s.count)) s m.blocks v (omega arith) (omega arith) in
    let (valid, filled) = add_message_lem r m (room.valid) (room.enough) in
    (
      add_message r m,
      rw made refl,
      valid,
      filled ∙ ap (λ bs. bs ++ blocks_from m 0 m.blocks) (room.same),
      room.same_curr,
      omega (arith, room.same_count),
      room.same_mss,
    )

-- Whatever the length of the data, addBuffer finds room where there is memory, and puts the blocks
-- of the data behind those that are there; what is sent of these stays sent. The block and message
-- counts go on.
pub add_buffer_lem :
    (s : SndBuffer) (bytes : List ℕ) (ttl : Option ℕ) (order : Bool) (now : ℕ)
    → IsValid s
    → let m = message s bytes ttl order now in
      (s' : SndBuffer) × (add_buffer s true bytes ttl order now ≡ some s')
      × IsValid s'
      × (contents s' ≡ contents s ++ blocks_from m 0 m.blocks)
      × (s'.curr ≡ s.curr)
      × (s'.count ≡ s.count + m.blocks)
add_buffer_lem s bytes ttl order now v =
    let (s', e, valid, filled, curr, count, mss) = add_buffer_all s bytes ttl order now v in
    (s', e, valid, filled, curr, count)
