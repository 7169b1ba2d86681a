-- ===== src/SndBuffer/File.antt =====
-- CSndBuffer::addBufferFromFile (src/buffer.cpp), which takes the data from a file.
-- The file is the list of the bytes that are left and whether the stream is still good: a read
-- that gets fewer bytes than it asks for leaves it so no longer, as the standard says.
use udt_server.Base.{
  ℕ, zero, suc, ◌+◌, ◌-◌, ◌*◌, ◌≤◌, ◌<◌, ◌≡◌, refl, ap, sym, Bool, true, false, Option, none, some,
  List, length, get_or, set, take, drop, arith, inl, inr, ltb, leb, ◌==◌, if◌then◌else◌, min, ◌∙◌,
  length-take, length-drop, Bool-cases, ==_iff, length-set,
}
use native.Mathlib.Decide.{dec_lt}
use udt_server.SndBuffer.{
  Block, SndBuffer, blank, next, make_room, block_count, block_msg_no, following, order_bit,
}
use udt_server.SndBuffer.Add.{IsValid, make_room_lem}
use udt_server.SndBuffer.Cut.{block_count_bounds}

pub record FileRead : Type 0 where
  pub ring : List Block
  pub last : ℕ
  pub total : ℕ
  pub rest : List ℕ
  pub good : Bool

abbrev pub packet_length : ℕ → ℕ → ℕ → ℕ
packet_length len mss i = if ltb mss (len - i * mss) then mss else len - i * mss

-- A block read from the file keeps the m_OriginTime that it had.
abbrev pub file_block : Block → List ℕ → ℕ → Block
file_block old chunk msg_no = record {
  payload = chunk;
  msg_no = msg_no;
  origin_time = old.origin_time;
  ttl = none;
}

-- The loop from block `i` of `n` on; the first number counts the rounds left.
unfoldable pub fill_file : ℕ → List Block → ℕ → ℕ → ℕ → ℕ → ℕ → ℕ → List ℕ → Bool → FileRead
fill_file zero ring p len mss msg_no n i rest good = record {
  ring = ring;
  last = p;
  total = 0;
  rest = rest;
  good = good;
}
fill_file (suc rounds) ring p len mss msg_no n i rest good =
    let k = packet_length len mss i in
    let chunk = take k rest in
    let b = file_block (get_or ring p blank) chunk (block_msg_no msg_no (order_bit true) i n) in
    let later =
      fill_file rounds (set ring p b) (next (length ring) p) len mss msg_no n (i + 1) (drop k rest)
        (length chunk == k) in
    let stopped : FileRead = record {
      ring = ring;
      last = p;
      total = 0;
      rest = rest;
      good = false;
    } in
    if good
    then (if length chunk == 0
        then stopped
        else record later { total = length chunk + later.total })
    else stopped

abbrev pub file_added : SndBuffer → FileRead → ℕ → SndBuffer
file_added r f n = record r {
  ring = f.ring;
  last = f.last;
  count = r.count + n;
  next_msg_no = following r.next_msg_no;
}

-- The buffer, and what the loop makes of the file.
unfoldable pub add_file : SndBuffer → Bool → List ℕ → Bool → ℕ → Option (SndBuffer × FileRead)
add_file s memory rest good len =
    let n = block_count len s.mss in
    if (if memory then false else leb s.size (n + s.count))
    then none
    else elim (make_room (suc (n + s.count)) s n) [
      | none ↦ none
      | some r ↦
          let f = fill_file n r.ring r.last len r.mss r.next_msg_no n 0 rest good in
          some (file_added r f n, f)
    ]

-- The number is what the call returns.
unfoldable pub add_buffer_from_file : SndBuffer → Bool → List ℕ → Bool → ℕ → Option (SndBuffer × ℕ)
add_buffer_from_file s memory rest good len = elim (add_file s memory rest good len) [
  | none ↦ none
  | some (b, f) ↦ some (b, f.total)
]

-- What is read, and what is left, is the file.
fill_file_count :
    (rounds : ℕ) (ring : List Block) (p len mss msg_no n i : ℕ) (rest : List ℕ) (good : Bool)
    → let f = fill_file rounds ring p len mss msg_no n i rest good in
      f.total + length f.rest ≡ length rest
unfolding fill_file
fill_file_count zero ring p len mss msg_no n i rest good = omega arith
fill_file_count (suc rounds) ring p len mss msg_no n i rest false = omega arith
fill_file_count (suc rounds) ring p len mss msg_no n i rest true =
    let k = packet_length len mss i in
    let chunk = take k rest in
    let b = file_block (get_or ring p blank) chunk (block_msg_no msg_no (order_bit true) i n) in
    let ih =
      fill_file_count rounds (set ring p b) (next (length ring) p) len mss msg_no n (i + 1)
        (drop k rest) (length chunk == k) in
    elim (Bool-cases (length chunk == 0)) [
      | inl e ↦ rw e (omega arith)
      | inr e ↦ rw e (omega (arith, ih, length-take k rest, length-drop k rest))
    ]

abbrev pub Counted : List ℕ → Option (SndBuffer × FileRead) → Type 0
Counted rest none = Unit {0}
Counted rest (some (s, f)) = f.total + length f.rest ≡ length rest

pub add_file-Counted :
    (s : SndBuffer) (memory : Bool) (rest : List ℕ) (good : Bool) (len : ℕ)
    → Counted rest (add_file s memory rest good len)
unfolding add_file
add_file-Counted s memory rest good len =
    let n = block_count len s.mss in
    let fills = λ (o : Option SndBuffer).
      elim o as (λ (_ : Option SndBuffer). Option (SndBuffer × FileRead)) [
        | none ↦ none
        | some r ↦
            let f = fill_file n r.ring r.last len r.mss r.next_msg_no n 0 rest good in
            some (file_added r f n, f)
      ] in
    elim (if memory then false else leb s.size (n + s.count))
      as (λ (b : Bool).
        Counted rest (if b then none else fills (make_room (suc (n + s.count)) s n))) [
          | true ↦ tt
          | false ↦ elim (make_room (suc (n + s.count)) s n) as (λ o. Counted rest (fills o)) [
            | none ↦ tt
            | some r ↦ fill_file_count n r.ring r.last len r.mss r.next_msg_no n 0 rest good
          ]
        ]

spent :
    (rounds : ℕ) (ring : List Block) (p len mss msg_no n i : ℕ) (rest : List ℕ)
    → let f = fill_file rounds ring p len mss msg_no n i rest false in (f.last ≡ p) × (f.total ≡ 0)
unfolding fill_file
spent zero ring p len mss msg_no n i rest = (refl, refl)
spent (suc rounds) ring p len mss msg_no n i rest = (refl, refl)

next_before : (n p : ℕ) → p + 1 < n → next n p ≡ p + 1
next_before n p h = ground arith

packet_length_bounds :
    (len mss i : ℕ)
    → (packet_length len mss i ≤ mss)
      × (packet_length len mss i ≤ len - i * mss)
      × (packet_length len mss i < mss → packet_length len mss i ≡ len - i * mss)
packet_length_bounds len mss i = ground arith

none_written : (w m : ℕ) → w * m < m → w * m ≡ 0
none_written zero m h = omega arith
none_written (suc w) m h = absurd (grind arith)

nothing_left : (k r mss left : ℕ) → 0 < mss → min k r ≡ 0 → (k < mss → k ≡ left) → r ≤ left → r ≡ 0
nothing_left k r mss left pos e short fits = ground (arith, short)

not_equal : (a b : ℕ) → (a == b) ≡ false → (a ≡ b → ⊥)
not_equal a b h = ground arith

-- The bytes after a read of `k`, against the length that is left then.
rest_fits :
    (k r r' mss left : ℕ) → k ≤ mss → (k < mss → k ≡ left) → r ≤ left → r' ≡ r - k → r' ≤ left - mss
rest_fits k r r' mss left h short fits e = ground (arith, short)

rest_tight :
    (k r r' mss left w : ℕ)
    → 0 < k
    → k ≤ mss
    → (k < mss → k ≡ left)
    → r ≤ left
    → k ≤ r
    → r' ≡ r - k
    → w * mss < r' + mss
    → w * mss < r
rest_tight k r r' mss left w pos h short fits got e tight = elim (dec_lt k mss) [
  | no p ↦ omega arith
  | yes p ↦ let whole = short p in let nothing = none_written w mss (omega arith) in omega arith
]

further : (len mss i : ℕ) {r : ℕ} → r ≤ len - i * mss - mss → r ≤ len - (i + 1) * mss
further len mss i h = let stepped : (i + 1) * mss ≡ i * mss + mss = grind arith in omega arith

-- The loop writes as many blocks as the bytes that are left fill, and returns their number.
file_written :
    (rounds : ℕ) (ring : List Block) (p len mss msg_no n i : ℕ) (rest : List ℕ)
    → 0 < mss
    → p + rounds < length ring
    → len - i * mss ≤ rounds * mss
    → length rest ≤ len - i * mss
    → let f = fill_file rounds ring p len mss msg_no n i rest true in
      (w : ℕ) × (f.last ≡ p + w)
      × (length rest ≤ w * mss)
      × (w * mss < length rest + mss)
      × (f.total ≡ length rest)
unfolding fill_file
file_written zero ring p len mss msg_no n i rest pos h covers fits =
    (0, omega arith, omega arith, omega arith, omega arith)
file_written (suc rounds) ring p len mss msg_no n i rest pos h covers fits =
    let k = packet_length len mss i in
    let got = length-take k rest in
    let (at_most, within, short) = packet_length_bounds len mss i in
    let b =
      file_block (get_or ring p blank) (take k rest) (block_msg_no msg_no (order_bit true) i n) in
    let ring' = set ring p b in
    let on = next_before (length ring) p (omega arith) in
    let stepped : (i + 1) * mss ≡ i * mss + mss = grind arith in
    let rounded : suc rounds * mss ≡ rounds * mss + mss = grind arith in
    elim (Bool-cases (length (take k rest) == 0)) [
      | inl e ↦
          let empty = (==_iff (length (take k rest)) 0).0 e in
          let left : length rest ≡ 0 =
            nothing_left k (length rest) mss (len - i * mss) pos (omega arith) short fits in
          rw (fill_file, e) (0, omega arith, omega arith, omega arith, omega arith)
      | inr e ↦
          let some_got = not_equal (length (take k rest)) 0 e in
          elim (Bool-cases (length (take k rest) == k)) [
            | inl full ↦
                let all_got = (==_iff (length (take k rest)) k).0 full in
                let left = length-drop k rest in
                let (w, ended, covered, tight, sum) =
                  file_written rounds ring' (p + 1) len mss msg_no n (i + 1) (drop k rest) pos
                    (omega (arith, length-set ring p b)) (omega arith)
                    (further len mss i (
                      rest_fits k (length rest) (length (drop k rest)) mss (len - i * mss) at_most
                        short fits left)) in
                let one_more : suc w * mss ≡ w * mss + mss = grind arith in
                let below =
                  rest_tight k (length rest) (length (drop k rest)) mss (len - i * mss) w
                    (omega arith) at_most short fits (omega arith) left tight in
                rw (fill_file, e, full, on)
                  (suc w, omega (arith, ended), omega arith, omega arith, omega (arith, sum))
            | inr part ↦
                let missing = not_equal (length (take k rest)) k part in
                let (ended, sum) =
                  spent rounds ring' (p + 1) len mss msg_no n (i + 1) (drop k rest) in
                rw (fill_file, e, part, on) (1, ended, omega arith, omega arith, omega (arith, sum))
          ]
    ]

fewer : (w n m : ℕ) → w * m < n * m → w < n
fewer w n m h = elim (dec_lt w n) [ yes p ↦ p | no p ↦ absurd (grind arith) ]

-- addBufferFromFile counts the blocks of the length asked for. From a file with fewer bytes it makes
-- only as many blocks as these fill: m_iCount, which getCurrBufSize returns, is then too large by
-- the missing blocks.
pub add_buffer_from_file_miscounts :
    (s : SndBuffer) (rest : List ℕ) (len : ℕ)
    → IsValid s
    → length rest + s.mss ≤ len
    → (s' : SndBuffer) × (add_buffer_from_file s true rest true len ≡ some (s', length rest))
      × (s'.last < s'.count)
unfolding add_buffer_from_file add_file
add_buffer_from_file_miscounts s rest len v h =
    let n = block_count len s.mss in
    let (covers, tight) = block_count_bounds len s.mss v.packet in
    let (r, made, room) = make_room_lem (suc (n + s.count)) s n v (omega arith) (omega arith) in
    let same : s.mss ≡ r.mss = sym room.same_mss in
    let asked : len ≤ n * r.mss = omega (arith, covers, ap (λ k. n * k) same) in
    let (w, ended, covered, close, sum) =
      file_written n r.ring r.last len r.mss r.next_msg_no n 0 rest (room.valid.packet)
        (omega (arith, room.valid.ringed, room.valid.counted, room.enough)) (omega (arith, asked))
        (omega arith) in
    let f = fill_file n r.ring r.last len r.mss r.next_msg_no n 0 rest true in
    (
      file_added r f n,
      ap
            (λ o. elim o as (λ (_ : Option (SndBuffer × FileRead)). Option (SndBuffer × ℕ)) [
              | none ↦ none
              | some (b, f) ↦ some (b, f.total)
            ])
            {x = add_file s true rest true len} {y = some (file_added r f n, f)} (rw made refl)
          ∙ ap (λ t. some (file_added r f n, t)) sum,
      omega (arith, ended, room.valid.counted, fewer w n r.mss (omega (arith, close, asked, same))),
    )
