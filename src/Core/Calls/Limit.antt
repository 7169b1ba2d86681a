-- ===== src/Core/Calls/Limit.antt =====
-- What is put into the send buffer by the calls of an application (src/core.cpp), against the limit of
-- the buffer.
use udt_server.Base.{
  ℕ, ◌+◌, ◌-◌, ◌*◌, ◌/◌, ◌%◌, ◌≤◌, ◌<◌, ◌≡◌, refl, sym, ap, subst, ◌∙◌, Bool, true, false, ◌&&◌,
  Option, none, some, List, [], ◌∷◌, arith, ◌⊎◌, inl, inr, leb, ◌==◌, if◌then◌else◌, length,
  Bool-cases,
}
use udt_server.Base.Int.{ℤ, pos, negsuc}
use udt_server.Base.Outcome.{returned}
use udt_server.SndBuffer.{SndBuffer, add_buffer, block_count, get_curr_buf_size}
use udt_server.SndBuffer.Add.{IsValid, add_buffer_all}
use udt_server.Core.{World, happened, reschedule, epoll_off}
use udt_server.Core.Calls.{
  Endpoint, Reply, udt_of, is_early, with_udt, Wake, wait_while, throws, buffered, is_full, room,
}
use udt_server.Core.Calls.Send.{put_bytes, counted, after_add, no_room}
use native.Mathlib.Nat.{div-add-mod', mul-le-mul_right}
use native.Mathlib.Decide.{dec_le}

-- A socket whose buffer is in order and holds no more blocks than it may.
pub record Sound (e : Endpoint) : Type 0 where
  pub valid : IsValid (udt_of e).snd_buffer
  pub unit : (udt_of e).snd_buffer.mss ≡ (udt_of e).payload_size
  pub within : buffered e ≤ e.snd_buf_size

gt_of_not-le : (k q : ℕ) → ¬ (q ≤ k) → k + 1 ≤ q
gt_of_not-le k q h = omega arith

add_mul : (k m : ℕ) → (k + 1) * m ≡ k * m + m
add_mul k m = grind arith

pos_of_not-zero : (r : ℕ) → (r == 0) ≡ false → 0 < r
pos_of_not-zero r h = ground arith

-- Bytes for at most `k` packets make at most `k` blocks.
block_count-le : (len k mss : ℕ) → 0 < mss → len ≤ k * mss → block_count len mss ≤ k
unfolding block_count
block_count-le len k mss p h =
    let q = len / mss in
    let whole = div-add-mod' len mss in
    elim (Bool-cases (len % mss == 0)) [
      | inl e ↦ rw e (elim (dec_le q k) [
        | yes le ↦ le
        | no gt ↦
            absurd (omega (arith, mul-le-mul_right mss (gt_of_not-le k q gt), add_mul k mss, whole))
      ])
      | inr e ↦ rw e (elim (dec_le k q) [
        | yes le ↦
            absurd (omega (arith, mul-le-mul_right mss le, whole, pos_of_not-zero (len % mss) e))
        | no gt ↦ omega arith
      ])
    ]

abbrev pub AllSound : List Wake → Type 0
AllSound [] = Unit {0}
AllSound ((e, t) ∷ ws) = Sound e × AllSound ws

abbrev pub KeepsWait : Option Endpoint → Type 0
KeepsWait none = Unit {0}
KeepsWait (some e) = Sound e

-- The socket that a call leaves is in order.
abbrev pub Keeps : Reply ℤ → Type 0
Keeps none = Unit {0}
Keeps (some (e, o)) = Sound e

module _ (w : World) (memory : Bool) where
  -- The bytes join the buffer, or there is no memory and it stays.
  add_buffer-cases :
      (s : SndBuffer) (bytes : List ℕ) (ttl : Option ℕ) (order : Bool) (now : ℕ)
      → (add_buffer s memory bytes ttl order now ≡ none)
        ⊎ (add_buffer s memory bytes ttl order now ≡ add_buffer s true bytes ttl order now)
  unfolding add_buffer
  add_buffer-cases s bytes ttl order now = elim (Bool-cases memory) [
    | inl m ↦ inr (ap (λ b. add_buffer s b bytes ttl order now) m)
    | inr m ↦ elim (Bool-cases (leb s.size (block_count (length bytes) s.mss + s.count))) [
      | inl full ↦ inl (rw (m, full) refl)
      | inr fit ↦ inr (rw (m, fit) refl)
    ]
  ]

  counted-Sound : (e : Endpoint) → Sound e → Sound (counted w e)
  counted-Sound e v = record { valid = v.valid; unit = v.unit; within = v.within }

  after_add-Sound :
      (e : Endpoint) (n : ℕ) (b : SndBuffer)
      → Sound e
      → IsValid b
      → b.mss ≡ (udt_of e).payload_size
      → get_curr_buf_size b ≤ e.snd_buf_size
      → Keeps (after_add e n (some b))
  unfolding after_add
  after_add-Sound e n b v valid mss within =
      let added = with_udt e (happened (record (udt_of e) { snd_buffer = b }) (reschedule false)) in
      elim (is_full added)
        as (λ (c : Bool).
          Sound (if c then with_udt added (happened (udt_of added) (epoll_off 4)) else added)) [
            | true ↦ record { valid = valid; unit = mss; within = within }
            | false ↦ record { valid = valid; unit = mss; within = within }
          ]

  pub put_bytes-Sound :
      (e : Endpoint) (bytes : List ℕ) (ttl : Option ℕ) (order : Bool)
      → Sound e
      → length bytes ≤ room e
      → Keeps (put_bytes w memory e bytes ttl order)
  unfolding put_bytes get_curr_buf_size after_add
  put_bytes-Sound e bytes ttl order v fits =
      let s = (udt_of e).snd_buffer in
      let (s', add, valid, filled, curr, count, mss) =
        add_buffer_all s bytes ttl order (w.time 2) v.valid in
      let few =
        block_count-le (length bytes) (e.snd_buf_size - s.count) s.mss v.valid.packet
          (rw v.unit fits) in
      let kept = counted-Sound e v in
      let within : get_curr_buf_size s' ≤ e.snd_buf_size = omega (arith, few, count, v.within) in
      let ends = λ (o : Option SndBuffer). Keeps (after_add (counted w e) (length bytes) o) in
      elim (add_buffer-cases s bytes ttl order (w.time 2)) [
        | inl refused ↦ subst ends (sym refused) kept
        | inr same ↦
            subst ends (sym (same ∙ add))
              (after_add-Sound (counted w e) (length bytes) s' kept valid (mss ∙ v.unit) within)
      ]

  -- A wait ends with a socket that is in order if all those that it finds are.
  pub wait_while-Sound :
      (test : Endpoint → Bool) (limit : Option ℕ) (e : Endpoint) (now : ℕ) (ws : List Wake)
      → Sound e
      → AllSound ws
      → KeepsWait (wait_while test limit e now ws)
  unfolding wait_while
  wait_while-Sound test limit e now [] v all =
      elim (test e && is_early limit now) as (λ b. KeepsWait (if b then none else some e)) [
        | true ↦ tt
        | false ↦ v
      ]
  wait_while-Sound test limit e now ((e', now') ∷ ws) v all =
      elim (test e && is_early limit now)
        as (λ b. KeepsWait (elim b [ true ↦ wait_while test limit e' now' ws | false ↦ some e ])) [
          | true ↦ wait_while-Sound test limit e' now' ws all.0 all.1
          | false ↦ v
        ]

  pub no_room-Sound : (e : Endpoint) → Sound e → Keeps (no_room e)
  no_room-Sound e v =
      elim e.snd_time_out
        as (λ z. Keeps (elim z [ pos ms ↦ throws e 6 3 | negsuc n ↦ some (e, returned (pos 0)) ])) [
          | pos ms ↦ v
          | negsuc n ↦ v
        ]
