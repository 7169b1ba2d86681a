-- ===== src/RcvBuffer/Round.antt =====
-- One round of the loop of CRcvBuffer::readBuffer (src/buffer.cpp), and the bytes that it takes.
use native.Mathlib.Nat.{mod-eq_of_lt, mod_self, mod-add-mod, mod-lt}
use mathlib.Core.List.{append-nil}
use udt_server.Base.{
  ℕ, zero, suc, ◌+◌, ◌-◌, ◌%◌, ◌≤◌, ◌<◌, ◌≡◌, ◌≢◌, refl, sym, ap, ap₂, ◌∙◌, none, some, inl, inr,
  List, [], ◌++◌, ◌==◌, ◌||◌, true, Bool-cases, ne→==, length, get_or, set, take, drop, get_or-set,
  length-set, arith, take-append, drop-append, take-all, drop-all, length-drop,
}
use udt_server.Base.Wrap.{mod_apart}
use udt_server.RcvBuffer.{RcvBuffer, next, release, Reading, read_loop}
use udt_server.RcvBuffer.Stream.{
  bytes_of, slots, AreFilled, FitsNotch, Agree, slots-Agree, AreFilled-Agree,
}

-- The loop's position: `n` filled slots from `p` to the last acknowledged position.
pub record IsAt (b : RcvBuffer) (p n : ℕ) : Type 0 where
  pub sized : length b.unit ≡ b.size
  pub inside : p < b.size
  pub lands : (p + n) % b.size ≡ b.last_ack_pos
  pub small : n < b.size
  pub filled : AreFilled b p n
  pub notched : FitsNotch b p n

abbrev pub pending : RcvBuffer → ℕ → ℕ → List ℕ
pending b p n = drop b.notch (slots b p n)

pub record Took (b : RcvBuffer) (p n rs : ℕ) (r : Reading) : Type 0 where
  pub left : ℕ
  pub at_end : IsAt r.buffer r.p left
  pub bytes : r.bytes ≡ take rs (pending b p n)
  pub rest : pending r.buffer r.p left ≡ drop rs (pending b p n)
  pub count : r.rs ≡ rs - length (pending b p n)
  pub same_ack : r.buffer.last_ack_pos ≡ b.last_ack_pos
  pub same_size : r.buffer.size ≡ b.size

-- The next place round the circle.
pub next-mod : (s p : ℕ) → p < s → next s p ≡ suc p % s
next-mod s p h = elim (Bool-cases (p + 1 == s)) [
  | inl e ↦ rw e (sym (mod_self s) ∙ ap (λ k. k % s) (ground arith))
  | inr e ↦ rw e (sym (mod-eq_of_lt {n = suc p} (ground arith) ∙ omega arith))
]

pub no_notch : (b : RcvBuffer) (p n : ℕ) → b.notch ≡ 0 → FitsNotch b p n
no_notch b p zero e = e
no_notch b p (suc n) e = omega arith

-- Nothing is left to do: no packet, or no room in the caller's buffer.
pub stops :
    (fuel : ℕ) (b : RcvBuffer) (p rs : ℕ)
    → (p == b.last_ack_pos || rs == 0) ≡ true
    → read_loop (suc fuel) b p rs ≡ some (record { buffer = b; p = p; bytes = []; rs = rs })
unfolding read_loop
stops fuel b p rs e = rw e

module _ (b : RcvBuffer) (p n : ℕ) (h : IsAt b p (suc n)) where
  abbrev pub unit_at : ℕ
  unit_at = h.filled.0.0

  pub in_slot : get_or b.unit p none ≡ some unit_at
  in_slot = ap (λ k. get_or b.unit k none) (sym (mod-eq_of_lt h.inside)) ∙ h.filled.0.1

  pub not_last : p ≢ b.last_ack_pos
  not_last e =
      mod_apart b.size p (suc n) (omega arith) h.small
        (h.lands ∙ sym e ∙ sym (mod-eq_of_lt h.inside))

  abbrev pub whole : ℕ
  whole = length (b.payload unit_at) - b.notch

  abbrev pub fresh : List ℕ
  fresh = drop b.notch (b.payload unit_at)

  notch_in : b.notch ≤ length (b.payload unit_at)
  notch_in = rw h.filled.0.1 at h.notched

  -- What is pending is the rest of this packet, and the packets after it.
  pub pending_front : pending b p (suc n) ≡ fresh ++ slots b (suc p) n
  pending_front =
      ap (λ o. drop b.notch (bytes_of b.payload o ++ slots b (suc p) n)) h.filled.0.1
      ∙ drop-append b.notch (b.payload unit_at) (slots b (suc p) n)
      ∙ ap (λ k. fresh ++ drop k (slots b (suc p) n)) {x = b.notch - length (b.payload unit_at)}
          {y = 0} (omega (arith, notch_in))

  abbrev pub freed : RcvBuffer
  freed = record (release b p unit_at) { notch = 0 }

  pub turned : (k : ℕ) → (next b.size p + k) % b.size ≡ (suc p + k) % b.size
  turned k = ap (λ t. (t + k) % b.size) (next-mod b.size p h.inside) ∙ mod-add-mod (suc p) b.size k

  freed-Agree : Agree freed b refl n (next b.size p) (suc p)
  freed-Agree k lt =
      let j = (suc p + k) % b.size in
      let off : p ≢ j = λ e.
        mod_apart b.size p (suc k) (omega arith) (omega (arith, h.small))
          (ap (λ t. t % b.size) (omega arith) ∙ sym e ∙ sym (mod-eq_of_lt h.inside)) in
      ap (λ t. get_or (set b.unit p none) t none) (turned k)
      ∙ get_or-set b.unit p j none none (omega (arith, h.sized, h.inside))
      ∙ rw (ne→== p j off)

  pub freed-IsAt : IsAt freed (next b.size p) n
  freed-IsAt = record {
    sized = length-set b.unit p none ∙ h.sized;
    inside = rw (next-mod b.size p h.inside) (mod-lt (suc p) (omega (arith, h.inside)));
    lands = turned n ∙ ap (λ t. t % b.size) (omega arith) ∙ h.lands;
    small = omega (arith, h.small);
    filled = AreFilled-Agree freed b refl n (next b.size p) (suc p) freed-Agree h.filled.1;
    notched = no_notch freed (next b.size p) n refl;
  }

  unfoldable pub moved : ℕ → RcvBuffer
  moved rs = record b { notch = b.notch + rs }

  pub moved-IsAt : (rs : ℕ) → rs < whole → IsAt (moved rs) p (suc n)
  unfolding moved
  moved-IsAt rs lt = record {
    sized = h.sized;
    inside = h.inside;
    lands = h.lands;
    small = h.small;
    filled = AreFilled-Agree (moved rs) b refl (suc n) p p (λ k q. refl) h.filled;
    notched = rw h.filled.0.1 (omega arith);
  }

  pub size_fresh : length fresh ≡ whole
  size_fresh = length-drop b.notch (b.payload unit_at)

  pub behind : slots b (suc p) n ≡ slots freed (next b.size p) n
  behind = sym (slots-Agree freed b refl n (next b.size p) (suc p) freed-Agree)

  pub used_up-rest :
      (rs : ℕ)
      → whole ≤ rs
      → drop rs (pending b p (suc n)) ≡ drop (rs - whole) (pending freed (next b.size p) n)
  used_up-rest rs le =
      ap (drop rs) pending_front
      ∙ drop-append rs fresh (slots b (suc p) n)
      ∙ ap₂ (λ x y. x ++ drop y (slots b (suc p) n)) (drop-all rs fresh (omega (arith, size_fresh)))
          (ap (λ k. rs - k) size_fresh)
      ∙ ap (drop (rs - whole)) behind

  pub used_up-bytes :
      (rs : ℕ)
      → whole ≤ rs
      → take rs (pending b p (suc n))
        ≡ take whole fresh ++ take (rs - whole) (pending freed (next b.size p) n)
  used_up-bytes rs le =
      ap (take rs) pending_front
      ∙ take-append rs fresh (slots b (suc p) n)
      ∙ ap₂ (λ x y. x ++ take y (slots b (suc p) n))
          (take-all rs fresh (omega (arith, size_fresh))
            ∙ sym (take-all whole fresh (omega (arith, size_fresh))))
          (ap (λ k. rs - k) size_fresh)
      ∙ ap (λ t. take whole fresh ++ take (rs - whole) t) behind

  pub partial-bytes : (rs : ℕ) → rs < whole → take rs (pending b p (suc n)) ≡ take rs fresh
  partial-bytes rs lt =
      ap (take rs) pending_front
      ∙ take-append rs fresh (slots b (suc p) n)
      ∙ ap (λ k. take rs fresh ++ take k (slots b (suc p) n)) {x = rs - length fresh} {y = 0}
          (omega (arith, size_fresh))
      ∙ append-nil (take rs fresh)
