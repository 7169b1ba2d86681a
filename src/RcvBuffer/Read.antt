-- ===== src/RcvBuffer/Read.antt =====
-- CRcvBuffer::readBuffer (src/buffer.cpp) takes bytes off the front of the acknowledged stream.
use native.Mathlib.Nat.{mod-eq_of_lt}
use mathlib.Core.List.{append-nil}
use udt_server.Base.{
  ℕ, zero, suc, ◌+◌, ◌-◌, ◌%◌, ◌≤◌, ◌<◌, ◌≡◌, refl, sym, ap, ◌∙◌, none, some, inl, inr, List, [],
  ◌++◌, ◌==◌, ◌||◌, true, false, Bool-cases, ==_iff, length, get_or, take, drop, arith, subst,
  take-all, drop-nil, drop-drop, length-take, length-append,
}
use udt_server.RcvBuffer.{
  RcvBuffer, next, Reading, prepend, chunk_size, is_used_up, after_chunk, after_pos, read_loop,
  read_buffer, get_rcv_data_size,
}
use udt_server.RcvBuffer.Stream.{
  slots, AreFilled, FitsNotch, stream, IsValid, data_size_lands, data_size_count, avail-add-data,
}
use udt_server.RcvBuffer.Round.{
  IsAt, Took, pending, stops, unit_at, in_slot, not_last, whole, fresh, pending_front, freed,
  freed-IsAt, moved, moved-IsAt, used_up-rest, used_up-bytes, partial-bytes, size_fresh, behind,
}

pending-pos :
    (b : RcvBuffer) (p n : ℕ) (h : IsAt b p (suc n))
    → length (pending b p (suc n)) ≡ whole b p n h + length (slots b (suc p) n)
pending-pos b p n h =
    ap length (pending_front b p n h)
    ∙ length-append (fresh b p n h) (slots b (suc p) n)
    ∙ ap (λ k. k + length (slots b (suc p) n)) (size_fresh b p n h)

unrolls :
    (fuel : ℕ) (b : RcvBuffer) (p u rs : ℕ)
    → (p == b.last_ack_pos || rs == 0) ≡ false
    → get_or b.unit p none ≡ some u
    → let n = chunk_size (length (b.payload u) - b.notch) rs in
      read_loop (suc fuel) b p rs
      ≡ prepend
          (take n (drop b.notch (b.payload u)))
          (read_loop fuel (after_chunk b p u rs) (after_pos b p u rs) (rs - n))
unfolding read_loop
unrolls fuel b p u rs e s = rw (e, s, read_loop)

abbrev Reads : ℕ → ℕ → RcvBuffer → ℕ → ℕ → Type 0
Reads fuel n b p rs = (r : Reading) × (read_loop fuel b p rs ≡ some r) × Took b p n rs r

module _ (b : RcvBuffer) (p n : ℕ) (h : IsAt b p (suc n)) (rs fuel : ℕ)
    (going : (p == b.last_ack_pos || rs == 0) ≡ false) where
  abbrev here : ℕ
  here = unit_at b p n h

  consume_whole :
      is_used_up (whole b p n h) rs ≡ true
      → Reads fuel n (freed b p n h) (next b.size p) (rs - whole b p n h)
      → Reads (suc fuel) (suc n) b p rs
  consume_whole used (r, e, t) =
      let size : chunk_size (whole b p n h) rs ≡ whole b p n h = ground arith in
      let le : whole b p n h ≤ rs = ground arith in
      (
        record r { bytes = take (whole b p n h) (fresh b p n h) ++ r.bytes },
        unrolls fuel b p here rs going (in_slot b p n h) ∙ rw (used, size, e),
        record {
          left = t.left;
          at_end = t.at_end;
          bytes =
              ap (λ x. take (whole b p n h) (fresh b p n h) ++ x) t.bytes
              ∙ sym (used_up-bytes b p n h rs le);
          rest = t.rest ∙ sym (used_up-rest b p n h rs le);
          count = omega (arith, t.count, pending-pos b p n h, ap length (behind b p n h));
          same_ack = t.same_ack;
          same_size = t.same_size;
        },
      )

consume_part :
    (b : RcvBuffer) (p n : ℕ) (h : IsAt b p (suc n)) (rs fuel : ℕ)
    → (p == b.last_ack_pos || rs == 0) ≡ false
    → is_used_up (whole b p n h) rs ≡ false
    → Reads (suc (suc fuel)) (suc n) b p rs
unfolding moved
consume_part b p n h rs fuel going part =
    let lt : rs < whole b p n h = ground arith in
    let size : chunk_size (whole b p n h) rs ≡ rs = ground arith in
    let spent : (p == b.last_ack_pos || rs - rs == 0) ≡ true = ground arith in
    let chunk = take rs (fresh b p n h) in
    (
      record { buffer = moved b p n h rs; p = p; bytes = chunk ++ []; rs = rs - rs },
      unrolls (suc fuel) b p (unit_at b p n h) rs going (in_slot b p n h)
          ∙ rw (part, size, stops fuel (moved b p n h rs) p (rs - rs) spent),
      record {
        left = suc n;
        at_end = moved-IsAt b p n h rs lt;
        bytes = append-nil chunk ∙ sym (partial-bytes b p n h rs lt);
        rest = sym (drop-drop rs b.notch (slots b p (suc n)));
        count = omega (arith, pending-pos b p n h);
        same_ack = refl;
        same_size = refl;
      },
    )

read_loop-Took :
    (fuel n : ℕ) (b : RcvBuffer) (p rs : ℕ)
    → IsAt b p n
    → n < fuel
    → (r : Reading) × (read_loop fuel b p rs ≡ some r) × Took b p n rs r
read_loop-Took zero n b p rs h f = absurd (omega arith)
read_loop-Took (suc fuel) zero b p rs h f =
    let there : (p == b.last_ack_pos) ≡ true =
      (==_iff p b.last_ack_pos).1
        (sym (mod-eq_of_lt h.inside) ∙ ap (λ k. k % b.size) (omega arith) ∙ h.lands) in
    (
      record { buffer = b; p = p; bytes = []; rs = rs },
      stops fuel b p rs (rw there),
      record {
        left = 0;
        at_end = h;
        bytes = sym (ap (take rs) (drop-nil b.notch) ∙ take-all rs [] (omega arith));
        rest = drop-nil b.notch ∙ sym (ap (drop rs) (drop-nil b.notch) ∙ drop-nil rs);
        count = omega (arith, ap (length {A = ℕ}) (drop-nil {A = ℕ} b.notch));
        same_ack = refl;
        same_size = refl;
      },
    )
read_loop-Took (suc zero) (suc n) b p rs h f = absurd (omega arith)
read_loop-Took (suc (suc fuel)) (suc n) b p rs h f =
    elim (Bool-cases (p == b.last_ack_pos || rs == 0)) [
      | inl done ↦
          let none_wanted : rs ≡ 0 = ground (arith, not_last b p n h) in
          (
            record { buffer = b; p = p; bytes = []; rs = rs },
            stops (suc fuel) b p rs done,
            record {
              left = suc n;
              at_end = h;
              bytes = ap (λ k. take k (pending b p (suc n))) (sym none_wanted);
              rest = ap (λ k. drop k (pending b p (suc n))) (sym none_wanted);
              count = omega arith;
              same_ack = refl;
              same_size = refl;
            },
          )
      | inr going ↦ elim (Bool-cases (is_used_up (whole b p n h) rs)) [
        | inl used ↦ consume_whole b p n h rs (suc fuel) going used (
            read_loop-Took (suc fuel) n (freed b p n h) (next b.size p) (rs - whole b p n h)
              (freed-IsAt b p n h) (omega arith))
        | inr part ↦ consume_part b p n h rs fuel going part
      ]
    ]

starts : (b : RcvBuffer) → IsValid b → IsAt b b.start_pos (get_rcv_data_size b)
starts b v = record {
  sized = v.sized;
  inside = v.start_in;
  lands = data_size_lands b v.start_in v.ack_in;
  small = (avail-add-data b v).0;
  filled = v.filled;
  notched = v.notched;
}

-- readBuffer never reads through a null pointer: it delivers the first `len` bytes of the
-- acknowledged stream, or all of it if it is shorter, returns their number, leaves the rest of the
-- stream, and keeps the invariant.
pub read_buffer_lem :
    (b : RcvBuffer) (len : ℕ)
    → IsValid b
    → (c : RcvBuffer) × (bytes : List ℕ) × (n : ℕ) × (read_buffer b len ≡ some (c, bytes, n))
      × (bytes ≡ take len (stream b))
      × (n ≡ length bytes)
      × (stream c ≡ drop len (stream b))
      × IsValid c
unfolding read_buffer
read_buffer_lem b len v =
    let (r, e, t) =
      read_loop-Took (suc b.size) (get_rcv_data_size b) b b.start_pos len (starts b v)
        (omega (arith, (avail-add-data b v).0)) in
    let c = record r.buffer { start_pos = r.p } in
    let ack_in : c.last_ack_pos < c.size = omega (arith, t.same_ack, t.same_size, v.ack_in) in
    let count : get_rcv_data_size c ≡ t.left =
      data_size_count c t.left t.at_end.inside ack_in t.at_end.small t.at_end.lands in
    (
      c,
      r.bytes,
      len - r.rs,
      rw (e, read_buffer),
      t.bytes,
      omega (arith, t.count, ap length t.bytes, length-take len (stream b)),
      ap (pending c r.p) count ∙ t.rest,
      record {
        sized = t.at_end.sized;
        start_in = t.at_end.inside;
        ack_in = ack_in;
        filled = subst (AreFilled c r.p) (sym count) t.at_end.filled;
        notched = subst (FitsNotch c r.p) (sym count) t.at_end.notched;
      },
    )
