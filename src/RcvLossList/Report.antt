-- ===== src/RcvLossList/Report.antt =====
-- CRcvLossList::getLossArray (src/list.cpp): the loss report holds the list, and fits its array.
use udt_server.Base.{
  ℕ, zero, suc, ◌+◌, ◌≤◌, true, false, Option, none, some, List, [], ◌∷◌, ◌++◌, ltb, ◌==◌,
  if◌then◌else◌,
}
use udt_server.SeqNo.{IsSeqNo}
use udt_server.LossList.{read}
use udt_server.RcvLossList.{RcvLossList}
use udt_server.RcvLossList.Query.{report, report_size, loss_loop, get_loss_array}
use mathlib.Core.Option.{some-injective}
use udt_server.RcvLossList.Contents.{links}
use udt_server.LossList.Chain.{some≢none, Run, end_of, IsSegment}
use udt_server.Base.{
  ◌≡◌, refl, ◌-◌, ◌^◌, ◌*◌, length, arith, ap, ap₂, sym, ◌∙◌, inl, inr, Bool-cases, Option-cases,
  lt→ltb, ltb→lt, ==_iff, length-append,
}
use udt_server.Base.Bits.{bit_or-split, bit_or-zero, zero-bit_or}
use Prim.Native.Nat.{bit_or}

-- A loss report read back: a word with its top bit set begins a run of more than one number.
abbrev pub decode : List ℕ → List Run
decode [] = []
decode (w ∷ []) = (w, w) ∷ []
decode (w ∷ e ∷ ws) =
    let one = decode (e ∷ ws) in
    let more = decode ws in if ltb w (2 ^ 31) then (w, w) ∷ one else (w - 2 ^ 31, e) ∷ more

abbrev pub AreSeqNos : List Run → Type 0
AreSeqNos [] = Unit
AreSeqNos (r ∷ rs) = IsSeqNo (r.0) × AreSeqNos rs

encode : List Run → List ℕ
encode [] = []
encode (r ∷ rs) = report (r.0) (end_of r) ++ encode rs

-- The highest bit, put on a sequence number.
pub bit_or-top : (f : ℕ) → IsSeqNo f → bit_or f 0x8000_0000 ≡ f + 2 ^ 31
bit_or-top f h =
    ap₂ bit_or {x = f} {y = 0 * 2 ^ 31 + f} {u = 0x8000_0000} {v = 1 * 2 ^ 31 + 0} (omega arith)
      (omega arith)
    ∙ omega (arith, bit_or-split 31 0 1 f 0 h (omega arith), bit_or-zero f, zero-bit_or 1)

decode-one : (f : ℕ) (ws : List ℕ) → IsSeqNo f → decode (f ∷ ws) ≡ (f, f) ∷ decode ws
decode-one f [] h = refl
decode-one f (w ∷ ws) h = rw (lt→ltb f (2 ^ 31) h) refl

decode-more :
    (f e : ℕ) (ws : List ℕ)
    → IsSeqNo f
    → decode (bit_or f 0x8000_0000 ∷ e ∷ ws) ≡ (f, e) ∷ decode ws
decode-more f e ws h =
    let top : ltb (f + 2 ^ 31) (2 ^ 31) ≡ false = ground arith in
    let back : f + 2 ^ 31 - 2 ^ 31 ≡ f = omega arith in rw (bit_or-top f h, top, back) refl

decode-encode : (rs : List Run) → AreSeqNos rs → decode (encode rs) ≡ rs
unfolding encode
decode-encode [] h = refl
decode-encode ((f, e) ∷ rs) (hf, more) = elim (Bool-cases (e == f)) [
  | inl k ↦ rw k (
      decode-one f (encode rs) hf
      ∙ ap₂ (λ x xs. (f, x) ∷ xs) (sym ((==_iff e f).0 k)) (decode-encode rs more))
  | inr k ↦ rw k (decode-more f e (encode rs) hf ∙ ap (λ xs. (f, e) ∷ xs) (decode-encode rs more))
]

report-at-most : (o : Option ℕ) → report_size o ≤ 2
report-at-most none = omega arith
report-at-most (some e) = omega arith

length-report : (f : ℕ) (o : Option ℕ) → length (report f o) ≡ report_size o
length-report f none = refl
length-report f (some e) = refl

loss_loop-encode :
    (fuel : ℕ) (s : RcvLossList) (p : Option ℕ) (rs : List Run) (len limit : ℕ)
    → IsSegment (links s) p rs none
    → length rs ≤ fuel
    → len + 2 * length rs ≤ limit
    → loss_loop fuel s p len limit ≡ some (encode rs)
unfolding loss_loop encode
loss_loop-encode fuel s none [] len limit h hf hl = refl
loss_loop-encode fuel s (some p) [] len limit h hf hl = absurd (some≢none refl h)
loss_loop-encode fuel s none (r ∷ rs) len limit h hf hl = absurd h
loss_loop-encode zero s (some p) (r ∷ rs) len limit h hf hl = absurd (omega arith)
loss_loop-encode (suc fuel) s (some p) (r ∷ rs) len limit (holds, more) hf hl =
    let below : ltb (len + 1) limit ≡ true = ground arith in
    let rest =
      loss_loop-encode fuel s (read s.next p) rs (len + report_size (read s.data2 p)) limit more
        (omega arith) (omega (arith, report-at-most (read s.data2 p))) in
    rw (below, holds.first, rest) (ap (λ o. some (report (r.0) o ++ encode rs)) (holds.last))

-- The words that follow, if the loop goes on.
fits_loop :
    (fuel : ℕ) (s : RcvLossList) (p : Option ℕ) (len limit : ℕ) (ws : List ℕ)
    → loss_loop fuel s p len limit ≡ some ws
    → len ≤ limit
    → len + length ws ≤ limit
unfolding loss_loop
fits_loop fuel s none len limit ws e h = omega (arith, ap length (some-injective [] ws e))
fits_loop zero s (some p) len limit ws e h = absurd (some≢none e refl)
fits_loop (suc fuel) s (some p) len limit ws e h = elim (Bool-cases (ltb (len + 1) limit)) [
  | inr k ↦ let e' = rw k at e in omega (arith, ap length (some-injective [] ws e'))
  | inl k ↦ elim (Option-cases (read s.data1 p)) [
    | inl nothing ↦ let e' = rw (k, nothing) at e in absurd (some≢none e' refl)
    | inr (f, here) ↦
        elim (Option-cases
          (loss_loop fuel s (read s.next p) (len + report_size (read s.data2 p)) limit)) [
            | inl nothing ↦ let e' = rw (k, here, nothing) at e in absurd (some≢none e' refl)
            | inr (rest, there) ↦
                let e' = rw (k, here, there) at e in
                omega (
                  arith,
                  ap length (some-injective _ ws e'),
                  length-append (report f (read s.data2 p)) rest,
                  length-report f (read s.data2 p),
                  report-at-most (read s.data2 p),
                  ltb→lt (len + 1) limit k,
                  fits_loop fuel s (read s.next p) (len + report_size (read s.data2 p)) limit rest
                      there
                      (omega (arith, report-at-most (read s.data2 p), ltb→lt (len + 1) limit k)),
                )
          ]
  ]
]

-- Where the caller's array has two words for every run, the report of a list, read back, is the
-- list of runs. These are no more than the list has nodes, and their first numbers are sequence
-- numbers.
pub decode-get_loss_array :
    (s : RcvLossList) (rs : List Run) (limit : ℕ)
    → IsSegment (links s) s.head rs none
    → AreSeqNos rs
    → length rs ≤ s.size
    → 2 * length rs ≤ limit
    → (ws : List ℕ) × (get_loss_array s limit ≡ some ws) × (decode ws ≡ rs)
unfolding get_loss_array
decode-get_loss_array s rs limit h numbers inside room = (
  encode rs,
  loss_loop-encode s.size s s.head rs 0 limit h inside (omega arith),
  decode-encode rs numbers,
)

-- Whatever the list, getLossArray writes no more words than the caller's array has.
pub get_loss_array_fits :
    (s : RcvLossList) (limit : ℕ) (ws : List ℕ)
    → get_loss_array s limit ≡ some ws
    → length ws ≤ limit
unfolding get_loss_array
get_loss_array_fits s limit ws e =
    omega (arith, fits_loop s.size s s.head 0 limit ws e (omega arith))
