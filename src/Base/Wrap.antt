-- ===== src/Base/Wrap.antt =====
-- Indices that go round a circular array: facts about `%` by a variable size.
use Prim.Native.Nat.{ℕ, suc, ◌+◌, ◌-◌, ◌%◌, ◌<◌}
use mathlib.Core.Path.{◌≡◌, sym, ◌∙◌, ap}
use mathlib.Core.Logic.{◌≢◌}
use native.Mathlib.Nat.{mod-add-mod, mod-eq_of_lt, mod-eq-sub-mod, mod-lt}
use native.Mathlib.Decide.{dec_lt}
use native.Mathlib.Omega.{arith}
use mathlib.Core.Logic.{inl, inr}
use udt_server.Base.Tests.{leb, if◌then◌else◌, Bool-cases}

-- Equal indices stay equal when both go on.
pub suc-mod : (s i j : ℕ) → i % s ≡ j % s → suc i % s ≡ suc j % s
suc-mod s i j e =
    let step : (k : ℕ) → (k % s + 1) % s ≡ suc k % s =
      λ k. mod-add-mod k s 1 ∙ ap (λ m. m % s) (omega arith) in
    sym (step i) ∙ ap (λ m. (m + 1) % s) e ∙ step j

apart_from : (s r k : ℕ) → r < s → 0 < k → k < s → (r + k) % s ≢ r
apart_from s r k hr pos hk = elim (dec_lt (r + k) s) [
  | yes p ↦ omega (arith, mod-eq_of_lt p)
  | no p ↦ omega (
    arith,
    mod-eq-sub-mod {n = r + k} {m = s} (omega arith),
    mod-eq_of_lt {n = r + k - s} {m = s} (omega arith),
  )
]

-- Fewer than `s` steps round a circle of `s` do not come back to the start.
pub mod_apart : (s j k : ℕ) → 0 < k → k < s → (j + k) % s ≢ j % s
mod_apart s j k pos hk e =
    apart_from s (j % s) k (mod-lt j (omega arith)) pos hk (mod-add-mod j s k ∙ e)

-- The distance round the circle from `t` to `h`, as the source writes it.
pub wrapped_count :
    (s t h n : ℕ)
    → t < s
    → h < s
    → n < s
    → (t + n) % s ≡ h
    → (if leb t h then h - t else h + s - t) ≡ n
wrapped_count s t h n ht hh hn e = elim (dec_lt (t + n) s) [
  | yes p ↦ ground (arith, mod-eq_of_lt p)
  | no p ↦ ground (
    arith,
    mod-eq-sub-mod {n = t + n} {m = s} (omega arith),
    mod-eq_of_lt {n = t + n - s} {m = s} (omega arith),
  )
]

pub count_mod : (s t h : ℕ) → t < s → h < s → (t + (if leb t h then h - t else h + s - t)) % s ≡ h
count_mod s t h ht hh = elim (Bool-cases (leb t h)) [
  | inl e ↦ rw e (mod-eq_of_lt {n = t + (h - t)} {m = s} (ground arith) ∙ ground arith)
  | inr e ↦ rw e (
      mod-eq-sub-mod {n = t + (h + s - t)} {m = s} (omega arith)
      ∙ mod-eq_of_lt {n = t + (h + s - t) - s} {m = s} (omega arith)
      ∙ omega arith)
]
