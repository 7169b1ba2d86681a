-- ===== src/SndUList/Place.antt =====
-- CSndUList (src/queue.cpp): every node on the heap knows its index, and only those nodes have one.
use udt_server.Base.{
  ℕ, ◌≤◌, ◌<◌, ◌≡◌, ◌≢◌, sym, ◌∙◌, Bool, true, false, Option, none, some, List, ◌==◌, if◌then◌else◌,
  length, set, length-set, get_or-set, arith,
}
use udt_server.SndUList.{at, update_at}

-- `skip` is a node that is being taken off, whose old location is still recorded.
pub record Located (heap : List ℕ) (loc : ℕ → Option ℕ) (count : ℕ) (skip : Option ℕ) : Type 0 where
  pub fits : count ≤ length heap
  pub known : (i : ℕ) → i < count → loc (at heap i) ≡ some i
  pub real : (v i : ℕ) → skip ≢ some v → loc v ≡ some i → (i < count) × (at heap i ≡ v)
  pub kept_off : (i : ℕ) → i < count → skip ≢ some (at heap i)

-- Which nodes are on the heap.
abbrev pub is_off : Option ℕ → Bool
is_off none = true
is_off (some l) = false

abbrev pub swap : List ℕ → ℕ → ℕ → List ℕ
swap heap p q = set (set heap p (at heap q)) q (at heap p)

-- The locations after the swap.
abbrev pub trade : (ℕ → Option ℕ) → List ℕ → ℕ → ℕ → ℕ → Option ℕ
trade loc heap p q = update_at (update_at loc (at heap q) (some p)) (at heap p) (some q)

pub at-swap :
    (heap : List ℕ) (p q i : ℕ)
    → p < length heap
    → q < length heap
    → at (swap heap p q) i ≡ (if q == i then at heap p else if p == i then at heap q else at heap i)
at-swap heap p q i hp hq = ground (
  arith,
  length-set heap p (at heap q),
  get_or-set (set heap p (at heap q)) q i (at heap p) 0,
  get_or-set heap p i (at heap q) 0,
)

pub length-swap : (heap : List ℕ) (p q : ℕ) → length (swap heap p q) ≡ length heap
length-swap heap p q =
    length-set (set heap p (at heap q)) q (at heap p) ∙ length-set heap p (at heap q)

module _ {heap : List ℕ} {loc : ℕ → Option ℕ} {count : ℕ} {skip : Option ℕ}
    (l : Located heap loc count skip) where
  -- No node stands at two indices.
  pub at_inj : (i j : ℕ) → i < count → j < count → at heap i ≡ at heap j → i ≡ j
  at_inj i j hi hj e = ground (arith, l.known i hi, l.known j hj)

  module _ (p q : ℕ) (hp : p < count) (hq : q < count) (ne : p ≢ q) where
    swap-known : (i : ℕ) → i < count → trade loc heap p q (at (swap heap p q) i) ≡ some i
    swap-known i hi = ground (
      arith,
      l.fits,
      at-swap heap p q i (omega (arith, l.fits)) (omega (arith, l.fits)),
      at_inj p q hp hq,
      at_inj i p hi hp,
      at_inj i q hi hq,
      l.known i hi,
    )

    swap-real :
        (v i : ℕ)
        → skip ≢ some v
        → trade loc heap p q v ≡ some i
        → (i < count) × (at (swap heap p q) i ≡ v)
    swap-real v i off e = ground (
      arith,
      at-swap heap p q i (omega (arith, l.fits)) (omega (arith, l.fits)),
      l.real v i off,
      l.known p hp,
      l.known q hq,
    )

    pub swap-Located : Located (swap heap p q) (trade loc heap p q) count skip
    swap-Located = record {
      fits = omega (arith, l.fits, length-swap heap p q);
      known = swap-known;
      real = swap-real;
      kept_off = λ i hi e. ground (
        arith,
        at-swap heap p q i (omega (arith, l.fits)) (omega (arith, l.fits)),
        l.kept_off i hi,
        l.kept_off p hp,
        l.kept_off q hq,
      );
    }

    pub is_off-swap : (v : ℕ) → is_off (trade loc heap p q v) ≡ is_off (loc v)
    is_off-swap v = ground (arith, l.known p hp, l.known q hq)

pub Located-ext :
    {heap : List ℕ} {loc : ℕ → Option ℕ} {count : ℕ} {skip : Option ℕ} (loc' : ℕ → Option ℕ)
    → ((v : ℕ) → loc' v ≡ loc v)
    → Located heap loc count skip
    → Located heap loc' count skip
Located-ext loc' same l = record {
  fits = l.fits;
  known = λ i h. same _ ∙ l.known i h;
  real = λ v i off e. l.real v i off (sym (same v) ∙ e);
  kept_off = l.kept_off;
}
