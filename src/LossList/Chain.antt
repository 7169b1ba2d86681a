-- ===== src/LossList/Chain.antt =====
-- The linked list of runs that the arrays of src/list.cpp hold, as a list of pairs.
use udt_server.Base.{
  ℕ, zero, suc, refl, arith, ◌≡◌, ◌≢◌, refl, sym, ◌∙◌, ap, ◌==◌, if◌then◌else◌, Option, none, some,
  List, [], ◌∷◌, ◌++◌, subst, length, ◌<◌, inl, inr, Bool-cases, length-set, get_or-set_here,
  get_or-set_other,
}
use udt_server.LossList.{Slots, read, set_end}

-- The run from the first to the second number, both included.
abbrev pub Run : Type 0
Run = ℕ × ℕ

abbrev pub end_of : Run → Option ℕ
end_of (a, b) = if b == a then none else some b

pub record Links : Type 0 where
  pub data1 : Slots
  pub data2 : Slots
  pub next : Slots

pub record Holds (l : Links) (p : ℕ) (r : Run) : Type 0 where
  pub first : read l.data1 p ≡ some (r.0)
  pub last : read l.data2 p ≡ end_of r

-- The nodes from `p` on hold the runs, and the link after them is `q`.
abbrev pub IsSegment : Links → Option ℕ → List Run → Option ℕ → Type 0
IsSegment l p [] q = p ≡ q
IsSegment l none (r ∷ rs) q = ⊥
IsSegment l (some p) (r ∷ rs) q = Holds l p r × IsSegment l (read l.next p) rs q

pub some≢none {ℓ} : {A : Type ℓ} {x : A} {o : Option A} → o ≡ some x → o ≢ none
some≢none e f = cc

IsSegment-none : (l : Links) (rs : List Run) (t : ℕ) → IsSegment l none rs (some t) → ⊥
IsSegment-none l [] t h = cc
IsSegment-none l (r ∷ rs) t h = h

-- A node with a successor is not the last one.
IsSegment-inner :
    (l : Links) (p t : ℕ) (rs : List Run)
    → read l.next t ≡ none
    → IsSegment l (read l.next p) rs (some t)
    → p ≢ t
IsSegment-inner l p t rs e h k =
    IsSegment-none l rs t (subst (λ x. IsSegment l x rs (some t)) (ap (read l.next) k ∙ e) h)

-- The nodes up to `t` stay as they are when only `t` and free nodes are written, for `t` is the last.
pub IsSegment-kept :
    (l l' : Links) (p : Option ℕ) (rs : List Run) (t : ℕ)
    → read l.next t ≡ none
    → ((i : ℕ)
        → i ≢ t
        → read l.data1 i ≢ none
        → (read l'.data1 i ≡ read l.data1 i)
          × (read l'.data2 i ≡ read l.data2 i)
          × (read l'.next i ≡ read l.next i))
    → IsSegment l p rs (some t)
    → IsSegment l' p rs (some t)
IsSegment-kept l l' p [] t e same h = h
IsSegment-kept l l' none (r ∷ rs) t e same h = h
IsSegment-kept l l' (some p) (r ∷ rs) t e same (holds, more) =
    let (eq₁, eq₂, eq₃) = same p (IsSegment-inner l p t rs e more) (some≢none holds.first) in
    (
      record { first = eq₁ ∙ holds.first; last = eq₂ ∙ holds.last },
      subst (λ x. IsSegment l' x rs (some t)) (sym eq₃)
          (IsSegment-kept l l' (read l.next p) rs t e same more),
    )

-- A segment goes on with a further node at its end.
pub IsSegment-append :
    (l : Links) (p : Option ℕ) (rs : List Run) (t : ℕ) (r : Run) (q : Option ℕ)
    → IsSegment l p rs (some t)
    → Holds l t r
    → read l.next t ≡ q
    → IsSegment l p (rs ++ r ∷ []) q
IsSegment-append l p [] t r q h holds e = subst (λ x. IsSegment l x (r ∷ []) q) (sym h) (holds, e)
IsSegment-append l none (x ∷ rs) t r q h holds e = h
IsSegment-append l (some p) (x ∷ rs) t r q (g, more) holds e =
    (g, IsSegment-append l (read l.next p) rs t r q more holds e)

-- What `set_end` writes at a free node.
module _ (xs : Slots) (i a b : ℕ) where
  pub length-set_end : length (set_end xs i a b) ≡ length xs
  length-set_end = elim (Bool-cases (b == a)) [
    | inl e ↦ rw e refl
    | inr e ↦ rw e (length-set xs i (some b))
  ]

  pub set_end-here : i < length xs → read xs i ≡ none → read (set_end xs i a b) i ≡ end_of (a, b)
  set_end-here h free = elim (Bool-cases (b == a)) [
    | inl e ↦ rw e free
    | inr e ↦ rw e (get_or-set_here xs i (some b) none h)
  ]

  pub set_end-other : (j : ℕ) → j ≢ i → read (set_end xs i a b) j ≡ read xs j
  set_end-other j h = elim (Bool-cases (b == a)) [
    | inl e ↦ rw e refl
    | inr e ↦ rw e (get_or-set_other xs i j (some b) none h)
  ]

-- From one node to the end there is one number of nodes.
IsSegment-same_length :
    (l : Links) (p : Option ℕ) (rs rs' : List Run)
    → IsSegment l p rs none
    → IsSegment l p rs' none
    → length rs ≡ length rs'
IsSegment-same_length l p [] [] h h' = refl
IsSegment-same_length l none [] (r ∷ rs) h h' = absurd h'
IsSegment-same_length l (some p) [] (r ∷ rs) h h' = absurd (some≢none refl h)
IsSegment-same_length l none (r ∷ rs) rs' h h' = absurd h
IsSegment-same_length l (some p) (r ∷ rs) [] h h' = absurd (some≢none refl h')
IsSegment-same_length l (some p) (r ∷ rs) (r' ∷ rs') (g, h) (g', h') =
    ap suc (IsSegment-same_length l (read l.next p) rs rs' h h')

-- The nodes behind `h` stay as they are when only `h` and free nodes are written.
pub IsSegment-kept_behind :
    (l l' : Links) (h : ℕ) (whole : List Run) (p : Option ℕ) (rs : List Run)
    → IsSegment l (some h) whole none
    → length rs < length whole
    → ((i : ℕ)
        → i ≢ h
        → read l.data1 i ≢ none
        → (read l'.data1 i ≡ read l.data1 i)
          × (read l'.data2 i ≡ read l.data2 i)
          × (read l'.next i ≡ read l.next i))
    → IsSegment l p rs none
    → IsSegment l' p rs none
IsSegment-kept_behind l l' h whole p [] all less same g = g
IsSegment-kept_behind l l' h whole none (r ∷ rs) all less same g = g
IsSegment-kept_behind l l' h whole (some p) (r ∷ rs) all less same (holds, more) =
    let apart : p ≢ h = λ k.
      let equal =
        IsSegment-same_length l (some h) (r ∷ rs) whole
          (subst (λ x. IsSegment l (some x) (r ∷ rs) none) k (holds, more)) all in
      omega arith in
    let (eq₁, eq₂, eq₃) = same p apart (some≢none holds.first) in
    (
      record { first = eq₁ ∙ holds.first; last = eq₂ ∙ holds.last },
      subst (λ x. IsSegment l' x rs none) (sym eq₃)
          (IsSegment-kept_behind l l' h whole (read l.next p) rs all (omega arith) same more),
    )

-- A node that holds a number stands in the array.
pub read_inside : (xs : Slots) (i x : ℕ) → read xs i ≡ some x → i < length xs
read_inside [] i x e = absurd (some≢none e refl)
read_inside (y ∷ xs) zero x e = omega arith
read_inside (y ∷ xs) (suc i) x e = omega (arith, read_inside xs i x e)
