-- ===== src/Hash/Entries.antt =====
-- CHash (src/queue.cpp) as a stack of sockets for each number.
use udt_server.Base.{
  ℕ, zero, suc, ◌%◌, ◌<◌, ◌≡◌, refl, sym, ap, false, Option, none, some, List, [], ◌∷◌, ◌==◌, arith,
  inl, inr, if◌then◌else◌, get_or, set, length, Bool-cases, ==_iff, ◌∙◌, get_or-set_here,
  get_or-set_other, ne→==, replicate,
}
use udt_server.Hash.{Hash, init, find_entry, lookup, insert, remove_entry, remove}
use native.Mathlib.Decide.{ℕ_discrete}
use native.Mathlib.Nat.{mod-lt}

module _ {U : Type 0} where
  -- The sockets that a bucket has for a number, the last inserted first.
  abbrev pub matching : List (ℕ × U) → ℕ → List U
  matching [] id = []
  matching ((i, u) ∷ b) id = if id == i then u ∷ matching b id else matching b id

  abbrev pub entries : Hash U → ℕ → List U
  entries s id = matching (get_or s.bucket (id % s.hash_size) []) id

  pub record IsSized (s : Hash U) : Type 0 where
    pub some_size : 0 < s.hash_size
    pub sized : length s.bucket ≡ s.hash_size

  abbrev pub first : List U → Option U
  first [] = none
  first (u ∷ us) = some u

  abbrev pub tail : List U → List U
  tail [] = []
  tail (u ∷ us) = us

  find_entry-matching : (b : List (ℕ × U)) (id : ℕ) → find_entry b id ≡ first (matching b id)
  unfolding find_entry
  find_entry-matching [] id = refl
  find_entry-matching ((i, u) ∷ b) id = elim (Bool-cases (id == i)) [
    | inl e ↦ rw (find_entry, e) refl
    | inr e ↦ rw (find_entry, e) (find_entry-matching b id)
  ]

  matching-remove_entry :
      (b : List (ℕ × U)) (id j : ℕ)
      → matching (remove_entry b id) j ≡ (if j == id then tail (matching b j) else matching b j)
  unfolding remove_entry
  matching-remove_entry [] id j = elim (Bool-cases (j == id)) [
    | inl e ↦ rw e refl
    | inr e ↦ rw e refl
  ]
  matching-remove_entry ((i, u) ∷ b) id j = elim (Bool-cases (id == i)) [
    | inl e ↦
        let same : (j == i) ≡ (j == id) = ap (λ x. j == x) (sym ((==_iff id i).0 e)) in
        elim (Bool-cases (j == id)) [
          | inl k ↦ rw (remove_entry, e, same, k) refl
          | inr k ↦ rw (remove_entry, e, same, k) refl
        ]
    | inr e ↦ elim (Bool-cases (j == id)) [
      | inl k ↦
          let other : (j == i) ≡ false = ap (λ x. x == i) ((==_iff j id).0 k) ∙ e in
          rw (remove_entry, e, other, k) (matching-remove_entry b id j ∙ rw k refl)
      | inr k ↦
          rw (remove_entry, e, k)
            (ap (λ us. if j == i then u ∷ us else us) (matching-remove_entry b id j ∙ rw k refl))
    ]
  ]

  -- A bucket that is written, for a change `g` of the stack of one number.
  entries-set :
      (s : Hash U) (id j : ℕ) (b : List (ℕ × U)) (g : List U → List U)
      → IsSized s
      → matching b j ≡ (
          if j == id
          then g (matching (get_or s.bucket (id % s.hash_size) []) j)
          else matching (get_or s.bucket (id % s.hash_size) []) j)
      → matching (get_or (set s.bucket (id % s.hash_size) b) (j % s.hash_size) []) j
        ≡ (if j == id then g (entries s j) else entries s j)
  entries-set s id j b g v e =
      let n = s.hash_size in
      let inside : id % n < length s.bucket = omega (arith, v.sized, mod-lt id v.some_size) in
      elim (ℕ_discrete (j % n) (id % n)) [
        | yes k ↦
            ap (λ x. matching (get_or (set s.bucket (id % n) b) x []) j) k
            ∙ ap (λ x. matching x j) (get_or-set_here s.bucket (id % n) b [] inside)
            ∙ e
            ∙ ap
                (λ x.
                  if j == id
                  then g (matching (get_or s.bucket x []) j)
                  else matching (get_or s.bucket x []) j)
                (sym k)
        | no k ↦
            ap (λ x. matching x j) (get_or-set_other s.bucket (id % n) (j % n) b [] k)
            ∙ sym (rw (ne→== j id (λ m. k (ap (λ x. x % n) m))) refl)
      ]

  -- lookup gives the socket inserted last for the number, among those not removed.
  pub lookup-entries : (s : Hash U) (id : ℕ) → lookup s id ≡ first (entries s id)
  unfolding lookup
  lookup-entries s id = find_entry-matching (get_or s.bucket (id % s.hash_size) []) id

  -- insert puts the socket on top of those for its number, and touches no other number.
  pub entries-insert :
      (s : Hash U) (id j : ℕ) (u : U)
      → IsSized s
      → entries (insert s id u) j ≡ (if j == id then u ∷ entries s j else entries s j)
  unfolding insert
  entries-insert s id j u v =
      entries-set s id j ((id, u) ∷ get_or s.bucket (id % s.hash_size) []) (λ us. u ∷ us) v refl

  -- remove takes the socket inserted last for its number away, and touches no other number.
  pub entries-remove :
      (s : Hash U) (id j : ℕ)
      → IsSized s
      → entries (remove s id) j ≡ (if j == id then tail (entries s j) else entries s j)
  unfolding remove
  entries-remove s id j v =
      entries-set s id j (remove_entry (get_or s.bucket (id % s.hash_size) []) id) tail v
        (matching-remove_entry (get_or s.bucket (id % s.hash_size) []) id j)

  replicate_empty : (n i : ℕ) → get_or {A = List (ℕ × U)} (replicate n []) i [] ≡ []
  replicate_empty zero i = refl
  replicate_empty (suc n) zero = refl
  replicate_empty (suc n) (suc i) = replicate_empty n i

  -- After init no number has a socket.
  pub entries-init : (size j : ℕ) → entries (init size) j ≡ []
  unfolding init
  entries-init size j = ap (λ b. matching b j) (replicate_empty size (j % size))
