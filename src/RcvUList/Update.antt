-- ===== src/RcvUList/Update.antt =====
-- CRcvUList::update (src/queue.cpp) against remove and insert.
use udt_server.Base.{
  ℕ, ◌≡◌, refl, sym, ap, ◌∙◌, true, Option, none, some, inl, inr, ◌==◌, Bool-cases, Option-cases,
}
use udt_server.RcvUList.{RcvUList, assign, put_last, stamped, join, cleared, insert, remove, update}

assign-twice_at :
    (f : ℕ → Option ℕ) (u : ℕ) (a b : Option ℕ) (x : ℕ)
    → assign (assign f u a) u b x ≡ assign f u b x
assign-twice_at f u a b x = elim (Bool-cases (u == x)) [ inl e ↦ rw e refl | inr e ↦ rw e refl ]

-- The second of two writes to one place counts.
assign-assign :
    (f : ℕ → Option ℕ) (u : ℕ) (a b : Option ℕ) → assign (assign f u a) u b ≡ assign f u b
assign-assign f u a b = λ i x. assign-twice_at f u a b x i

put_last-cleared : (s : RcvUList) (u l : ℕ) → put_last (cleared s u) u l ≡ put_last s u l
put_last-cleared s u l = λ i. record s {
  prev = assign-assign s.prev u none (some l) i;
  next = assign (assign-assign s.next u none none i) l (some u);
  last = some u;
}

removed_at :
    (s : RcvUList) (u : ℕ) (a b : Option ℕ)
    → s.on_list u ≡ true
    → s.prev u ≡ a
    → s.next u ≡ b
    → remove s u ≡ cleared (join s a b) u
unfolding remove
removed_at s u a b on before later = rw (on, before, later) refl

updated_at :
    (s : RcvUList) (u n l now : ℕ) (a : Option ℕ)
    → s.on_list u ≡ true
    → s.prev u ≡ a
    → s.next u ≡ some n
    → s.last ≡ some l
    → update s u now ≡ some (put_last (join (stamped s u now) a (some n)) u l)
unfolding update
updated_at s u n l now a on before later last =
    rw (on, later)
      (ap
          (λ (v : Option ℕ). elim v [
            | none ↦ none
            | some l' ↦ some (put_last (join (stamped s u now) (s.prev u) (some n)) u l')
          ])
          last
        ∙ ap (λ v. some (put_last (join (stamped s u now) v (some n)) u l)) before)

insert_first :
    (s : RcvUList) (u n l now : ℕ)
    → s.last ≡ some l
    → insert (cleared (join s none (some n)) u) u now
      ≡ some (put_last (join (stamped s u now) none (some n)) u l)
unfolding insert
insert_first s u n l now last =
    rw last (ap some (put_last-cleared (join (stamped s u now) none (some n)) u l))

insert_middle :
    (s : RcvUList) (u p n h l now : ℕ)
    → s.head ≡ some h
    → s.last ≡ some l
    → insert (cleared (join s (some p) (some n)) u) u now
      ≡ some (put_last (join (stamped s u now) (some p) (some n)) u l)
unfolding insert
insert_middle s u p n h l now first last =
    let r = cleared (join (stamped s u now) (some p) (some n)) u in
    ap
      (λ (v : Option ℕ). elim v [
        | none ↦ some (record r {
          prev = assign r.prev u none;
          next = assign r.next u none;
          last = some u;
          head = some u;
        })
        | some _ ↦ elim s.last [ none ↦ none | some l' ↦ some (put_last r u l') ]
      ])
      first
    ∙ ap (λ (v : Option ℕ). elim v [ none ↦ none | some l' ↦ some (put_last r u l') ]) last
    ∙ ap some (put_last-cleared (join (stamped s u now) (some p) (some n)) u l)

-- For a socket that is on the list and not the last one, of a list with a first and a last socket, a
-- call of update gives what remove followed by insert at the same time gives: the same list, links,
-- times and marks.
pub update-insert-remove :
    (s : RcvUList) (u n h l now : ℕ)
    → s.on_list u ≡ true
    → s.next u ≡ some n
    → s.head ≡ some h
    → s.last ≡ some l
    → update s u now ≡ insert (remove s u) u now
update-insert-remove s u n h l now on later first last = elim (Option-cases (s.prev u)) [
  | inl e ↦
      updated_at s u n l now none on e later last
      ∙ sym (
          ap (λ r. insert r u now) (removed_at s u none (some n) on e later)
          ∙ insert_first s u n l now last)
  | inr (p, e) ↦
      updated_at s u n l now (some p) on e later last
      ∙ sym (
          ap (λ r. insert r u now) (removed_at s u (some p) (some n) on e later)
          ∙ insert_middle s u p n h l now first last)
]
