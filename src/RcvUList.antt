-- ===== src/RcvUList.antt =====
-- src/queue.h and src/queue.cpp, the class CRcvUList: the sockets of a receiving queue, in the order
-- in which their timers were last checked.
-- A socket is a number, and stands for its CRNode. The links, times and marks of all nodes are
-- functions of it. A null link is `none`. The clock's answer is an argument. A call's result is
-- `none` where it writes through a null pointer.
pub mod Update
mod Tests
use udt_server.Base.{ℕ, Bool, true, false, Option, none, some, ◌==◌, if◌then◌else◌}

pub record RcvUList : Type 0 where
  pub head : Option ℕ
  pub last : Option ℕ
  pub prev : ℕ → Option ℕ
  pub next : ℕ → Option ℕ
  pub time_stamp : ℕ → ℕ
  pub on_list : ℕ → Bool

abbrev pub assign {ℓ} : {A : Type ℓ} → (ℕ → A) → ℕ → A → ℕ → A
assign f u v x = if u == x then v else f x

-- The node `u` comes behind the last node `l`.
abbrev pub put_last : RcvUList → ℕ → ℕ → RcvUList
put_last s u l = record s {
  prev = assign s.prev u (some l);
  next = assign (assign s.next u none) l (some u);
  last = some u;
}

abbrev pub stamped : RcvUList → ℕ → ℕ → RcvUList
stamped s u now = record s { time_stamp = assign s.time_stamp u now }

unfoldable pub insert : RcvUList → ℕ → ℕ → Option RcvUList
insert s0 u now =
    let s = stamped s0 u now in
    elim s.head [
      | none ↦ some (record s {
        prev = assign s.prev u none;
        next = assign s.next u none;
        last = some u;
        head = some u;
      })
      | some h ↦ elim s.last [ none ↦ none | some l ↦ some (put_last s u l) ]
    ]

-- The neighbours of a node with these links are joined.
abbrev pub join : RcvUList → Option ℕ → Option ℕ → RcvUList
join s none none = record s { head = none; last = none }
join s none (some n) = record s { head = some n; prev = assign s.prev n none }
join s (some p) none = record s { next = assign s.next p none; last = some p }
join s (some p) (some n) = record s {
  next = assign s.next p (some n);
  prev = assign s.prev n (some p);
}

-- A node without neighbours.
abbrev pub cleared : RcvUList → ℕ → RcvUList
cleared s u = record s { next = assign s.next u none; prev = assign s.prev u none }

unfoldable pub remove : RcvUList → ℕ → RcvUList
remove s u = if s.on_list u then cleared (join s (s.prev u) (s.next u)) u else s

unfoldable pub update : RcvUList → ℕ → ℕ → Option RcvUList
update s0 u now =
    let s = stamped s0 u now in
    if s0.on_list u
    then elim (s.next u) [
      | none ↦ some s
      | some n ↦ elim s.last [
        | none ↦ none
        | some l ↦ some (put_last (join s (s.prev u) (some n)) u l)
      ]
    ]
    else some s0
