-- ===== src/Epoll/Wait.antt =====
-- The loop of CEPoll::wait (src/epoll.cpp): when it ends.
use udt_server.Core.Times.{since}
use udt_server.Base.{
  ◌*◌, ◌≤◌, ◌<◌, ◌^◌, ap, ◌∙◌, leb, lt→ltb, ℕ, ◌≡◌, refl, Bool, true, false, ◌&&◌, ◌||◌, not, none,
  some, List, [], ◌∷◌, arith, ltb, Bool-cases, inl, inr, ◌⊎◌, ltb→lt, if◌then◌else◌,
}
use udt_server.Base.Int.{ℤ, pos, negsuc}
use udt_server.Base.Dict.{find_key}
use udt_server.Base.Outcome.{Outcome, returned, thrown, terminated}
use udt_server.Epoll.{
  EpollDesc, Wanted, Found, Look, nothing, add_found, look, wait, wait_loop, is_idle, is_negative,
  is_over, on_desc,
}
use udt_server.Epoll.Ready.{look_at}

-- Whether the time is over after one of the rounds.
abbrev pub some_over : ℤ → ℕ → List Look → Bool
some_over ms entered [] = false
some_over ms entered (l ∷ ls) = is_over ms entered l.time || some_over ms entered ls

le→leb : (a b : ℕ) → a ≤ b → leb a b ≡ true
le→leb a b h = ground arith

or-true : (b : Bool) → (b || true) ≡ true
or-true true = refl
or-true false = refl

-- How a call may end: with sockets, or with one of three exceptions, for sockets that nobody waits for,
-- for an epoll that is not there, and for the time.
abbrev pub IsEnd : Outcome Found → Type 0
IsEnd (returned g) = 0 < g.total
IsEnd (thrown major minor) =
    ((major ≡ pos 5) × ((minor ≡ 3) ⊎ (minor ≡ 13))) ⊎ ((major ≡ pos 6) × (minor ≡ 3))
IsEnd terminated = ⊥

-- A round finds sockets, or is the last one.
abbrev IsLook : Outcome Found → Type 0
IsLook (returned g) = Unit {0}
IsLook (thrown major minor) = IsEnd (thrown major minor)
IsLook terminated = ⊥

look-IsLook : (l : Look) (eid : ℕ) (w : Wanted) (ms : ℤ) (f : Found) → IsLook (look l eid w ms f)
unfolding look
look-IsLook l eid w ms f =
    let finds = λ (d : EpollDesc) (b : Bool).
      if b then thrown (pos 5) 3 else returned (add_found d w l.system f) in
    elim (find_key eid l.epoll.polls)
      as (λ o. IsLook (on_desc o (λ d. finds d (is_idle d && is_negative ms)))) [
        | none ↦ inl (refl, inr refl)
        | some d ↦ elim (is_idle d && is_negative ms) as (λ b. IsLook (finds d b)) [
          | true ↦ inl (refl, inl refl)
          | false ↦ tt
        ]
      ]

Outcome-cases :
    (o : Outcome Found)
    → IsLook o
    → ((g : Found) × (o ≡ returned g)) ⊎ ((a : ℤ) × (b : ℕ) × (o ≡ thrown a b) × IsEnd (thrown a b))
Outcome-cases (returned g) h = inl (g, refl)
Outcome-cases (thrown a b) h = inr (a, b, refl, h)
Outcome-cases terminated h = absurd h

wait_loop_ends :
    (eid : ℕ) (w : Wanted) (ms : ℤ) (entered : ℕ) (ls : List Look) (f : Found)
    → some_over ms entered ls ≡ true
    → (r : Outcome Found) × (wait_loop eid w ms entered ls f ≡ some r) × IsEnd r
unfolding wait_loop
wait_loop_ends eid w ms entered [] f h = cc
wait_loop_ends eid w ms entered (l ∷ ls) f h =
    elim (Outcome-cases (look l eid w ms f) (look-IsLook l eid w ms f)) [
      | inr (a, b, e, end) ↦ (thrown a b, rw (wait_loop, e) refl, end)
      | inl (g, e) ↦ elim (Bool-cases (ltb 0 g.total)) [
        | inl t ↦ (returned g, rw (wait_loop, e, t) refl, ltb→lt 0 g.total t)
        | inr t ↦ elim (Bool-cases (is_over ms entered l.time)) [
          | inl o ↦ (thrown (pos 6) 3, rw (wait_loop, e, t, o) refl, inr (refl, refl))
          | inr o ↦
              let (r, rest, end) = wait_loop_ends eid w ms entered ls g (ground arith) in
              (r, rw (wait_loop, e, t, o) rest, end)
        ]
      ]
    ]

-- After one of the rounds the time is over, by less than 2 ^ 63 microseconds.
abbrev pub SomeOver : ℕ → ℕ → List Look → Type 0
SomeOver n entered [] = ⊥
SomeOver n entered (l ∷ ls) =
    ((n * 1000 ≤ since l.time entered) × (since l.time entered < 2 ^ 63)) ⊎ SomeOver n entered ls

is_over_lem :
    (n entered now : ℕ)
    → n * 1000 ≤ since now entered
    → since now entered < 2 ^ 63
    → is_over (pos n) entered now ≡ true
is_over_lem n entered now late small =
    rw (lt→ltb (since now entered) (2 ^ 63) small) (le→leb (n * 1000) (since now entered) late)

some_over_lem :
    (n entered : ℕ) (ls : List Look) → SomeOver n entered ls → some_over (pos n) entered ls ≡ true
some_over_lem n entered [] h = absurd h
some_over_lem n entered (l ∷ ls) (inl (late, small)) =
    rw (is_over_lem n entered l.time late small) refl
some_over_lem n entered (l ∷ ls) (inr later) =
    ap (λ b. is_over (pos n) entered l.time || b) (some_over_lem n entered ls later)
    ∙ or-true (is_over (pos n) entered l.time)

-- A call of wait with a limited time ends by the first round after which that time is over, and
-- less than 2 ^ 63 microseconds have passed: it returns with more than 0 sockets, or throws (5, 3),
-- (5, 13) or (6, 3). It never returns 0.
pub wait_ends :
    (eid : ℕ) (w : Wanted) (n entered : ℕ) (ls : List Look)
    → SomeOver n entered ls
    → (r : Outcome Found) × (wait eid w (pos n) entered ls ≡ some r) × IsEnd r
unfolding wait
wait_ends eid w n entered ls h =
    let ends = wait_loop_ends eid w (pos n) entered ls nothing (some_over_lem n entered ls h) in
    elim (Bool-cases (not w.readfds && not w.writefds && not w.lrfds && w.lwfds && false)) [
      | inl b ↦ (thrown (pos 5) 3, rw b refl, inl (refl, inl refl))
      | inr b ↦ (ends.0, rw b ends.1, ends.2)
    ]

-- Every round finds the epoll, with a socket that it watches.
abbrev pub AllActive : ℕ → List Look → Type 0
AllActive eid [] = Unit {0}
AllActive eid (l ∷ ls) =
    ((d : EpollDesc) × (find_key eid l.epoll.polls ≡ some d) × (is_idle d ≡ false))
    × AllActive eid ls

abbrev nobody : Wanted
nobody = record { readfds = false; writefds = false; lrfds = false; lwfds = false }

-- A call of wait without any set and without a limit of time, on an epoll that watches some socket
-- all the while, waits on after any number of rounds, whatever sockets are ready.
pub wait_without_sets :
    (eid n entered : ℕ) (ls : List Look)
    → AllActive eid ls
    → wait eid nobody (negsuc n) entered ls ≡ none
unfolding wait wait_loop add_found
wait_without_sets eid n entered [] a = refl
wait_without_sets eid n entered (l ∷ ls) ((d, e, active), rest) =
    let idle : (is_idle d && is_negative (negsuc n)) ≡ false = rw active refl in
    rw (wait_loop, look_at l eid nobody (negsuc n) d nothing e idle)
      (wait_without_sets eid n entered ls rest)
