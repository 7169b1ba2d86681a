-- ===== src/Epoll/Ready.antt =====
-- CEPoll::update_events and CEPoll::wait (src/epoll.cpp): what a socket reports is what the
-- application gets.
use udt_server.Base.{
  ℕ, suc, ◌<◌, ◌≡◌, refl, ap, ◌∙◌, Bool, true, false, ◌&&◌, ◌||◌, not, Option, none, some, List, [],
  ◌∷◌, ◌++◌, arith, inl, inr, ltb, if◌then◌else◌, lt→ltb, Option-cases,
}
use udt_server.Base.Int.{ℤ, pos}
use udt_server.Base.IntSet.{
  IntSet, member, erase, insert_all, member-insert, member-erase, member-insert_all,
  member-nonempty, length-nonempty, member-append,
}
use udt_server.Base.Dict.{Dict, find_key, put, find_key-put}
use udt_server.Base.Outcome.{returned, thrown}
use udt_server.Epoll.{
  EpollDesc, Epoll, on_desc, event_in, has, update_epoll_sets, updated, update_loop, erase_lost,
  update_events, Wanted, Found, nothing, find_reads, find_writes, local_read, local_write,
  find_locals, add_found, Look, is_idle, is_negative, look, wait_loop, wait,
}

-- A std::set has each element once.
abbrev pub Distinct : List ℕ → Type 0
Distinct [] = Unit {0}
Distinct (x ∷ xs) = (member x xs ≡ false) × Distinct xs

abbrev pub is_some : {A : Type 0} → Option A → Bool
is_some none = false
is_some (some a) = true

abbrev pub updated? : Option EpollDesc → ℕ → ℕ → Bool → Option EpollDesc
updated? none uid events enable = none
updated? (some d) uid events enable = some (updated d uid events enable)

module _ (uid events : ℕ) (enable : Bool) where
  pub find_key-update_loop :
      (is : List ℕ) (ps : Dict EpollDesc) (lost : List ℕ) (j : ℕ)
      → Distinct is
      → find_key j (update_loop uid events enable is ps lost).0
        ≡ (if member j is then updated? (find_key j ps) uid events enable else find_key j ps)
  unfolding update_loop member
  find_key-update_loop [] ps lost j d = refl
  find_key-update_loop (i ∷ is) ps lost j d = elim (Option-cases (find_key i ps)) [
    | inl e ↦
        rw (update_loop, e) (ground (arith, find_key-update_loop is ps (lost ++ (i ∷ [])) j d.1))
    | inr (v, e) ↦
        rw (update_loop, e)
          (ground (
            arith,
            find_key-update_loop is (put i (updated v uid events enable) ps) lost j d.1,
            find_key-put i j (updated v uid events enable) ps,
          ))
  ]

  member-lost :
      (is : List ℕ) (ps : Dict EpollDesc) (lost : List ℕ) (j : ℕ)
      → Distinct is
      → member j (update_loop uid events enable is ps lost).1
        ≡ (member j lost || (member j is && not (is_some (find_key j ps))))
  unfolding update_loop member
  member-lost [] ps lost j d = ground arith
  member-lost (i ∷ is) ps lost j d = elim (Option-cases (find_key i ps)) [
    | inl e ↦
        rw (update_loop, e)
          (ground
            (arith, member-lost is ps (lost ++ (i ∷ [])) j d.1, member-append j lost (i ∷ [])))
    | inr (v, e) ↦
        rw (update_loop, e)
          (ground (
            arith,
            member-lost is (put i (updated v uid events enable) ps) lost j d.1,
            find_key-put i j (updated v uid events enable) ps,
          ))
  ]

member-erase_lost :
    (is s : IntSet) (j : ℕ)
    → member j (erase_lost is s) ≡ (if member j is then false else member j s)
unfolding erase_lost member
member-erase_lost [] s j = refl
member-erase_lost (i ∷ is) s j =
    ground (arith, member-erase_lost is (erase i s) j, member-erase i j s)

-- A call of update_events changes, by the socket's ID, the descriptors that the set of IDs names, and
-- no others; the caller's set loses the IDs that no descriptor has, and no others. The set has each
-- ID once.
pub update_events_lem :
    (s : Epoll) (uid : ℕ) (eids : IntSet) (events : ℕ) (enable : Bool) (j : ℕ)
    → Distinct eids
    → (find_key j (update_events s uid eids events enable).0.polls ≡ (
        if member j eids
        then updated? (find_key j s.polls) uid events enable
        else find_key j s.polls))
      × (member j (update_events s uid eids events enable).1
          ≡ (member j eids && is_some (find_key j s.polls)))
unfolding update_events member
update_events_lem s uid eids events enable j d = (
  find_key-update_loop uid events enable eids s.polls [] j d,
  ground (
    arith,
    member-erase_lost (update_loop uid events enable eids s.polls []).1 eids j,
    member-lost uid events enable eids s.polls [] j d,
  ),
)

-- The system's sockets do not touch the sets of UDT's, nor lessen the count.
pub find_locals_lem :
    (w : Wanted) (ev : List (ℕ × ℕ)) (f : Found)
    → ((find_locals w ev f).readfds ≡ f.readfds)
      × ((find_locals w ev f).writefds ≡ f.writefds)
      × (f.total < suc (find_locals w ev f).total)
unfolding find_locals
find_locals_lem w [] f = (refl, refl, omega arith)
find_locals_lem w ((fd, events) ∷ ev) f =
    ground (arith, find_locals_lem w ev (local_write w fd events (local_read w fd events f)))

-- What a round finds for reading, when anything is ready.
add_found_reads :
    (d : EpollDesc) (w : Wanted) (system : List (ℕ × ℕ)) (u : ℕ)
    → w.readfds ≡ true
    → member u d.reads ≡ true
    → ((add_found d w system nothing).readfds ≡ insert_all d.excepts d.reads)
      × (0 < (add_found d w system nothing).total)
unfolding add_found
add_found_reads d w system u r m =
    let n = member-nonempty u d.reads m in
    ground (
      arith,
      n,
      length-nonempty d.reads n,
      find_locals_lem w system (find_writes d w (find_reads d w nothing)),
    )

pub look_at :
    (l : Look) (eid : ℕ) (w : Wanted) (ms : ℤ) (d : EpollDesc) (f : Found)
    → find_key eid l.epoll.polls ≡ some d
    → (is_idle d && is_negative ms) ≡ false
    → look l eid w ms f ≡ returned (add_found d w l.system f)
unfolding look
look_at l eid w ms d f e active =
    ap
      (λ o. on_desc o (λ d'.
        if is_idle d' && is_negative ms
        then thrown (pos 5) 3
        else returned (add_found d' w l.system f)))
      e
    ∙ rw active refl

-- A round that finds sockets is the last one.
pub wait_loop_found :
    (l : Look) (ls : List Look) (eid : ℕ) (w : Wanted) (ms : ℤ) (entered : ℕ) (f g : Found)
    → look l eid w ms f ≡ returned g
    → ltb 0 g.total ≡ true
    → wait_loop eid w ms entered (l ∷ ls) f ≡ some (returned g)
unfolding wait_loop
wait_loop_found l ls eid w ms entered f g h t = rw (wait_loop, h, t) refl

pub wait-wait_loop :
    (ls : List Look) (eid : ℕ) (w : Wanted) (ms : ℤ) (entered : ℕ)
    → w.readfds ≡ true
    → wait eid w ms entered ls ≡ wait_loop eid w ms entered ls nothing
unfolding wait
wait-wait_loop ls eid w ms entered r =
    ap
      (λ b.
        if not b && not w.writefds && not w.lrfds && w.lwfds && is_negative ms
        then some (thrown (pos 5) 3)
        else wait_loop eid w ms entered ls nothing)
      r

-- A call of wait that asks for the sockets ready for reading, while one is ready and the wait is
-- limited or a socket is watched, returns in its first round. It gets the sockets that are ready or
-- have an exception, and no others.
pub wait_at_once :
    (l : Look) (ls : List Look) (eid : ℕ) (w : Wanted) (ms : ℤ) (entered : ℕ) (d : EpollDesc)
    (u : ℕ)
    → find_key eid l.epoll.polls ≡ some d
    → (is_idle d && is_negative ms) ≡ false
    → w.readfds ≡ true
    → member u d.reads ≡ true
    → (g : Found) × (wait eid w ms entered (l ∷ ls) ≡ some (returned g))
      × ((v : ℕ) → member v g.readfds ≡ (member v d.excepts || member v d.reads))
wait_at_once l ls eid w ms entered d u e active r m =
    let g = add_found d w l.system nothing in
    let (set, count) = add_found_reads d w l.system u r m in
    (
      g,
      wait-wait_loop (l ∷ ls) eid w ms entered r
          ∙ wait_loop_found l ls eid w ms entered nothing g (look_at l eid w ms d nothing e active)
              (lt→ltb 0 g.total count),
      λ v. ap (member v) set ∙ (member-insert_all v d.excepts d.reads ∙ ground arith),
    )

watched-active :
    (d : EpollDesc) (u : ℕ) (ms : ℤ)
    → member u d.usocks_in ≡ true
    → (is_idle d && is_negative ms) ≡ false
watched-active d u ms m = rw (member-nonempty u d.usocks_in m) refl

member-update_epoll_sets :
    (u : ℕ) (watched result : IntSet)
    → member u watched ≡ true
    → member u (update_epoll_sets u watched result true) ≡ true
unfolding update_epoll_sets
member-update_epoll_sets u watched result m = rw m (member-insert u u result ∙ ground arith)

-- A socket that an application watches for reading, and that reports to its epolls that it can be
-- read, is in the answer of the next call of wait that asks for such sockets.
pub reported_found :
    (s : Epoll) (l : Look) (ls : List Look) (eid uid events : ℕ) (eids : IntSet) (w : Wanted)
    (ms : ℤ) (entered : ℕ) (d : EpollDesc)
    → Distinct eids
    → member eid eids ≡ true
    → find_key eid s.polls ≡ some d
    → member uid d.usocks_in ≡ true
    → has events event_in ≡ true
    → l.epoll ≡ (update_events s uid eids events true).0
    → w.readfds ≡ true
    → (g : Found) × (wait eid w ms entered (l ∷ ls) ≡ some (returned g))
      × (member uid g.readfds ≡ true)
reported_found s l ls eid uid events eids w ms entered d distinct listed e watched bit same r =
    let d' = updated d uid events true in
    let at : find_key eid l.epoll.polls ≡ some d' =
      ap (λ t. find_key eid t.polls) same
      ∙ (update_events_lem s uid eids events true eid distinct).0
      ∙ rw (listed, e) refl in
    let ready : member uid d'.reads ≡ true =
      rw bit (member-update_epoll_sets uid d.usocks_in d.reads watched) in
    let (g, returns, set) =
      wait_at_once l ls eid w ms entered d' uid at (watched-active d uid ms watched) r ready in
    (g, returns, set uid ∙ rw ready (ground arith))
