-- ===== src/Epoll/Reach.antt =====
-- The states that the methods of CEPoll (src/epoll.cpp) reach from its constructor's.
use udt_server.Base.{
  ℕ, ◌≡◌, refl, sym, ap, subst, ap₂, ◌∙◌, Bool, true, false, Option, none, some, [], ◌==◌,
  if◌then◌else◌, Bool-cases, Option-cases, inl, inr,
}
use udt_server.Base.Int.{pos}
use udt_server.Base.IntSet.{IntSet, member, insert, erase}
use udt_server.Base.Dict.{find_key, erase_key, find_key-put, find_key-erase_key}
use udt_server.Base.Outcome.{Outcome, returned, thrown}
use udt_server.Epoll.{
  EpollDesc, Epoll, on_desc, with_desc, save, next_id, new_desc, create, watch, add_usock,
  add_ssock, remove_usock, remove_ssock, release, system_events, event_err, has, updated,
  update_epoll_sets, update_events,
}
use udt_server.Epoll.Ready.{Distinct, updated?, update_events_lem}

-- One successful call of a method. A call that throws leaves the state as it is.
pub data Step : Epoll → Epoll → Type 0 where
  creates :
      {s t : Epoll} (created : Option ℕ) (id : ℕ) → create s created ≡ returned (t, id) → Step s t
  adds :
      {s t : Epoll} (eid u : ℕ) (events : Option ℕ)
      → add_usock s eid u events ≡ returned t
      → Step s t
  adds_system :
      {s t : Epoll} (ctl : ℕ → ℕ → ℕ → Bool) (eid fd : ℕ) (events : Option ℕ)
      → add_ssock ctl s eid fd events ≡ returned t
      → Step s t
  removes : {s t : Epoll} (eid u : ℕ) → remove_usock s eid u ≡ returned t → Step s t
  removes_system :
      {s t : Epoll} (ctl : ℕ → ℕ → Bool) (eid fd : ℕ)
      → remove_ssock ctl s eid fd ≡ returned t
      → Step s t
  releases : {s t : Epoll} (eid : ℕ) → release s eid ≡ returned t → Step s t
  updates :
      {s t : Epoll} (uid : ℕ) (eids : IntSet) (events : ℕ) (enable : Bool)
      → Distinct eids
      → (update_events s uid eids events enable).0 ≡ t
      → Step s t

pub data Reach (s : Epoll) : Epoll → Type 0 where
  here : Reach s s
  next : {t u : Epoll} → Reach s t → Step t u → Reach s u

abbrev pub initial : Epoll
initial = record { id_seed = 0; polls = [] }

abbrev NoExcepts : EpollDesc → Type 0
NoExcepts d = (d.usocks_ex ≡ []) × (d.excepts ≡ [])

abbrev AllNoExcepts : Epoll → Type 0
AllNoExcepts s = (j : ℕ) (d : EpollDesc) → find_key j s.polls ≡ some d → NoExcepts d

some-same : {a b : EpollDesc} → some a ≡ some b → a ≡ b
some-same h = cc

-- What a method does to one descriptor keeps that, when it does so to the descriptor's sets.
save-AllNoExcepts :
    (s : Epoll) (eid : ℕ) (d : EpollDesc)
    → AllNoExcepts s
    → NoExcepts d
    → AllNoExcepts (save s eid d)
save-AllNoExcepts s eid d all n j d' e = elim (Bool-cases (j == eid)) [
  | inl same ↦
      let p : some d ≡ some d' = sym (find_key-put eid j d s.polls ∙ rw same refl) ∙ e in
      subst NoExcepts (some-same p) n
  | inr other ↦ all j d' (sym (find_key-put eid j d s.polls ∙ rw other refl) ∙ e)
]

with_desc-AllNoExcepts :
    (s t : Epoll) (eid : ℕ) (f : EpollDesc → Outcome Epoll)
    → with_desc s eid f ≡ returned t
    → ((d : EpollDesc) → find_key eid s.polls ≡ some d → f d ≡ returned t → AllNoExcepts t)
    → AllNoExcepts t
with_desc-AllNoExcepts s t eid f h k = elim (Option-cases (find_key eid s.polls)) [
  | inl e ↦ let clash : thrown (pos 5) 13 ≡ returned t = sym (ap (λ o. on_desc o f) e) ∙ h in cc
  | inr (d, e) ↦ k d e (sym (ap (λ o. on_desc o f) e) ∙ h)
]

returned-injective : {a b : Epoll} → returned a ≡ returned b → a ≡ b
returned-injective h = cc

module _ (s t : Epoll) (eid : ℕ) (all : AllNoExcepts s) where
  -- A method that stores a descriptor with the same watch for exceptions.
  stored :
      (d d' : EpollDesc)
      → find_key eid s.polls ≡ some d
      → (NoExcepts d → NoExcepts d')
      → returned (save s eid d') ≡ returned t
      → AllNoExcepts t
  stored d d' e keep h =
      subst AllNoExcepts (returned-injective h)
        (save-AllNoExcepts s eid d' all (keep (all eid d e)))

  stored_if :
      (b : Bool) (d d' : EpollDesc)
      → find_key eid s.polls ≡ some d
      → (NoExcepts d → NoExcepts d')
      → (if b then returned (save s eid d') else thrown (pos 0) 0) ≡ returned t
      → AllNoExcepts t
  stored_if true d d' e keep h = stored d d' e keep h
  stored_if false d d' e keep h = cc

created-same :
    {a b : Epoll} {i j : ℕ}
    → ◌≡◌ {A = Outcome (Epoll × ℕ)} (returned (a, i)) (returned (b, j))
    → a ≡ b
created-same h = cc

erase_key-AllNoExcepts :
    (s : Epoll) (eid : ℕ)
    → AllNoExcepts s
    → AllNoExcepts (record s { polls = erase_key eid s.polls })
erase_key-AllNoExcepts s eid all j d e = elim (Bool-cases (j == eid)) [
  | inl same ↦
      let clash : none ≡ some d = sym (find_key-erase_key eid j s.polls ∙ rw same refl) ∙ e in cc
  | inr other ↦ all j d (sym (find_key-erase_key eid j s.polls ∙ rw other refl) ∙ e)
]

erase-empty : (x : ℕ) (s : IntSet) → s ≡ [] → erase x s ≡ []
unfolding erase
erase-empty x s h = ap (erase x) h

update-empty : (u : ℕ) (enable : Bool) → update_epoll_sets u [] [] enable ≡ []
unfolding update_epoll_sets member erase
update-empty u true = refl
update-empty u false = refl

updated-NoExcepts :
    (d : EpollDesc) (u events : ℕ) (enable : Bool)
    → NoExcepts d
    → NoExcepts (updated d u events enable)
updated-NoExcepts d u events enable n = (
  n.0,
  elim (Bool-cases (has events event_err)) [
    | inl b ↦ rw b (ap₂ (λ a r. update_epoll_sets u a r enable) (n.0) (n.1) ∙ update-empty u enable)
    | inr b ↦ rw b (n.1)
  ],
)

updated?-NoExcepts :
    (o : Option EpollDesc) (u events : ℕ) (enable b : Bool) (d : EpollDesc)
    → ((d' : EpollDesc) → o ≡ some d' → NoExcepts d')
    → (if b then updated? o u events enable else o) ≡ some d
    → NoExcepts d
updated?-NoExcepts none u events enable true d all h = cc
updated?-NoExcepts none u events enable false d all h = cc
updated?-NoExcepts (some d') u events enable true d all h =
    subst NoExcepts (some-same h) (updated-NoExcepts d' u events enable (all d' refl))
updated?-NoExcepts (some d') u events enable false d all h = all d h

Step-AllNoExcepts : {s t : Epoll} → Step s t → AllNoExcepts s → AllNoExcepts t
unfolding create add_usock add_ssock remove_usock remove_ssock release
Step-AllNoExcepts {s} {t} (creates none id h) all = cc
Step-AllNoExcepts {s} {t} (creates (some local_id) id h) all =
    let id' = next_id s.id_seed in
    let s' = record s { id_seed = id' } in
    let same : save s' id' (new_desc id' local_id) ≡ t = created-same h in
    subst AllNoExcepts same (save-AllNoExcepts s' id' (new_desc id' local_id) all (refl, refl))
Step-AllNoExcepts {s} {t} (adds eid u events h) all =
    with_desc-AllNoExcepts s t eid _ h (λ d e. stored s t eid all d (watch d u events) e (λ n. n))
Step-AllNoExcepts {s} {t} (adds_system ctl eid fd events h) all =
    with_desc-AllNoExcepts s t eid _ h (λ d e.
      stored_if s t eid all (ctl d.local_id fd (system_events events)) d
        (record d { locals = insert fd d.locals }) e (λ n. n))
Step-AllNoExcepts {s} {t} (removes eid u h) all =
    with_desc-AllNoExcepts s t eid _ h
      (λ d e. stored s t eid all d _ e (λ n. (erase-empty u d.usocks_ex n.0, n.1)))
Step-AllNoExcepts {s} {t} (removes_system ctl eid fd h) all =
    with_desc-AllNoExcepts s t eid _ h (λ d e.
      stored_if s t eid all (ctl d.local_id fd) d (record d { locals = erase fd d.locals }) e
        (λ n. n))
Step-AllNoExcepts {s} {t} (releases eid h) all =
    with_desc-AllNoExcepts s t eid _ h
      (λ d e h'. subst AllNoExcepts (returned-injective h') (erase_key-AllNoExcepts s eid all))
Step-AllNoExcepts {s} {t} (updates uid eids events enable distinct h) all =
    subst AllNoExcepts h (λ j d e.
      updated?-NoExcepts (find_key j s.polls) uid events enable (member j eids) d (all j)
        (sym (update_events_lem s uid eids events enable j distinct).0 ∙ e))

Reach-AllNoExcepts : {s t : Epoll} → Reach s t → AllNoExcepts s → AllNoExcepts t
Reach-AllNoExcepts here all = all
Reach-AllNoExcepts (next r st) all = Step-AllNoExcepts st (Reach-AllNoExcepts r all)

initial-AllNoExcepts : AllNoExcepts initial
unfolding find_key
initial-AllNoExcepts j d e = cc

-- In a state that any sequence of successful calls reaches, no descriptor watches a socket for
-- exceptions and none has a socket with one, whatever events the application has asked for and the
-- sockets have reported.
pub Reach-NoExcepts :
    {s : Epoll} (j : ℕ) (d : EpollDesc)
    → Reach initial s
    → find_key j s.polls ≡ some d
    → (d.usocks_ex ≡ []) × (d.excepts ≡ [])
Reach-NoExcepts j d r e = Reach-AllNoExcepts r initial-AllNoExcepts j d e
