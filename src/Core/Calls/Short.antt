-- ===== src/Core/Calls/Short.antt =====
-- CUDT::sendfile (src/core.cpp) with a file that has fewer bytes than it is asked to send.
use udt_server.Base.{
  ℕ, ◌+◌, ◌-◌, ◌<◌, ◌≡◌, refl, sym, ap, ◌∙◌, Bool, true, false, Option, none, some, List, [], ◌∷◌,
  arith, length, inl, inr, ◌==◌, if◌then◌else◌, subst, Bool-cases,
}
use udt_server.Base.Int.{ℤ, pos}
use udt_server.Base.Outcome.{Outcome, returned, thrown, terminated}
use udt_server.SndBuffer.{SndBuffer}
use udt_server.SndBuffer.File.{FileRead, add_file, Counted, add_file-Counted}
use udt_server.Core.{World}
use udt_server.Core.Calls.{Endpoint, udt_of, udt_dgram, with_udt, unusable, is_lost, is_connected}
use udt_server.Core.Calls.Send.{delay_exp, counted}
use udt_server.Core.Calls.File.{
  Source, Round, Sent, fails, file_end, source_after, unit_of, file_sent, file_wait, sendfile_loop,
  sendfile,
}

abbrev pub IsThrown : Outcome ℤ → Type 0
IsThrown (returned x) = ⊥
IsThrown (thrown major minor) = Unit {0}
IsThrown terminated = ⊥

-- A call that is over has thrown, and its offset and the rest of its file add up to `all`.
abbrev pub Fails : ℕ → Option Sent → Type 0
Fails all none = Unit {0}
Fails all (some s) = IsThrown s.outcome × (s.moved + length s.source.rest ≡ all)

module _ (memory : Bool) (block all : ℕ) where
  -- What is claimed of the loop over the rounds `rs`.
  abbrev FailsAfter : List Round → Type 0
  FailsAfter rs =
      (e : Endpoint) (f : Source) (tosend moved : ℕ)
      → length f.rest < tosend
      → (f.failed ≡ false → f.at_end ≡ false)
      → moved + length f.rest ≡ all
      → Fails all (sendfile_loop memory block rs e f tosend moved)

  module _ (r : Round) (rs : List Round) (f : Source) (tosend moved : ℕ) where
    abbrev next : Endpoint → Option (SndBuffer × FileRead) → Option Sent
    next e none = fails (counted r.world e) f moved 3 2
    next e (some (b, g)) =
        sendfile_loop memory block rs (file_sent (counted r.world e) b) (source_after g)
          (tosend - g.total) (moved + g.total)

    abbrev reading : Endpoint → Option (SndBuffer × FileRead)
    reading e = add_file (udt_of e).snd_buffer memory f.rest true (unit_of block tosend)

    abbrev awake : Endpoint → Bool → Option Sent
    awake e false = fails (with_udt e (record (udt_of e) { peer_health = true })) f moved 7 0
    awake e true = next e (reading e)

    abbrev usable : Endpoint → Option ℕ → Option Sent
    usable e none = awake e (udt_of e).peer_health
    usable e (some minor) = fails e f moved 2 minor

    abbrev waited : Option Endpoint → Option Sent
    waited none = none
    waited (some e) = usable e (unusable e)

    abbrev ended : Endpoint → Bool → Option Sent
    ended e true = file_end e f moved
    ended e false = waited (file_wait r (r.others e))

    abbrev working : Endpoint → Bool → Option Sent
    working e true = fails e f moved 4 4
    working e false = ended e f.at_end

    module _ (ih : FailsAfter rs) (short : length f.rest < tosend)
        (sum : moved + length f.rest ≡ all) where
      next-Fails :
          (e : Endpoint) (o : Option (SndBuffer × FileRead))
          → Counted f.rest o
          → Fails all (next e o)
      next-Fails e none c = (tt, sum)
      next-Fails e (some (b, g)) c =
          ih (file_sent (counted r.world e) b) (source_after g) (tosend - g.total) (moved + g.total)
            (omega (arith, c, short)) (λ good. good) (omega (arith, c, sum))

      waited-Fails : (o : Option Endpoint) → Fails all (waited o)
      waited-Fails none = tt
      waited-Fails (some e) = elim (unusable e) as (λ o. Fails all (usable e o)) [
        | some minor ↦ (tt, sum)
        | none ↦ elim (udt_of e).peer_health as (λ b. Fails all (awake e b)) [
          | false ↦ (tt, sum)
          | true ↦
              next-Fails e (reading e)
                (add_file-Counted (udt_of e).snd_buffer memory f.rest true (unit_of block tosend))
        ]
      ]

  loop-FailsAfter : (rs : List Round) → FailsAfter rs
  unfolding sendfile_loop
  loop-FailsAfter [] e f tosend moved short both sum = elim (Bool-cases (tosend == 0)) [
    | inl b ↦ absurd (ground (arith, short))
    | inr b ↦ elim (Bool-cases f.failed) [
      | inl bad ↦ rw (b, bad) (tt, sum)
      | inr good ↦ rw (b, good, both good) tt
    ]
  ]
  loop-FailsAfter (r ∷ rs) e f tosend moved short both sum =
      let any : (tosend == 0) ≡ false = ground (arith, short) in
      let ends = ended r rs f tosend moved e in
      let works = working r rs f tosend moved e in
      let begins = λ (b : Bool). elim b as (λ (_ : Bool). Option Sent) [
        | true ↦ file_end e f moved
        | false ↦ works f.failed
      ] in
      elim (Bool-cases f.failed) [
        | inl bad ↦ subst (Fails all) (sym (ap begins any ∙ ap works bad)) (tt, sum)
        | inr good ↦ subst (Fails all) (sym (ap begins any ∙ ap works good ∙ ap ends (both good))) (
            waited-Fails r rs f tosend moved (loop-FailsAfter rs) short sum
              (file_wait r (r.others e)))
      ]

-- A connected stream socket is asked to send more bytes than the file has from the position on that
-- seekg finds, in good order. Whatever the other threads do, sendfile never returns: where it is over,
-- it has thrown an exception, also if all of the file is in the buffer. The offset has grown by the
-- bytes that were read.
pub sendfile_short :
    (w : World) (memory : Bool) (e : Endpoint) (f g : Source) (size block : ℕ) (rs : List Round)
    → (e.setup.sock_type == udt_dgram) ≡ false
    → is_lost e ≡ false
    → is_connected e ≡ true
    → length g.rest < size
    → g.failed ≡ false
    → g.at_end ≡ false
    → Fails (length g.rest) (sendfile w memory e f (some g) size block rs)
unfolding sendfile
sendfile_short w memory e f g size block rs kind usable there short good more =
    let sum : 0 + length g.rest ≡ length g.rest = omega arith in
    let any : (size == 0) ≡ false = ground (arith, short) in
    let ok : unusable e ≡ none = rw (usable, there) refl in
    let empty = λ (b : Bool).
      if b
      then some (record { endpoint = e; source = f; moved = 0; outcome = returned (pos 0) })
      else sendfile_loop memory block rs (delay_exp w e) g size 0 in
    let starts = λ (o : Option ℕ). elim o as (λ (_ : Option ℕ). Option Sent) [
      | some minor ↦ fails e f 0 2 minor
      | none ↦ empty (size == 0)
    ] in
    let opens = λ (b : Bool). if b then fails e f 0 5 10 else starts (unusable e) in
    subst (Fails (length g.rest)) (sym (ap opens kind ∙ ap starts ok ∙ ap empty any)) (
      loop-FailsAfter memory block (length g.rest) rs (delay_exp w e) g size 0 short (λ _. more)
        sum)
