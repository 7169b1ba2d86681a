-- ===== src/Core/Calls/File.antt =====
-- CUDT::sendfile of src/core.cpp. The stream is the bytes from its position on, with failbit and eofbit:
-- a read that gets fewer bytes than it asks for sets both, as the standard says.
-- A size that is not positive is 0.
use udt_server.Base.{
  ℕ, ◌+◌, ◌-◌, Bool, true, false, ◌&&◌, not, Option, none, some, List, [], ◌∷◌, ltb, ◌==◌,
  if◌then◌else◌,
}
use udt_server.Base.Int.{ℤ, pos}
use udt_server.Base.Outcome.{Outcome, returned, thrown}
use udt_server.SndBuffer.{SndBuffer}
use udt_server.SndBuffer.File.{FileRead, add_file}
use udt_server.Core.{World, happened, reschedule, epoll_off}
use udt_server.Core.Calls.{
  Endpoint, udt_dgram, udt_of, with_udt, Wake, wait_while, unusable, is_full,
}
use udt_server.Core.Calls.Send.{delay_exp, send_waits, counted}

pub record Source : Type 0 where
  pub rest : List ℕ
  pub failed : Bool
  pub at_end : Bool

-- A round of the loop: the clock, what other threads do to the socket before it, and what the thread
-- finds when it wakes.
pub record Round : Type 0 where
  pub world : World
  pub others : Endpoint → Endpoint
  pub wakes : List Wake

-- What a call leaves: the socket, the file, by how much the offset has grown, and the result.
pub record Sent : Type 0 where
  pub endpoint : Endpoint
  pub source : Source
  pub moved : ℕ
  pub outcome : Outcome ℤ

abbrev pub fails : Endpoint → Source → ℕ → ℕ → ℕ → Option Sent
fails e f moved major minor =
    some (record { endpoint = e; source = f; moved = moved; outcome = thrown (pos major) minor })

-- After the loop.
unfoldable pub file_end : Endpoint → Source → ℕ → Option Sent
file_end e f moved = some (record {
  endpoint = if is_full e then with_udt e (happened (udt_of e) (epoll_off 4)) else e;
  source = f;
  moved = moved;
  outcome = returned (pos moved);
})

-- The stream after addBufferFromFile has read from it.
abbrev pub source_after : FileRead → Source
source_after f = record { rest = f.rest; failed = not f.good; at_end = not f.good }

abbrev pub unit_of : ℕ → ℕ → ℕ
unit_of block tosend = if ltb tosend block then tosend else block

-- The socket with the new blocks, in the schedule.
abbrev pub file_sent : Endpoint → SndBuffer → Endpoint
file_sent e b = with_udt e (happened (record (udt_of e) { snd_buffer = b }) (reschedule false))

-- The wait of a round has no limit.
abbrev pub file_wait : Round → Endpoint → Option Endpoint
file_wait r e = wait_while (λ f. send_waits is_full f && (udt_of f).peer_health) none e 0 r.wakes

-- The loop with `tosend` bytes to send, of which the ones before are `moved`.
unfoldable pub sendfile_loop : Bool → ℕ → List Round → Endpoint → Source → ℕ → ℕ → Option Sent
sendfile_loop memory block [] e f tosend moved =
    if tosend == 0
    then file_end e f moved
    else if f.failed
    then fails e f moved 4 4
    else if f.at_end
    then file_end e f moved
    else none
sendfile_loop memory block (r ∷ rs) e f tosend moved = elim (tosend == 0) [
  | true ↦ file_end e f moved
  | false ↦ elim f.failed [
    | true ↦ fails e f moved 4 4
    | false ↦ elim f.at_end [
      | true ↦ file_end e f moved
      | false ↦ elim (file_wait r (r.others e)) [
        | none ↦ none
        | some e' ↦ elim (unusable e') [
          | some minor ↦ fails e' f moved 2 minor
          | none ↦ elim (udt_of e').peer_health [
            | false ↦ fails (with_udt e' (record (udt_of e') { peer_health = true })) f moved 7 0
            | true ↦
                elim (add_file (udt_of e').snd_buffer memory f.rest true (unit_of block tosend)) [
                  | none ↦ fails (counted r.world e') f moved 3 2
                  | some (b, g) ↦
                      sendfile_loop memory block rs (file_sent (counted r.world e') b)
                        (source_after g) (tosend - g.total) (moved + g.total)
                ]
          ]
        ]
      ]
    ]
  ]
]

-- `seek` is the stream after seekg, or nothing where that throws.
unfoldable pub sendfile :
    World → Bool → Endpoint → Source → Option Source → ℕ → ℕ → List Round → Option Sent
sendfile w memory e f seek size block rs =
    if e.setup.sock_type == udt_dgram then fails e f 0 5 10 else elim (unusable e) [
      | some minor ↦ fails e f 0 2 minor
      | none ↦
          if size == 0
          then some (record { endpoint = e; source = f; moved = 0; outcome = returned (pos 0) })
          else elim seek [
            | none ↦ fails (delay_exp w e) f 0 4 1
            | some g ↦ sendfile_loop memory block rs (delay_exp w e) g size 0
          ]
    ]
