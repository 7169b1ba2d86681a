-- ===== src/Core/Calls.antt =====
-- CUDT::send, recv, sendmsg, recvmsg and sendfile of src/core.cpp: the calls of an application.
-- A wait on a condition variable ends with what the other threads have left: a list of the sockets,
-- and times, that the waiting thread finds when it wakes. A call's result is `none` while it waits on
-- after them, or where the source reads through a null pointer. A call leaves the socket behind also
-- when it throws.
pub mod Send
pub mod Receive
pub mod Limit
pub mod Room
pub mod Whole
pub mod Stream
pub mod Input
pub mod Loss
pub mod File
pub mod Short
use udt_server.Base.{
  ℕ, ◌+◌, ◌-◌, ◌*◌, ◌/◌, Bool, true, false, ◌&&◌, ◌||◌, not, Option, none, some, List, [], ◌∷◌, ltb,
  leb, ◌==◌, if◌then◌else◌, length,
}
use udt_server.Base.Int.{ℤ, pos, negsuc}
use udt_server.Base.Outcome.{Outcome, returned, thrown}
use udt_server.SndBuffer.{get_curr_buf_size}
use udt_server.Core.{World, Udt, happened}
use udt_server.Core.Times.{plus_64}
use udt_server.Core.Connect.{Setup}

pub record Endpoint : Type 0 where
  pub setup : Setup
  pub snd_buf_size : ℕ
  pub snd_time_out : ℤ
  pub rcv_time_out : ℤ

-- What a call leaves and gives.
abbrev pub Reply : Type 0 → Type 0
Reply A = Option (Endpoint × Outcome A)

-- UDT_STREAM and UDT_DGRAM
abbrev pub udt_stream : ℕ
udt_stream = 1

abbrev pub udt_dgram : ℕ
udt_dgram = 2

abbrev pub udt_of : Endpoint → Udt
udt_of e = e.setup.udt

abbrev pub with_udt : Endpoint → Udt → Endpoint
with_udt e u = record e { setup = record e.setup { udt = u } }

abbrev pub is_lost : Endpoint → Bool
is_lost e = (udt_of e).broken || (udt_of e).closing

abbrev pub is_connected : Endpoint → Bool
is_connected e = e.setup.connected

-- What a thread finds when it wakes, and the time.
abbrev pub Wake : Type 0
Wake = Endpoint × ℕ

-- exptime, where the time is limited.
abbrev pub expiry : ℤ → ℕ → Option ℕ
expiry (pos ms) now = some (plus_64 now (ms * 1000))
expiry (negsuc n) now = none

abbrev pub is_early : Option ℕ → ℕ → Bool
is_early none now = true
is_early (some limit) now = ltb now limit

-- A loop around pthread_cond_wait or pthread_cond_timedwait, that goes on while `test` holds and the
-- time is not over.
unfoldable pub wait_while :
    (Endpoint → Bool) → Option ℕ → Endpoint → ℕ → List Wake → Option Endpoint
wait_while test limit e now [] = if test e && is_early limit now then none else some e
wait_while test limit e now ((e', now') ∷ ws) = elim (test e && is_early limit now) [
  | true ↦ wait_while test limit e' now' ws
  | false ↦ some e
]

-- The loop of recv, which looks at the time after each wait only.
unfoldable pub wait_data : (Endpoint → Bool) → Option ℕ → Endpoint → List Wake → Option Endpoint
wait_data test limit e [] = if test e then none else some e
wait_data test limit e ((e', now') ∷ ws) = elim (test e) [
  | true ↦ elim (is_early limit now') [ true ↦ wait_data test limit e' ws | false ↦ some e' ]
  | false ↦ some e
]

-- The test for a usable socket of send and sendmsg, with the minor number of its exception.
abbrev pub unusable : Endpoint → Option ℕ
unusable e = if is_lost e then some 1 else if not (is_connected e) then some 2 else none

abbrev pub throws : {A : Type 0} → Endpoint → ℕ → ℕ → Reply A
throws e major minor = some (e, thrown (pos major) minor)

abbrev pub buffered : Endpoint → ℕ
buffered e = get_curr_buf_size (udt_of e).snd_buffer

-- m_iSndBufSize <= m_pSndBuffer->getCurrBufSize()
abbrev pub is_full : Endpoint → Bool
is_full e = leb e.snd_buf_size (buffered e)

-- The bytes that the buffer takes yet. The product is not reduced to an int: with the sizes that the
-- options start with it is far below 2 ^ 31.
abbrev pub room : Endpoint → ℕ
room e = (e.snd_buf_size - buffered e) * (udt_of e).payload_size
