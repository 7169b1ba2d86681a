-- ===== src/Core/Calls/Stream.antt =====
-- CUDT::send (src/core.cpp): which bytes of an application go out behind the ones before.
use udt_server.Base.{ℕ, ◌≡◌, some, List, ltb, if◌then◌else◌, length}
use udt_server.Base.Int.{ℤ, pos}
use udt_server.Base.Outcome.{returned}
use udt_server.SndBuffer.{SndBuffer}
use udt_server.SndBuffer.Add.{contents}
use udt_server.SndBuffer.Cut.{joined}
use udt_server.Core.Calls.{Endpoint, Reply, udt_of, room}

-- The bytes that are sent and not acknowledged, and those that wait.
abbrev pub outgoing : Endpoint → List ℕ
outgoing e = joined (contents (udt_of e).snd_buffer)

abbrev Accepts : Endpoint → ℕ → SndBuffer → Reply ℤ → Type 0
Accepts e n b r = (e' : Endpoint) × (r ≡ some (e', returned (pos n))) × ((udt_of e').snd_buffer ≡ b)

-- The bytes that there is room for.
abbrev pub taken : Endpoint → List ℕ → ℕ
taken e bytes = if ltb (length bytes) (room e) then length bytes else room e
