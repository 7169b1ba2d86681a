-- ===== src/Core/Listen.antt =====
-- CUDT::listen (src/core.cpp): a handshake comes to a listening socket.
-- The name and the port of the sender, as getnameinfo writes them, a number as a stringstream writes
-- it, the first four bytes of CMD5::compute, and CUDTUnited::newConnection, with what it makes of the
-- handshake, are arguments.
use udt_server.Base.{
  ℕ, ◌/◌, Bool, true, false, ◌&&◌, ◌||◌, not, List, [], ◌∷◌, ◌++◌, ◌==◌, if◌then◌else◌,
}
use udt_server.Base.Int.{ℤ, pos, negsuc, sub_ℕ, eqb_ℤ}
use udt_server.Packet.{Packet, block, get_flag, get_type}
use udt_server.HandShake.{HandShake, content_size, serialize, deserialize}
use udt_server.Core.{words}
use udt_server.Core.Times.{since, to_int}
use udt_server.Core.Control.{no_handshake}

pub record Guest : Type 0 where
  pub host : List ℕ
  pub port : List ℕ
  pub decimal : ℤ → List ℕ
  pub digest : List ℕ → ℕ
  pub new_connection : HandShake → ℤ × HandShake

-- What a call returns, what it sends to the guest, and whether it reports to the epolls that the
-- socket can be written.
pub record Heard : Type 0 where
  pub code : ℤ
  pub sent : List Packet
  pub writable : Bool

abbrev pub returned : ℤ → Heard
returned code = record { code = code; sent = []; writable = false }

abbrev pub version : ℕ
version = 4

-- The minutes since the socket was started.
abbrev pub minute : ℕ → ℕ → ℕ
minute now start = since now start / 60000000

abbrev pub cookie_text : Guest → ℤ → List ℕ
cookie_text g t = g.host ++ (58 ∷ g.port ++ (58 ∷ g.decimal t))

-- The test of the second handshake. The stringstream is written on, so what is compared second is
-- the digest of both texts.
unfoldable pub is_cookie : Guest → ℕ → ℕ → Bool
is_cookie g t cookie =
    let text = cookie_text g (pos t) in
    cookie == g.digest text || cookie == g.digest (text ++ cookie_text g (sub_ℕ t 1))

-- The packet goes back, with the handshake in it.
abbrev pub reply : Packet → HandShake → ℕ → ℕ → Packet
reply p h size id = record p { id = id; content = block (serialize h (words p.content) size).buf }

abbrev pub rejected : HandShake → HandShake
rejected h = record h { req_type = 1002 }

abbrev pub answered : Packet → HandShake → ℕ → Heard
answered p h id = record {
  code = to_int h.req_type;
  sent = reply p h content_size id ∷ [];
  writable = false;
}

-- A handshake with a valid cookie.
unfoldable pub admit : Guest → ℕ → Packet → HandShake → Heard
admit g sock_type p h =
    if get_flag p == 1 && get_type p == 0
    then (if not (h.version == version) || not (h.type == sock_type)
        then answered p (rejected h) h.id
        else (let (result, h') = g.new_connection h in
            let h'' = if eqb_ℤ result (negsuc 0) then rejected h' else h' in
            if eqb_ℤ result (pos 1)
            then (record { code = to_int h''.req_type; sent = []; writable = true })
            else answered p h'' h.id))
    else returned (to_int h.req_type)

-- A first handshake is answered with the cookie of this minute, `t`.
unfoldable pub offer_cookie : Guest → ℕ → Packet → HandShake → Heard
offer_cookie g t p h = record {
  code = pos 0;
  sent = reply p (record h { cookie = g.digest (cookie_text g (pos t)) }) p.len h.id ∷ [];
  writable = false;
}

-- With m_bClosing, m_iSockType, and the minute.
unfoldable pub listen : Guest → Bool → ℕ → ℕ → Packet → Heard
listen g closing sock_type t p =
    let h = (deserialize no_handshake (words p.content) p.len).shake in
    if closing
    then returned (pos 1002)
    else if not (p.len == content_size)
    then returned (pos 1004)
    else if h.req_type == 1
    then offer_cookie g t p h
    else if is_cookie g t h.cookie
    then admit g sock_type p h
    else returned (negsuc 0)
