-- ===== src/Core/Cookie.antt =====
-- CUDT::listen (src/core.cpp): which cookies let a handshake in.
use udt_server.Base.{
  ℕ, ◌+◌, ◌*◌, ◌≤◌, subst, length, ◌≡◌, ◌≢◌, ◌⊎◌, ◌||◌, ◌&&◌, not, ◌==◌, Bool, true, refl, ap, sym,
  ◌∙◌, false, List, [], ◌∷◌, ◌++◌, arith, inl, inr, ltb, Bool-cases, ne→==, ==_iff,
}
use udt_server.Base.Int.{ℤ, pos, negsuc, sub_ℕ}
use udt_server.Packet.{Packet, get_flag, get_type}
use udt_server.HandShake.{HandShake, content_size, serialize, deserialize}
use udt_server.HandShake.RoundTrip.{deserialize-serialize}
use udt_server.Core
use udt_server.Core.Control.{no_handshake}
use udt_server.Core.Listen.{
  Guest, returned, cookie_text, is_cookie, reply, offer_cookie, listen, admit, version,
}

-- The handshake that a packet carries.
abbrev pub carried : Packet → HandShake
carried p = (deserialize no_handshake (Core.words p.content) p.len).shake

-- A second handshake is refused, nothing is sent and no connection is made, where its cookie is
-- neither the digest of this minute's text nor that of this minute's text and the last one's together.
pub listen_refuses :
    (g : Guest) (sock_type t : ℕ) (p : Packet)
    → p.len ≡ content_size
    → (carried p).req_type ≢ 1
    → (carried p).cookie ≢ g.digest (cookie_text g (pos t))
    → (carried p).cookie ≢ g.digest (cookie_text g (pos t) ++ cookie_text g (sub_ℕ t 1))
    → listen g false sock_type t p ≡ returned (negsuc 0)
unfolding listen is_cookie
listen_refuses g sock_type t p len second now before = simp (
  (==_iff p.len content_size).1 len,
  ne→== (carried p).req_type 1 second,
  is_cookie,
  ne→== (carried p).cookie (g.digest (cookie_text g (pos t))) now,
  ne→== (carried p).cookie (g.digest (cookie_text g (pos t) ++ cookie_text g (sub_ℕ t 1))) before,
)

-- What a handshake must be for newConnection to be asked.
abbrev pub IsAdmitted : Guest → Bool → ℕ → ℕ → Packet → Type 0
IsAdmitted g closing sock_type t p =
    (closing ≡ false)
    × (p.len ≡ content_size)
    × ((carried p).req_type ≢ 1)
    × (((carried p).cookie ≡ g.digest (cookie_text g (pos t)))
        ⊎ ((carried p).cookie ≡ g.digest (cookie_text g (pos t) ++ cookie_text g (sub_ℕ t 1))))
    × ((get_flag p ≡ 1) × (get_type p ≡ 0))
    × (((carried p).version ≡ version) × ((carried p).type ≡ sock_type))

-- The same guest, with another newConnection.
abbrev pub with_connections : Guest → (HandShake → ℤ × HandShake) → Guest
with_connections g f = record g { new_connection = f }

admit-guards :
    (g : Guest) (sock_type : ℕ) (p : Packet) (h : HandShake) (f : HandShake → ℤ × HandShake)
    → (admit g sock_type p h ≡ admit (with_connections g f) sock_type p h)
      ⊎ (((get_flag p ≡ 1) × (get_type p ≡ 0)) × ((h.version ≡ version) × (h.type ≡ sock_type)))
unfolding admit
admit-guards g sock_type p h f = elim (Bool-cases (get_flag p == 1 && get_type p == 0)) [
  | inr other ↦ inl (rw other refl)
  | inl shake ↦ elim (Bool-cases (not (h.version == version) || not (h.type == sock_type))) [
    | inl wrong ↦ inl (rw (shake, wrong) refl)
    | inr right ↦ inr (
      (ground (arith, shake), ground (arith, shake)),
      (ground (arith, right), ground (arith, right)),
    )
  ]
]

cookie-cases :
    (g : Guest) (t cookie : ℕ)
    → is_cookie g t cookie ≡ true
    → (cookie ≡ g.digest (cookie_text g (pos t)))
      ⊎ (cookie ≡ g.digest (cookie_text g (pos t) ++ cookie_text g (sub_ℕ t 1)))
unfolding is_cookie
cookie-cases g t cookie h = elim (Bool-cases (cookie == g.digest (cookie_text g (pos t)))) [
  | inl now ↦ inl ((==_iff _ _).0 now)
  | inr before ↦ inr (
      (==_iff _ _).0 (
        sym (
          ap (λ b. b || (cookie == g.digest (cookie_text g (pos t) ++ cookie_text g (sub_ℕ t 1))))
            before)
        ∙ h))
]

same_cookie :
    (g : Guest) (f : HandShake → ℤ × HandShake) (t cookie : ℕ)
    → is_cookie (with_connections g f) t cookie ≡ is_cookie g t cookie
unfolding is_cookie
same_cookie g f t cookie = refl

-- listen makes a connection only for a second handshake, of the right length, version and socket type,
-- that comes in a handshake's packet to a socket that is not being closed, with a cookie of this minute's
-- text, or of that and the last one's together. For any other packet it does the same whatever
-- newConnection is, and so does not ask it.
pub listen_guards :
    (g : Guest) (closing : Bool) (sock_type t : ℕ) (p : Packet) (f : HandShake → ℤ × HandShake)
    → (listen g closing sock_type t p ≡ listen (with_connections g f) closing sock_type t p)
      ⊎ IsAdmitted g closing sock_type t p
unfolding listen offer_cookie
listen_guards g true sock_type t p f = inl refl
listen_guards g false sock_type t p f = elim (Bool-cases (p.len == content_size)) [
  | inr size ↦ inl (rw size refl)
  | inl size ↦ elim (Bool-cases ((carried p).req_type == 1)) [
    | inl first ↦ inl (rw (size, first) refl)
    | inr second ↦ elim (Bool-cases (is_cookie g t (carried p).cookie)) [
      | inr bad ↦ inl (rw (size, second, same_cookie g f t (carried p).cookie, bad) refl)
      | inl good ↦ elim (admit-guards g sock_type p (carried p) f) [
        | inl same ↦ inl (rw (size, second, same_cookie g f t (carried p).cookie, good) same)
        | inr (shake, right) ↦ inr (
          refl,
          (==_iff p.len content_size).0 size,
          ground (arith, second),
          cookie-cases g t (carried p).cookie good,
          shake,
          right,
        )
      ]
    ]
  ]
]

four_words : (ws : List ℕ) (n : ℕ) → length (deserialize no_handshake ws n).shake.peer_ip ≡ 4
unfolding deserialize
four_words ws n = elim (Bool-cases (ltb n content_size)) [ inl e ↦ rw e refl | inr e ↦ rw e refl ]

offered :
    (g : Guest) (t : ℕ) (p : Packet) (h : HandShake)
    → p.len ≡ content_size
    → p.len ≤ 4 * length (Core.words p.content)
    → length h.peer_ip ≡ 4
    → (carried (reply p h p.len h.id)).cookie ≡ h.cookie
offered g t p h len room four =
    let ws = Core.words p.content in
    let (_, size, back) = deserialize-serialize h ws p.len (omega arith) room no_handshake four in
    ap (λ n. (deserialize no_handshake (serialize h ws p.len).buf n).shake.cookie) (len ∙ sym size)
    ∙ ap (λ d. d.shake.cookie) back

-- A guest that asks in minute `t` is sent the cookie of that minute, and is refused when it comes back
-- with that cookie in the next minute, where the digest of that minute's text is neither that of the
-- next one's nor that of the two together.
pub cookie_lost_with_minute :
    (g : Guest) (sock_type t : ℕ) (p q : Packet)
    → p.len ≡ content_size
    → p.len ≤ 4 * length (Core.words p.content)
    → (carried p).req_type ≡ 1
    → q.len ≡ content_size
    → (carried q).req_type ≢ 1
    → (carried q).cookie ≡ g.digest (cookie_text g (pos t))
    → g.digest (cookie_text g (pos t)) ≢ g.digest (cookie_text g (pos (t + 1)))
    → g.digest (cookie_text g (pos t))
      ≢ g.digest (cookie_text g (pos (t + 1)) ++ cookie_text g (pos t))
    → (a : Packet) × ((listen g false sock_type t p).sent ≡ a ∷ [])
      × ((carried a).cookie ≡ (carried q).cookie)
      × (listen g false sock_type (t + 1) q ≡ returned (negsuc 0))
unfolding listen offer_cookie
cookie_lost_with_minute g sock_type t p q len room first len' second same apart apart' =
    let h = record (carried p) { cookie = g.digest (cookie_text g (pos t)) } in
    let before : sub_ℕ (t + 1) 1 ≡ pos t = ground arith in
    let at_48 = (==_iff p.len content_size).1 len in
    let asks = (==_iff (carried p).req_type 1).1 first in
    (
      reply p h p.len h.id,
      simp (at_48, asks),
      offered g t p h len room (four_words (Core.words p.content) p.len) ∙ sym same,
      listen_refuses g sock_type (t + 1) q len' second (λ e. apart (sym same ∙ e))
          (subst
            (λ z. (carried q).cookie ≢ g.digest (cookie_text g (pos (t + 1)) ++ cookie_text g z))
            (sym before) (λ e. apart' (sym same ∙ e))),
    )
