-- ===== src/Core/Tests/Listening.antt =====
-- Runs of CUDT::listen (src/core.cpp), and the theorems about it applied.
use udt_server.Base.{ℕ, ◌+◌, ◌*◌, ◌≡◌, ◌⊎◌, refl, false, true, List, [], ◌∷◌, arith}
use udt_server.Base.Int.{pos, negsuc, pos_part}
use udt_server.Packet.{Packet, block, get_flag, get_type}
use udt_server.HandShake.{deserialize}
use udt_server.Base.Int.{◌+ℤ◌}
use udt_server.Core.Listen.{Guest, returned, cookie_text, is_cookie, admit, listen}
use udt_server.Core.Cookie.{
  carried, listen_guards, with_connections, IsAdmitted, cookie_lost_with_minute,
}

abbrev sum : List ℕ → ℕ
sum [] = 0
sum (x ∷ xs) = 2 * sum xs + x

abbrev guest : Guest
guest = record {
  host = 1 ∷ [];
  port = 2 ∷ [];
  decimal = λ t. pos_part t ∷ [];
  digest = sum;
  new_connection = λ h. (pos 1, h);
}

-- A handshake of socket 9, with the request type and the cookie.
abbrev shake : ℕ → ℕ → Packet
shake req_type cookie = record {
  seq_no = 0x8000_0000;
  msg_no = 0;
  time_stamp = 0;
  id = 0;
  content =
      block (4 ∷ 1 ∷ 77 ∷ 1500 ∷ 25600 ∷ req_type ∷ 9 ∷ cookie ∷ 0x0100_007f ∷ 0 ∷ 0 ∷ 0 ∷ []);
  len = 48;
}

-- The cookie of minute 5.
abbrev cookie : ℕ
cookie = sum (cookie_text guest (pos 5))

let_in :
    listen guest false 1 5 (shake 0xffff_ffff cookie)
    ≡ record { code = negsuc 0; sent = []; writable = true }
unfolding listen is_cookie admit deserialize get_flag get_type ◌+ℤ◌
let_in = refl

-- A wrong cookie.
listen_guards_example :
    (listen guest false 1 5 (shake 0xffff_ffff 1)
      ≡ listen (with_connections guest (λ h. (pos 0, h))) false 1 5 (shake 0xffff_ffff 1))
    ⊎ IsAdmitted guest false 1 5 (shake 0xffff_ffff 1)
listen_guards_example = listen_guards guest false 1 5 (shake 0xffff_ffff 1) (λ h. (pos 0, h))

cookie_lost_with_minute_example :
    (a : Packet) × ((listen guest false 1 5 (shake 1 0)).sent ≡ a ∷ [])
    × ((carried a).cookie ≡ (carried (shake 0xffff_ffff cookie)).cookie)
    × (listen guest false 1 6 (shake 0xffff_ffff cookie) ≡ returned (negsuc 0))
unfolding deserialize
cookie_lost_with_minute_example =
    cookie_lost_with_minute guest 1 5 (shake 1 0) (shake 0xffff_ffff cookie) refl (omega arith) refl
      refl (omega arith) refl (omega arith) (omega arith)
