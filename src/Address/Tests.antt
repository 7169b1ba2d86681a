-- ===== src/Address/Tests.antt =====
-- Runs of CIPAddress (src/common.cpp).
use udt_server.Base.{◌≡◌, refl, true, false, [], ◌∷◌}
use udt_server.Address.{SockAddr, inet, inet6, ipcmp, same_bytes, ntop, pton}

abbrev host : SockAddr
host = inet6 9000 (0x20 ∷ 1 ∷ 0xd ∷ 0xb8 ∷ 0 ∷ 0 ∷ 0 ∷ 0 ∷ 0 ∷ 0 ∷ 0 ∷ 0 ∷ 0 ∷ 0 ∷ 0 ∷ 255 ∷ [])

same_host : ipcmp host host ≡ true
unfolding ipcmp same_bytes
same_host = refl

other_port : ipcmp (inet 9000 7) (inet 9001 7) ≡ false
unfolding ipcmp
other_port = refl

back : pton (inet 9000 0) (ntop (inet 9000 7) (0 ∷ 0 ∷ 0 ∷ 0 ∷ [])) ≡ inet 9000 7
unfolding pton ntop
back = refl
