-- ===== src/Address.antt =====
-- src/common.cpp, the class CIPAddress: the addresses of sockets and their words.
-- An address has its port and its number, or its 16 bytes, in the order of memory; the argument `ver`
-- of the source is the constructor.
pub mod RoundTrip
mod Tests
use udt_server.Base.{
  ℕ, ◌+◌, ◌*◌, ◌/◌, ◌%◌, ◌^◌, Bool, true, false, ◌&&◌, List, [], ◌∷◌, ◌==◌, if◌then◌else◌, get_or,
  set,
}

pub data SockAddr : Type 0 where
  inet : ℕ → ℕ → SockAddr
  inet6 : ℕ → List ℕ → SockAddr

-- The loop over the bytes.
unfoldable pub same_bytes : List ℕ → List ℕ → Bool
same_bytes [] [] = true
same_bytes (x ∷ xs) (y ∷ ys) = x == y && same_bytes xs ys
same_bytes _ _ = false

-- Addresses of two kinds are not compared.
unfoldable pub ipcmp : SockAddr → SockAddr → Bool
ipcmp (inet p a) (inet q b) = p == q && a == b
ipcmp (inet6 p a) (inet6 q b) = p == q && same_bytes a b
ipcmp _ _ = false

-- A word from four bytes, the first the least.
abbrev pub word_at : List ℕ → ℕ → ℕ
word_at bytes i =
    get_or bytes (i + 3) 0 * 2 ^ 24
    + get_or bytes (i + 2) 0 * 2 ^ 16
    + get_or bytes (i + 1) 0 * 2 ^ 8
    + get_or bytes i 0

-- `ip` is the array that is written.
unfoldable pub ntop : SockAddr → List ℕ → List ℕ
ntop (inet port a) ip = set ip 0 a
ntop (inet6 port bytes) ip =
    set (set (set (set ip 3 (word_at bytes 12)) 2 (word_at bytes 8)) 1 (word_at bytes 4)) 0
      (word_at bytes 0)

abbrev pub bytes_of : ℕ → List ℕ → List ℕ
bytes_of w rest = w % 256 ∷ w / 2 ^ 8 % 256 ∷ w / 2 ^ 16 % 256 ∷ w / 2 ^ 24 % 256 ∷ rest

-- The port stays.
unfoldable pub pton : SockAddr → List ℕ → SockAddr
pton (inet port a) ip = inet port (get_or ip 0 0)
pton (inet6 port bytes) ip = inet6 port (
    bytes_of (get_or ip 0 0)
      (bytes_of (get_or ip 1 0) (bytes_of (get_or ip 2 0) (bytes_of (get_or ip 3 0) []))))
