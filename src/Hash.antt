-- ===== src/Hash.antt =====
-- src/queue.h and src/queue.cpp, the class CHash: the sockets of a receiving queue by their number.
-- A bucket is the list of its entries from the first on. A socket's number is an int32_t that is
-- not negative. A socket (a CUDT) is a value of any type, and a null pointer is `none`.
pub mod Entries
mod Tests
use udt_server.Base.{
  ℕ, ◌%◌, Option, none, some, List, [], ◌∷◌, ◌==◌, if◌then◌else◌, get_or, set, replicate,
}

-- An entry is the socket's number and the socket.
pub record Hash (U : Type 0) : Type 0 where
  pub bucket : List (List (ℕ × U))
  pub hash_size : ℕ

unfoldable pub init : {U : Type 0} → ℕ → Hash U
init size = record { bucket = replicate size []; hash_size = size }

-- The walk through a bucket.
unfoldable pub find_entry : {U : Type 0} → List (ℕ × U) → ℕ → Option U
find_entry [] id = none
find_entry ((i, u) ∷ b) id = if id == i then some u else find_entry b id

unfoldable pub lookup : {U : Type 0} → Hash U → ℕ → Option U
lookup s id = find_entry (get_or s.bucket (id % s.hash_size) []) id

unfoldable pub insert : {U : Type 0} → Hash U → ℕ → U → Hash U
insert s id u =
    let k = id % s.hash_size in
    record s { bucket = set s.bucket k ((id, u) ∷ get_or s.bucket k []) }

-- A bucket without its first entry for a number.
unfoldable pub remove_entry : {U : Type 0} → List (ℕ × U) → ℕ → List (ℕ × U)
remove_entry [] id = []
remove_entry ((i, u) ∷ b) id = if id == i then b else (i, u) ∷ remove_entry b id

unfoldable pub remove : {U : Type 0} → Hash U → ℕ → Hash U
remove s id =
    let k = id % s.hash_size in
    record s { bucket = set s.bucket k (remove_entry (get_or s.bucket k []) id) }
