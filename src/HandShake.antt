-- ===== src/HandShake.antt =====
-- src/packet.h and src/packet.cpp, the class CHandShake: the body of a handshake packet.
-- A field is a 32-bit word. The buffer is the list of the words that it holds, and its size is in
-- bytes, as in the source.
pub mod RoundTrip
mod Tests
use udt_server.Base.{ℕ, zero, suc, List, [], ◌∷◌, ltb, if◌then◌else◌, get_or}

pub record HandShake : Type 0 where
  pub version : ℕ
  pub type : ℕ
  pub isn : ℕ
  pub mss : ℕ
  pub flight_flag_size : ℕ
  pub req_type : ℕ
  pub id : ℕ
  pub cookie : ℕ
  pub peer_ip : List ℕ

abbrev pub content_size : ℕ
content_size = 48

-- What a call returns: 0, or -1 for a buffer that is too small.
pub data Status : Type 0 where
  success too_small : Status

-- Writing words one after the other from the start of a buffer; none are written past its end.
abbrev pub overwrite : List ℕ → List ℕ → List ℕ
overwrite [] buf = buf
overwrite (x ∷ xs) [] = []
overwrite (x ∷ xs) (y ∷ buf) = x ∷ overwrite xs buf

-- The `n` words from index `i` on.
abbrev pub four_from : List ℕ → ℕ → ℕ → List ℕ
four_from ws i zero = []
four_from ws i (suc n) = get_or ws i 0 ∷ four_from ws (suc i) n

abbrev pub words : HandShake → List ℕ
words h =
    h.version
    ∷ h.type
    ∷ h.isn
    ∷ h.mss
    ∷ h.flight_flag_size
    ∷ h.req_type
    ∷ h.id
    ∷ h.cookie
    ∷ four_from h.peer_ip 0 4

pub record Serialized : Type 0 where
  pub status : Status
  pub buf : List ℕ
  pub size : ℕ

unfoldable pub serialize : HandShake → List ℕ → ℕ → Serialized
serialize h buf size =
    if ltb size content_size
    then (record { status = too_small; buf = buf; size = size })
    else (record { status = success; buf = overwrite (words h) buf; size = content_size })

pub record Deserialized : Type 0 where
  pub status : Status
  pub shake : HandShake

unfoldable pub deserialize : HandShake → List ℕ → ℕ → Deserialized
deserialize h buf size =
    if ltb size content_size then (record { status = too_small; shake = h }) else (record {
      status = success;
      shake = record {
        version = get_or buf 0 0;
        type = get_or buf 1 0;
        isn = get_or buf 2 0;
        mss = get_or buf 3 0;
        flight_flag_size = get_or buf 4 0;
        req_type = get_or buf 5 0;
        id = get_or buf 6 0;
        cookie = get_or buf 7 0;
        peer_ip = four_from buf 8 4;
      };
    })
