-- ===== src/HandShake/RoundTrip.antt =====
-- CHandShake::serialize and deserialize (src/packet.cpp) undo each other.
use udt_server.Base.{
  ℕ, suc, ◌≤◌, ◌≡◌, refl, List, [], ◌∷◌, length, get_or, arith, false, ◌<◌, ◌*◌, ltb,
}
use udt_server.HandShake.{
  HandShake, success, too_small, overwrite, four_from, words, serialize, deserialize,
}

four_from-four : (ip : List ℕ) → length ip ≡ 4 → four_from ip 0 4 ≡ ip
four_from-four (a ∷ b ∷ c ∷ d ∷ []) h = refl
four_from-four (a ∷ b ∷ c ∷ d ∷ e ∷ r) h = absurd (omega arith)
four_from-four (a ∷ b ∷ c ∷ []) h = absurd (omega arith)
four_from-four (a ∷ b ∷ []) h = absurd (omega arith)
four_from-four (a ∷ []) h = absurd (omega arith)
four_from-four [] h = absurd (omega arith)

get_or-overwrite :
    (xs buf : List ℕ) (i : ℕ)
    → length xs ≤ length buf
    → i < length xs
    → get_or (overwrite xs buf) i 0 ≡ get_or xs i 0
get_or-overwrite [] buf i h k = absurd (omega arith)
get_or-overwrite (x ∷ xs) [] i h k = absurd (omega arith)
get_or-overwrite (x ∷ xs) (y ∷ buf) ℕ.zero h k = refl
get_or-overwrite (x ∷ xs) (y ∷ buf) (suc i) h k =
    get_or-overwrite xs buf i (omega arith) (omega arith)

module _ (h : HandShake) (buf : List ℕ) (size : ℕ) (fits : 48 ≤ size)
    (room : size ≤ 4 * length buf) where
  read_back : (i : ℕ) → i < 12 → get_or (overwrite (words h) buf) i 0 ≡ get_or (words h) i 0
  read_back i k = get_or-overwrite (words h) buf i (omega arith) k

  ips_back : length h.peer_ip ≡ 4 → four_from (overwrite (words h) buf) 8 4 ≡ h.peer_ip
  ips_back four =
      let at = λ (i : ℕ) (k : i < 12). read_back i k in
      let b8 = at 8 (omega arith) in
      let b9 = at 9 (omega arith) in
      let b10 = at 10 (omega arith) in
      let b11 = at 11 (omega arith) in rw (b8, b9, b10, b11) (four_from-four h.peer_ip four)

  -- What serialize writes into a large enough buffer, deserialize reads back into any object, field
  -- by field; the size that serialize reports is 48 bytes.
  pub deserialize-serialize :
      (old : HandShake)
      → length h.peer_ip ≡ 4
      → let s = serialize h buf size in
        (s.status ≡ success)
        × (s.size ≡ 48)
        × (deserialize old s.buf s.size ≡ record { status = success; shake = h })
  unfolding serialize deserialize
  deserialize-serialize old four =
      let enough : ltb size 48 ≡ false = ground arith in
      let at = λ (i : ℕ) (k : i < 12). read_back i k in
      rw enough (
        refl,
        refl,
        λ i. record {
          status = success;
          shake = record {
            version = at 0 (omega arith) i;
            type = at 1 (omega arith) i;
            isn = at 2 (omega arith) i;
            mss = at 3 (omega arith) i;
            flight_flag_size = at 4 (omega arith) i;
            req_type = at 5 (omega arith) i;
            id = at 6 (omega arith) i;
            cookie = at 7 (omega arith) i;
            peer_ip = ips_back four i;
          };
        },
      )

-- A buffer that is too small makes both return -1, and neither the buffer, the size nor the object
-- is touched.
pub too_small_refused :
    (h old : HandShake) (buf : List ℕ) (size : ℕ)
    → size < 48
    → (serialize h buf size ≡ record { status = too_small; buf = buf; size = size })
      × (deserialize old buf size ≡ record { status = too_small; shake = old })
unfolding serialize deserialize
too_small_refused h old buf size k = ground arith
