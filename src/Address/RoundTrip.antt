-- ===== src/Address/RoundTrip.antt =====
-- CIPAddress::ntop and CIPAddress::pton (src/common.cpp) against each other.
use udt_server.Base.{
  ℕ, ◌+◌, ◌*◌, ◌/◌, ◌%◌, ◌^◌, ◌<◌, ◌≡◌, refl, ap, ◌∙◌, List, [], ◌∷◌, arith, length,
}
use udt_server.Address.{SockAddr, inet, inet6, ntop, pton, bytes_of}

abbrev pub AllBytes : List ℕ → Type 0
AllBytes [] = Unit {0}
AllBytes (b ∷ bs) = (b < 256) × AllBytes bs

-- The bytes of an IPv6 address are 16; of an IPv4 address nothing is asked.
abbrev pub IsAddress : SockAddr → Type 0
IsAddress (inet port a) = Unit {0}
IsAddress (inet6 port bytes) = (length bytes ≡ 16) × AllBytes bytes

abbrev word : ℕ → ℕ → ℕ → ℕ → ℕ
word a b c d = d * 2 ^ 24 + c * 2 ^ 16 + b * 2 ^ 8 + a

bytes_of-word :
    (a b c d : ℕ) (rest : List ℕ)
    → a < 256
    → b < 256
    → c < 256
    → d < 256
    → bytes_of (word a b c d) rest ≡ a ∷ b ∷ c ∷ d ∷ rest
bytes_of-word a b c d rest ha hb hc hd =
    let ea : word a b c d % 256 ≡ a = omega arith in
    let eb : word a b c d / 2 ^ 8 % 256 ≡ b = omega arith in
    let ec : word a b c d / 2 ^ 16 % 256 ≡ c = omega arith in
    let ed : word a b c d / 2 ^ 24 % 256 ≡ d = omega arith in λ i. ea i ∷ eb i ∷ ec i ∷ ed i ∷ rest

-- What ntop writes into an array of four words, pton turns back into the address, whatever address of
-- the same kind and port it overwrites.
pub pton-ntop :
    (addr : SockAddr) (ip : List ℕ)
    → IsAddress addr
    → length ip ≡ 4
    → pton addr (ntop addr ip) ≡ addr
unfolding pton ntop
pton-ntop (inet port a) (w ∷ ws) v four = refl
pton-ntop
      (inet6 port
        (b0 ∷ b1 ∷ b2 ∷ b3 ∷ b4 ∷ b5 ∷ b6 ∷ b7 ∷ b8 ∷ b9 ∷ b10 ∷ b11 ∷ b12 ∷ b13 ∷ b14 ∷ b15 ∷ []))
      (w0 ∷ w1 ∷ w2 ∷ w3 ∷ [])
      (
        sixteen,
        (
          h0,
          (
            h1,
            (
              h2,
              (h3, (h4, (h5, (h6, (h7, (h8, (h9, (h10, (h11, (h12, (h13, (h14, (h15, _))))))))))))),
            ),
          ),
        ),
      )
      four =
    ap (inet6 port) (
      bytes_of-word b0 b1 b2 b3 _ h0 h1 h2 h3
      ∙ ap (λ r. b0 ∷ b1 ∷ b2 ∷ b3 ∷ r)
          (bytes_of-word b4 b5 b6 b7 _ h4 h5 h6 h7
            ∙ ap (λ r. b4 ∷ b5 ∷ b6 ∷ b7 ∷ r)
                (bytes_of-word b8 b9 b10 b11 _ h8 h9 h10 h11
                  ∙ ap (λ r. b8 ∷ b9 ∷ b10 ∷ b11 ∷ r)
                      (bytes_of-word b12 b13 b14 b15 _ h12 h13 h14 h15))))
pton-ntop _ _ v four = absurd (omega arith)
