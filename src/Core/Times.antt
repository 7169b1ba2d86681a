-- ===== src/Core/Times.antt =====
-- Times and rates of CUDT (src/core.cpp): uint64_t with its wrap, and the shifts of an int.
use udt_server.Base.{ℕ, suc, ◌+◌, ◌-◌, ◌*◌, ◌/◌, ◌%◌, ◌^◌}
use udt_server.Base.Int.{ℤ, pos, negsuc, neg, pos_part, neg_part, ◌+ℤ◌}

-- The uint64_t of a sum, a difference and a product.
abbrev pub plus_64 : ℕ → ℕ → ℕ
plus_64 a b = (a + b) % 2 ^ 64

abbrev pub since : ℕ → ℕ → ℕ
since now then' = (now + 2 ^ 64 - then') % 2 ^ 64

abbrev pub times_64 : ℕ → ℕ → ℕ
times_64 a b = a * b % 2 ^ 64

-- The bit pattern of an int as w bits.
abbrev pub pattern : ℕ → ℤ → ℕ
pattern w (pos n) = n % 2 ^ w
pattern w (negsuc n) = 2 ^ w - 1 - n % 2 ^ w

-- The int of a word of 32 bits.
abbrev pub to_int : ℕ → ℤ
to_int n = neg (pos (n / 2 ^ 31 % 2 * 2 ^ 31)) +ℤ pos (n % 2 ^ 31)

abbrev pub abs : ℤ → ℕ
abs z = pos_part z + neg_part z

abbrev pub scale : ℕ → ℤ → ℤ
scale k (pos n) = pos (k * n)
scale k (negsuc n) = neg (pos (k * suc n))

-- z >> k
abbrev pub shift_right : ℕ → ℤ → ℤ
shift_right k (pos n) = pos (n / 2 ^ k)
shift_right k (negsuc n) = negsuc (n / 2 ^ k)

-- The average with one part in eight of the new value.
abbrev pub smooth : ℤ → ℤ → ℤ
smooth old new = shift_right 3 (scale 7 old +ℤ new)

-- m_iRTT + 4 * m_iRTTVar
abbrev pub rtt_bound : ℤ → ℤ → ℤ
rtt_bound rtt rtt_var = rtt +ℤ scale 4 rtt_var
