-- ===== src/PktTimeWindow/Speed.antt =====
-- CPktTimeWindow::getPktRcvSpeed (src/window.cpp): what its median filter lets through.
use udt_server.Base.{
  ℕ, ◌+◌, ◌*◌, ◌/◌, ◌≤◌, ◌<◌, ◌≡◌, ◌⊎◌, refl, true, false, ◌&&◌, List, [], ◌∷◌, arith, inl, inr,
  ltb, ltb→lt, length, ap, ◌∙◌, ◌^◌, if◌then◌else◌, Bool-cases,
}
use udt_server.Base.Int.{ℤ, pos, negsuc, ltb_ℤ, pos-add, wrap_int-pos}
use udt_server.PktTimeWindow.{
  PktTimeWindow, median, times_8, over_8, filtered, quotient, start, get_pkt_rcv_speed,
}
use native.Mathlib.Nat.{le-div_iff_mul-le, div-lt_iff_lt-mul, mul-le-mul_right}

passed : (l u v : ℕ) → (ltb_ℤ (pos v) (pos u) && ltb_ℤ (pos l) (pos v)) ≡ true → (l < v) × (v < u)
passed l u v e = ground arith

refused : (l u v : ℕ) → (ltb_ℤ (negsuc v) (pos u) && ltb_ℤ (pos l) (negsuc v)) ≡ false
refused l u v = ground arith

one_more :
    (l u c n v : ℕ)
    → c * (l + 1) ≤ n
    → n + c ≤ c * u
    → l < v
    → v < u
    → ((c + 1) * (l + 1) ≤ n + v) × (n + v + (c + 1) ≤ (c + 1) * u)
one_more l u c n v h k above below =
    let left : (c + 1) * (l + 1) ≡ c * (l + 1) + (l + 1) = grind arith in
    let right : (c + 1) * u ≡ c * u + u = grind arith in (omega arith, omega arith)

-- The sum of the entries that pass, where each lies between two numbers, and as many as there are of
-- the larger one fit an int.
filtered_lem :
    (l u c n size : ℕ) (xs : List ℤ)
    → c * (l + 1) ≤ n
    → n + c ≤ c * u
    → c + length xs ≤ size
    → size * u ≤ 2 ^ 31
    → (c' : ℕ) × (n' : ℕ) × (filtered (pos l) (pos u) (start c (pos n)) xs ≡ start c' (pos n'))
      × (c' * (l + 1) ≤ n')
      × (n' + c' ≤ c' * u)
unfolding filtered
filtered_lem l u c n size [] h k room cap = (c, n, refl, h, k)
filtered_lem l u c n size (pos v ∷ xs) h k room cap =
    elim (Bool-cases (ltb_ℤ (pos v) (pos u) && ltb_ℤ (pos l) (pos v))) [
      | inl e ↦
          let (above, below) = passed l u v e in
          let (h', k') = one_more l u c n v h k above below in
          let most : (c + 1) * u ≤ size * u = mul-le-mul_right u (omega arith) in
          let fits : n + v < 2 ^ 31 = omega (arith, most) in
          rw (filtered, e, pos-add n v, wrap_int-pos (n + v) fits)
            (filtered_lem l u (c + 1) (n + v) size xs h' k' (omega arith) cap)
      | inr e ↦ rw (filtered, e) (filtered_lem l u c n size xs h k (omega arith) cap)
    ]
filtered_lem l u c n size (negsuc v ∷ xs) h k room cap =
    rw (filtered, refused l u v) (filtered_lem l u c n size xs h k (omega arith) cap)

average : (l u c n : ℕ) → 0 < c → c * (l + 1) ≤ n → n + c ≤ c * u → (l < n / c) × (n / c < u)
average l u c n some_in h k =
    let turned : (l + 1) * c ≡ c * (l + 1) = grind arith in
    let turned' : u * c ≡ c * u = grind arith in
    let low : l + 1 ≤ n / c = (le-div_iff_mul-le some_in).1 (omega arith) in
    let high : n / c < u = (div-lt_iff_lt-mul some_in).1 (omega arith) in (omega arith, high)

-- Where the median is no negative interval, eight times the median is an int, and as many times
-- that as the window has entries is at most 2 ^ 31: the speed is 0, or the rate of an average
-- interval that lies strictly between an eighth of the median and eight times the median.
pub get_pkt_rcv_speed_bounds :
    (rate : ℤ → ℤ) (w : PktTimeWindow) (m : ℕ)
    → median w.pkt_window w.aw_size ≡ pos m
    → m * 8 < 2 ^ 31
    → length w.pkt_window * (m * 8) ≤ 2 ^ 31
    → (get_pkt_rcv_speed rate w ≡ pos 0)
      ⊎ ((q : ℕ) × (get_pkt_rcv_speed rate w ≡ rate (pos q)) × (m / 8 < q) × (q < m * 8))
unfolding get_pkt_rcv_speed
get_pkt_rcv_speed_bounds rate w m middle small cap =
    let xs = w.pkt_window in
    let (c, n, e, h, k) =
      filtered_lem (m / 8) (m * 8) 0 0 (length xs) xs (omega arith) (omega arith) (omega arith)
        cap in
    let speed = λ (x : ℤ).
      let f = filtered (over_8 x) (times_8 x) (start 0 (pos 0)) xs in
      if ltb (w.aw_size / 2) f.count then rate (quotient f.sum f.count) else pos 0 in
    let is_pos : times_8 (pos m) ≡ pos (m * 8) = wrap_int-pos (m * 8) small in
    elim (Bool-cases (ltb (w.aw_size / 2) c)) [
      | inr few ↦ inl (ap speed middle ∙ rw (is_pos, e, few) refl)
      | inl many ↦
          let (above, below) =
            average (m / 8) (m * 8) c n (omega (arith, ltb→lt (w.aw_size / 2) c many)) h k in
          inr (n / c, ap speed middle ∙ rw (is_pos, e, many) refl, above, below)
    ]
