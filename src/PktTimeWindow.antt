-- ===== src/PktTimeWindow.antt =====
-- src/window.h and src/window.cpp, the class CPktTimeWindow: the intervals between packets, from
-- which the receiver estimates the speed of arrival and the link's capacity.
-- An interval is an int, here the integer; a sum and a shift to the left wrap round as an int does.
-- The clock's answer is an argument. There are no doubles: what the source computes with them from
-- an average is the argument `rate`. m_piPktReplica and m_piProbeReplica are scratch memory.
pub mod Speed
mod Tests
use udt_server.Base.{
  ℕ, zero, suc, ◌+◌, ◌-◌, ◌*◌, ◌/◌, ◌%◌, ◌^◌, Bool, true, false, ◌&&◌, List, [], ◌∷◌, ltb, leb,
  ◌==◌, if◌then◌else◌, get_or, set, take, replicate,
}
use udt_server.Base.Int.{ℤ, pos, negsuc, sub_ℕ, neg, ltb_ℤ, leb_ℤ, ◌+ℤ◌, wrap_int}

pub record PktTimeWindow : Type 0 where
  pub aw_size : ℕ
  pub pkt_window : List ℤ
  pub pkt_window_ptr : ℕ
  pub pw_size : ℕ
  pub probe_window : List ℤ
  pub probe_window_ptr : ℕ
  pub last_sent_time : ℤ
  pub min_pkt_snd_int : ℤ
  pub last_arr_time : ℕ
  pub curr_arr_time : ℕ
  pub probe_time : ℕ

unfoldable pub create : ℕ → ℕ → ℕ → PktTimeWindow
create asize psize now = record {
  aw_size = asize;
  pkt_window = replicate asize (pos 1000000);
  pkt_window_ptr = 0;
  pw_size = psize;
  probe_window = replicate psize (pos 1000);
  probe_window_ptr = 0;
  last_sent_time = pos 0;
  min_pkt_snd_int = pos 1000000;
  last_arr_time = now;
  curr_arr_time = 0;
  probe_time = 0;
}

-- int(now - then), for two uint64_t.
abbrev pub interval : ℕ → ℕ → ℤ
interval now then' =
    let w = (now + 2 ^ 64 - then') % 2 ^ 64 % 2 ^ 32 in
    if ltb w (2 ^ 31) then pos w else sub_ℕ w (2 ^ 32)

abbrev pub next_ptr : ℕ → ℕ → ℕ
next_ptr size p = if p + 1 == size then 0 else p + 1

unfoldable pub on_pkt_sent : PktTimeWindow → ℤ → PktTimeWindow
on_pkt_sent w now =
    let i = now +ℤ neg w.last_sent_time in
    record w {
      min_pkt_snd_int =
          if ltb_ℤ i w.min_pkt_snd_int && ltb_ℤ (pos 0) i then i else w.min_pkt_snd_int;
      last_sent_time = now;
    }

unfoldable pub on_pkt_arrival : PktTimeWindow → ℕ → PktTimeWindow
on_pkt_arrival w now = record w {
  curr_arr_time = now;
  pkt_window = set w.pkt_window w.pkt_window_ptr (interval now w.last_arr_time);
  pkt_window_ptr = next_ptr w.aw_size w.pkt_window_ptr;
  last_arr_time = now;
}

unfoldable pub probe1_arrival : PktTimeWindow → ℕ → PktTimeWindow
probe1_arrival w now = record w { probe_time = now }

unfoldable pub probe2_arrival : PktTimeWindow → ℕ → PktTimeWindow
probe2_arrival w now = record w {
  curr_arr_time = now;
  probe_window = set w.probe_window w.probe_window_ptr (interval now w.probe_time);
  probe_window_ptr = next_ptr w.pw_size w.probe_window_ptr;
}

-- std::nth_element puts at a place what stands there in the sorted sequence.
unfoldable pub insert_sorted : ℤ → List ℤ → List ℤ
insert_sorted x [] = x ∷ []
insert_sorted x (y ∷ ys) = if leb_ℤ x y then x ∷ y ∷ ys else y ∷ insert_sorted x ys

unfoldable pub sort : List ℤ → List ℤ
sort [] = []
sort (x ∷ xs) = insert_sorted x (sort xs)

-- The median of a window; the source leaves the window's last entry out.
unfoldable pub median : List ℤ → ℕ → ℤ
median window size = get_or (sort (take (size - 1) window)) (size / 2) (pos 0)

-- m << 3 and m >> 3
abbrev pub times_8 : ℤ → ℤ
times_8 (pos n) = wrap_int (pos (n * 8))
times_8 (negsuc n) = wrap_int (negsuc (n * 8 + 7))

abbrev pub over_8 : ℤ → ℤ
over_8 (pos n) = pos (n / 8)
over_8 (negsuc n) = negsuc (n / 8)

-- The count and the sum of the entries between the two bounds.
pub record Filtered : Type 0 where
  pub count : ℕ
  pub sum : ℤ

unfoldable pub filtered : ℤ → ℤ → Filtered → List ℤ → Filtered
filtered lower upper f [] = f
filtered lower upper f (x ∷ xs) =
    filtered lower upper
      (if ltb_ℤ x upper && ltb_ℤ lower x
        then record { count = f.count + 1; sum = wrap_int (f.sum +ℤ x) }
        else f)
      xs

-- sum / count, towards zero.
abbrev pub quotient : ℤ → ℕ → ℤ
quotient (pos n) c = pos (n / c)
quotient (negsuc n) c = neg (pos ((n + 1) / c))

abbrev pub start : ℕ → ℤ → Filtered
start n x = record { count = n; sum = x }

-- `rate x` is (int)ceil(1000000.0 / x).
unfoldable pub get_pkt_rcv_speed : (ℤ → ℤ) → PktTimeWindow → ℤ
get_pkt_rcv_speed rate w =
    let m = median w.pkt_window w.aw_size in
    let f = filtered (over_8 m) (times_8 m) (start 0 (pos 0)) w.pkt_window in
    if ltb (w.aw_size / 2) f.count then rate (quotient f.sum f.count) else pos 0

-- `rate s c` is (int)ceil(1000000.0 / (double(s) / double(c))).
unfoldable pub get_bandwidth : (ℤ → ℕ → ℤ) → PktTimeWindow → ℤ
get_bandwidth rate w =
    let m = median w.probe_window w.pw_size in
    let f = filtered (over_8 m) (times_8 m) (start 1 m) w.probe_window in rate f.sum f.count
