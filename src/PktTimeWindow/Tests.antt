-- ===== src/PktTimeWindow/Tests.antt =====
-- Tests of CPktTimeWindow, and concrete uses of its theorems.
use udt_server.Base.{ℕ, ◌*◌, ◌/◌, ◌-◌, ◌^◌, ◌<◌, ◌≡◌, ◌⊎◌, refl, arith, replicate, [], ◌∷◌}
use udt_server.Base.Int.{pos, negsuc, wrap_int, ◌+ℤ◌}
use udt_server.PktTimeWindow.{
  PktTimeWindow, create, on_pkt_sent, on_pkt_arrival, probe1_arrival, probe2_arrival, median,
  get_pkt_rcv_speed, filtered, sort, insert_sorted,
}
use udt_server.PktTimeWindow.Speed.{get_pkt_rcv_speed_bounds}

-- Packets at the times 100, 120, 140, 1140.
abbrev arrivals : PktTimeWindow
arrivals =
    on_pkt_arrival (on_pkt_arrival (on_pkt_arrival (on_pkt_arrival (create 4 4 90) 100) 120) 140)
      1140

arrivals-intervals : arrivals.pkt_window ≡ pos 10 ∷ pos 20 ∷ pos 20 ∷ pos 1000 ∷ []
unfolding create on_pkt_arrival
arrivals-intervals = refl

-- The outlier, 1000, is filtered out, and three of four are enough.
arrivals-speed : get_pkt_rcv_speed (λ x. x) arrivals ≡ pos 16
unfolding create on_pkt_arrival get_pkt_rcv_speed median sort insert_sorted filtered wrap_int ◌+ℤ◌
arrivals-speed = refl

clock_back :
    (probe2_arrival (probe1_arrival (create 2 2 0) 50) 40).probe_window ≡ negsuc 9 ∷ pos 1000 ∷ []
unfolding create probe1_arrival probe2_arrival
clock_back = refl

fastest : (on_pkt_sent (on_pkt_sent (create 2 2 0) (pos 50)) (pos 57)).min_pkt_snd_int ≡ pos 7
unfolding create on_pkt_sent ◌+ℤ◌
fastest = refl

get_pkt_rcv_speed_bounds_example :
    (get_pkt_rcv_speed (λ x. x) arrivals ≡ pos 0)
    ⊎ ((q : ℕ) × (get_pkt_rcv_speed (λ x. x) arrivals ≡ pos q) × (20 / 8 < q) × (q < 20 * 8))
unfolding create on_pkt_arrival median sort insert_sorted
get_pkt_rcv_speed_bounds_example =
    get_pkt_rcv_speed_bounds (λ x. x) arrivals 20 refl (omega arith) (omega arith)

-- Sixteen intervals of 2 ^ 28 - 1 microseconds: the sum wraps round to -16.
abbrev slow : PktTimeWindow
slow = record (create 16 2 0) { pkt_window = replicate 16 (pos (2 ^ 28 - 1)) }

slow-speed : get_pkt_rcv_speed (λ x. x) slow ≡ negsuc 0
unfolding create get_pkt_rcv_speed median sort insert_sorted filtered wrap_int ◌+ℤ◌
slow-speed = refl
