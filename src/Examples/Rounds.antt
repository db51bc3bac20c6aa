-- ===== src/Examples/Rounds.antt =====
-- The times of a server's rounds: src/server/Time/UpdateTime.cpp.
use warhead_discord.Prelude.{ℕ, ◌≡◌, ◌<◌, [], ◌∷◌, length, arith}
use warhead_discord.UpdateTime.{avg_diff_count, new_update_time, update_all}
use warhead_discord.UpdateTime.Average.{new_update_time-average}

three-are_few : length {A = ℕ} (10 ∷ 20 ∷ 60 ∷ []) < avg_diff_count
unfolding avg_diff_count
three-are_few = omega arith

new_update_time-average_example :
    (update_all 0 (10 ∷ 20 ∷ 60 ∷ []) new_update_time).average_update_time ≡ 30
new_update_time-average_example =
    new_update_time-average (10 ∷ 20 ∷ 60 ∷ []) (omega arith, (omega arith, (omega arith, tt)))
      three-are_few
