-- ===== src/UpdateTime.antt =====
-- src/server/Time/UpdateTime.cpp: the time that the last round of the server took, and the average
-- of the rounds before it, in milliseconds.
pub mod Average
use warhead_discord.Prelude.{
  ℕ, zero, suc, ◌+◌, ◌/◌, List, [], ◌∷◌, ltb, leb, if◌then◌else◌, length, replicate,
}

pub record UpdateTime : Type 0 where
  pub table : List ℕ
  pub index : ℕ
  pub last_update_time : ℕ
  pub average_update_time : ℕ

unfoldable pub avg_diff_count : ℕ
avg_diff_count = 1000

unfoldable pub new_update_time : UpdateTime
unfolding avg_diff_count
new_update_time = record {
  table = replicate avg_diff_count 0;
  index = 0;
  last_update_time = 0;
  average_update_time = 0;
}

abbrev pub set_at : ℕ → ℕ → List ℕ → List ℕ
set_at i x [] = []
set_at zero x (y ∷ ys) = x ∷ ys
set_at (suc i) x (y ∷ ys) = y ∷ set_at i x ys

abbrev pub accumulate : List ℕ → ℕ
accumulate [] = 0
accumulate (n ∷ ns) = n + accumulate ns

-- `beyond` is what is read behind the end of the table, at the index that is its size; the
-- language leaves it undefined.
unfoldable pub update : ℕ → ℕ → UpdateTime → UpdateTime
update beyond diff u =
    let table = set_at u.index diff u.table in
    let size = length table in
    record {
      table = table;
      index = if leb size (u.index + 1) then 0 else u.index + 1;
      last_update_time = diff;
      average_update_time =
          if ltb 0 beyond
          then accumulate table / size
          else if ltb 0 diff
          then accumulate table / (u.index + 1)
          else u.average_update_time;
    }

-- Rounds one after the other.
unfoldable pub update_all : ℕ → List ℕ → UpdateTime → UpdateTime
unfolding update
update_all beyond [] u = u
update_all beyond (diff ∷ diffs) u = update_all beyond diffs (update beyond diff u)
