-- ===== src/UpdateTime/Average.antt =====
-- When the average of src/server/Time/UpdateTime.cpp is one, and when it is not.
use warhead_discord.Prelude.{
  ℕ, zero, suc, ◌+◌, ◌-◌, ◌/◌, ◌<◌, ◌≡◌, refl, ap, ap₂, sym, ◌∙◌, false, List, [], ◌∷◌, ◌++◌,
  append_assoc, append-nil, leb, lt→ltb, length, replicate, length-append, length-replicate, arith,
}
use warhead_discord.UpdateTime.{
  UpdateTime, avg_diff_count, new_update_time, set_at, accumulate, update, update_all,
}

set_at-length :
    (before later : List ℕ) (x y : ℕ)
    → set_at (length before) x (before ++ y ∷ later) ≡ before ++ x ∷ later
set_at-length [] later x y = refl
set_at-length (b ∷ before) later x y = ap (◌∷◌ b) (set_at-length before later x y)

accumulate-append : (ms ns : List ℕ) → accumulate (ms ++ ns) ≡ accumulate ms + accumulate ns
accumulate-append [] ns = omega arith
accumulate-append (m ∷ ms) ns = omega (arith, accumulate-append ms ns)

accumulate-replicate_0 : (n : ℕ) → accumulate (replicate n 0) ≡ 0
accumulate-replicate_0 zero = refl
accumulate-replicate_0 (suc n) = omega (arith, accumulate-replicate_0 n)

-- A table of which the first entries are written, in its first lap.
abbrev lap : List ℕ → ℕ → ℕ → ℕ → UpdateTime
lap before left last average = record {
  table = before ++ replicate left 0;
  index = length before;
  last_update_time = last;
  average_update_time = average;
}

update-lap :
    (before : List ℕ) (left last average diff : ℕ)
    → 0 < diff
    → update 0 diff (lap before (suc (suc left)) last average)
      ≡ lap
          (before ++ diff ∷ [])
          (suc left)
          diff
          (accumulate (before ++ diff ∷ []) / length (before ++ diff ∷ []))
unfolding update
update-lap before left last average diff some_time =
    let e =
      set_at-length before (replicate (suc left) 0) diff 0
      ∙ sym (append_assoc before (diff ∷ []) (replicate (suc left) 0)) in
    let one = length-append before (diff ∷ []) in
    let size : length (set_at (length before) diff (before ++ replicate (suc (suc left)) 0))
        ≡ length before + 2 + left =
      ap length e
      ∙ omega (
        arith,
        length-append (before ++ diff ∷ []) (replicate (suc left) 0),
        one,
        length-replicate {A = ℕ} (suc left) 0,
      ) in
    let total : accumulate (set_at (length before) diff (before ++ replicate (suc (suc left)) 0))
        ≡ accumulate (before ++ diff ∷ []) =
      ap accumulate e
      ∙ omega (
        arith,
        accumulate-append (before ++ diff ∷ []) (replicate (suc left) 0),
        accumulate-replicate_0 (suc left),
      ) in
    let next : length before + 1 ≡ length (before ++ diff ∷ []) = omega (arith, one) in
    let inside : leb (length before + 2 + left) (length before + 1) ≡ false = ground arith in
    rw (update, size, inside, lt→ltb 0 diff some_time, total, e)
      (ap₂
        (λ i a. record {
          table = (before ++ diff ∷ []) ++ replicate (suc left) 0;
          index = i;
          last_update_time = diff;
          average_update_time = a;
        })
        next (ap (λ n. accumulate (before ++ diff ∷ []) / n) next))

abbrev pub AllPositive : List ℕ → Type 0
AllPositive [] = Unit {0}
AllPositive (n ∷ ns) = (0 < n) × AllPositive ns

update_all-average :
    (before diffs : List ℕ) (left last average : ℕ)
    → AllPositive diffs
    → average ≡ accumulate before / length before
    → (update_all 0 diffs (lap before (length diffs + suc left) last average)).average_update_time
      ≡ accumulate (before ++ diffs) / length (before ++ diffs)
unfolding update_all
update_all-average before [] left last average h mean =
    mean ∙ ap (λ l. accumulate l / length l) (sym (append-nil before))
update_all-average before (d ∷ diffs) left last average (some_time, h) mean =
    let all : suc (length diffs) + suc left ≡ suc (suc (length diffs + left)) = omega arith in
    let left_over : length diffs + suc left ≡ suc (length diffs + left) = omega arith in
    ap (λ n. (update_all 0 diffs (update 0 d (lap before n last average))).average_update_time) all
    ∙ ap (λ u. (update_all 0 diffs u).average_update_time)
        (update-lap before (length diffs + left) last average d some_time)
    ∙ ap
        (λ n.
          (update_all 0 diffs (
            lap (before ++ d ∷ []) n d
              (accumulate (before ++ d ∷ []) / length (before ++ d ∷ [])))).average_update_time)
        (sym left_over)
    ∙ update_all-average (before ++ d ∷ []) diffs left d _ h refl
    ∙ ap (λ l. accumulate l / length l) (append_assoc before (d ∷ []) diffs)

-- In the first rounds of a server, as long as the table has room for the next one, if each took
-- some time and what stands behind the table happens to be zero, the average is that of the rounds
-- so far.
pub new_update_time-average :
    (diffs : List ℕ)
    → AllPositive diffs
    → length diffs < avg_diff_count
    → (update_all 0 diffs new_update_time).average_update_time ≡ accumulate diffs / length diffs
unfolding new_update_time
new_update_time-average diffs h few =
    let room : avg_diff_count ≡ length diffs + suc (avg_diff_count - suc (length diffs)) =
      omega arith in
    ap (λ n. (update_all 0 diffs (lap [] n 0 0)).average_update_time) room
    ∙ update_all-average [] diffs _ 0 0 h refl

-- A table that is full of rounds that took `d` each, when the next entry is the first.
abbrev filled : ℕ → ℕ → ℕ → UpdateTime
filled n d average = record {
  table = replicate n d;
  index = 0;
  last_update_time = d;
  average_update_time = average;
}
