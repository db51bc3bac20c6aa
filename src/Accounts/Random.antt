-- ===== src/Accounts/Random.antt =====
-- `GetRandomKey`: what its keys are made of, and when it gives none.
use warhead_discord.Prelude.{
  ℕ, zero, suc, ◌+◌, ◌-◌, ◌≤◌, ◌<◌, ◌≡◌, ◌⊎◌, inl, inr, refl, ap, true, false, Bool-cases, List, [],
  ◌∷◌, ◌++◌, ok, err, aborted, arith, leb, ◌==◌, if◌then◌else◌, length, length-append,
}
use warhead_discord.Accounts.{max_pass_str, draw, urand, get_random_key}

-- A digit, a large letter or a small letter of ASCII.
abbrev pub IsKeyCharacter : ℕ → Type 0
IsKeyCharacter c = ((48 ≤ c) × (c < 58)) ⊎ (((65 ≤ c) × (c < 91)) ⊎ ((97 ≤ c) × (c < 123)))

abbrev pub AreKeyCharacters : List ℕ → Type 0
AreKeyCharacters [] = Unit {0}
AreKeyCharacters (c ∷ key) = IsKeyCharacter c × AreKeyCharacters key

length-draw :
    (rand : ℕ → ℕ) (size first i count : ℕ) → length (draw rand size first i count) ≡ count
unfolding draw
length-draw rand size first i zero = refl
length-draw rand size first i (suc count) = ap suc (length-draw rand size first (i + 1) count)

digits : (rand : ℕ → ℕ) (i count : ℕ) → AreKeyCharacters (draw rand 10 48 i count)
unfolding draw
digits rand i zero = tt
digits rand i (suc count) = (inl (omega arith, omega arith), digits rand (i + 1) count)

large_letters : (rand : ℕ → ℕ) (i count : ℕ) → AreKeyCharacters (draw rand 26 65 i count)
unfolding draw
large_letters rand i zero = tt
large_letters rand i (suc count) =
    (inr (inl (omega arith, omega arith)), large_letters rand (i + 1) count)

small_letters : (rand : ℕ → ℕ) (i count : ℕ) → AreKeyCharacters (draw rand 26 97 i count)
unfolding draw
small_letters rand i zero = tt
small_letters rand i (suc count) =
    (inr (inr (omega arith, omega arith)), small_letters rand (i + 1) count)

append-AreKeyCharacters :
    (a b : List ℕ) → AreKeyCharacters a → AreKeyCharacters b → AreKeyCharacters (a ++ b)
append-AreKeyCharacters [] b p q = q
append-AreKeyCharacters (c ∷ a) b (p, ps) q = (p, append-AreKeyCharacters a b ps q)

-- The 50 characters before they are shuffled.
abbrev pub ordered_key : (ℕ → ℕ → ℕ) → (ℕ → ℕ) → List ℕ
ordered_key pick rand =
    let small_chars = pick 1 50 in
    let big_chars = pick 1 (50 - small_chars) in
    let numbers = 50 - small_chars - big_chars in
    draw rand 10 48 0 numbers
    ++ (draw rand 26 65 numbers big_chars ++ draw rand 26 97 (numbers + big_chars) small_chars)

-- A draw of the random numbers is in the range that it is asked for, if there is one.
abbrev pub IsInRange : (ℕ → ℕ → ℕ) → Type 0
IsInRange pick = (low high : ℕ) → low ≤ high → (low ≤ pick low high) × (pick low high ≤ high)

ordered_key-AreKeyCharacters :
    (pick : ℕ → ℕ → ℕ) (rand : ℕ → ℕ) → AreKeyCharacters (ordered_key pick rand)
ordered_key-AreKeyCharacters pick rand =
    append-AreKeyCharacters _ _ (digits rand _ _)
      (append-AreKeyCharacters _ _ (large_letters rand _ _) (small_letters rand _ _))

length-ordered_key :
    (pick : ℕ → ℕ → ℕ) (rand : ℕ → ℕ)
    → IsInRange pick
    → pick 1 50 < 50
    → length (ordered_key pick rand) ≡ max_pass_str
length-ordered_key pick rand range some_left =
    let small_chars = pick 1 50 in
    let big_chars = pick 1 (50 - small_chars) in
    let numbers = 50 - small_chars - big_chars in
    let (low, high) = range 1 (50 - small_chars) (omega arith) in
    omega (
      arith,
      high,
      length-append (draw rand 10 48 0 numbers)
          (draw rand 26 65 numbers big_chars ++ draw rand 26 97 (numbers + big_chars) small_chars),
      length-append (draw rand 26 65 numbers big_chars)
          (draw rand 26 97 (numbers + big_chars) small_chars),
      length-draw rand 10 48 0 numbers,
      length-draw rand 26 65 numbers big_chars,
      length-draw rand 26 97 (numbers + big_chars) small_chars,
    )

-- A random key is a shuffle of exactly 50 digits and letters, unless the first draw takes all 50
-- for small letters: then none is left for a large one, and the ASSERT of the second draw ends the
-- process. A draw is in the range that it is asked for.
pub get_random_key_lem :
    (pick : ℕ → ℕ → ℕ) (rand : ℕ → ℕ) (shuffle : List ℕ → List ℕ)
    → IsInRange pick
    → (get_random_key pick rand shuffle
        ≡ (if pick 1 50 == 50 then err aborted else ok (shuffle (ordered_key pick rand))))
      × AreKeyCharacters (ordered_key pick rand)
      × ((pick 1 50 ≡ 50) ⊎ (length (ordered_key pick rand) ≡ max_pass_str))
unfolding get_random_key urand
get_random_key_lem pick rand shuffle range =
    let (low, high) = range 1 50 (omega arith) in
    elim (Bool-cases (pick 1 50 == 50)) [
      | inl all_small ↦
          let none_left : leb 1 (50 - pick 1 50) ≡ false = ground arith in
          (
            rw (all_small, none_left) refl,
            ordered_key-AreKeyCharacters pick rand,
            inl (ground arith),
          )
      | inr some_left ↦
          let left : leb 1 (50 - pick 1 50) ≡ true = ground (arith, high) in
          (
            rw (some_left, left) refl,
            ordered_key-AreKeyCharacters pick rand,
            inr (length-ordered_key pick rand range (ground (arith, high))),
          )
    ]
