-- ===== src/Prelude/Lists.antt =====
-- Byte sequences: measured, cut and overwritten at native positions.
use Prim.Native.Nat.{ℕ, zero, suc, ◌+◌, ◌-◌, ◌≤◌, min}
use mathlib.Core.Path.{◌≡◌, refl, ap, sym, ◌∙◌}
use mathlib.Core.List.{List, [], ◌∷◌, ◌++◌, map}
use native.Mathlib.Omega.{arith}

module _ {ℓ} {A : Type ℓ} where
  abbrev pub length : List A → ℕ
  length [] = 0
  length (x ∷ xs) = suc (length xs)

  abbrev pub take : ℕ → List A → List A
  take zero xs = []
  take (suc n) [] = []
  take (suc n) (x ∷ xs) = x ∷ take n xs

  abbrev pub drop : ℕ → List A → List A
  drop zero xs = xs
  drop (suc n) [] = []
  drop (suc n) (x ∷ xs) = drop n xs

  abbrev pub replicate : ℕ → A → List A
  replicate zero a = []
  replicate (suc n) a = a ∷ replicate n a

  pub length-append : (xs ys : List A) → length (xs ++ ys) ≡ length xs + length ys
  length-append [] ys = omega arith
  length-append (x ∷ xs) ys = omega (arith, length-append xs ys)

  pub length-take : (n : ℕ) (xs : List A) → length (take n xs) ≡ min n (length xs)
  length-take zero xs = omega arith
  length-take (suc n) [] = omega arith
  length-take (suc n) (x ∷ xs) = omega (arith, length-take n xs)

  pub length-drop : (n : ℕ) (xs : List A) → length (drop n xs) ≡ length xs - n
  length-drop zero xs = omega arith
  length-drop (suc n) [] = omega arith
  length-drop (suc n) (x ∷ xs) = omega (arith, length-drop n xs)

  pub length-replicate : (n : ℕ) (a : A) → length (replicate n a) ≡ n
  length-replicate zero a = refl
  length-replicate (suc n) a = ap suc (length-replicate n a)

  pub take-append-drop : (n : ℕ) (xs : List A) → take n xs ++ drop n xs ≡ xs
  take-append-drop zero xs = refl
  take-append-drop (suc n) [] = refl
  take-append-drop (suc n) (x ∷ xs) = ap (◌∷◌ x) (take-append-drop n xs)

  pub take_all : (n : ℕ) (xs : List A) → length xs ≤ n → take n xs ≡ xs
  take_all zero [] h = refl
  take_all zero (x ∷ xs) h = elim h [ ]
  take_all (suc n) [] h = refl
  take_all (suc n) (x ∷ xs) h = ap (◌∷◌ x) (take_all n xs (omega arith))

  pub take_add : (m n : ℕ) (xs : List A) → take (m + n) xs ≡ take m xs ++ take n (drop m xs)
  take_add zero n xs = ap (λ k. take k xs) (omega arith)
  take_add (suc m) n [] =
      let e : suc m + n ≡ suc (m + n) = omega arith in
      ap (λ k. take k []) e ∙ sym (take_all n [] (omega arith))
  take_add (suc m) n (x ∷ xs) =
      let e : suc m + n ≡ suc (m + n) = omega arith in
      ap (λ k. take k (x ∷ xs)) e ∙ ap (◌∷◌ x) (take_add m n xs)

  pub drop_all : (n : ℕ) (xs : List A) → length xs ≤ n → drop n xs ≡ []
  drop_all zero [] h = refl
  drop_all zero (x ∷ xs) h = elim h [ ]
  drop_all (suc n) [] h = refl
  drop_all (suc n) (x ∷ xs) h = drop_all n xs (omega arith)

  pub take-append_left : (n : ℕ) (xs ys : List A) → n ≤ length xs → take n (xs ++ ys) ≡ take n xs
  take-append_left zero xs ys h = refl
  take-append_left (suc n) [] ys h = absurd (omega arith)
  take-append_left (suc n) (x ∷ xs) ys h = ap (◌∷◌ x) (take-append_left n xs ys (omega arith))

  pub drop-append_left :
      (n : ℕ) (xs ys : List A) → n ≤ length xs → drop n (xs ++ ys) ≡ drop n xs ++ ys
  drop-append_left zero xs ys h = refl
  drop-append_left (suc n) [] ys h = absurd (omega arith)
  drop-append_left (suc n) (x ∷ xs) ys h = drop-append_left n xs ys (omega arith)

  pub drop-append_right :
      (n : ℕ) (xs ys : List A) → length xs ≤ n → drop n (xs ++ ys) ≡ drop (n - length xs) ys
  drop-append_right zero [] ys h = refl
  drop-append_right zero (x ∷ xs) ys h = elim h [ ]
  drop-append_right (suc n) [] ys h =
      let e : suc n ≡ suc n - 0 = omega arith in ap (λ k. drop k ys) e
  drop-append_right (suc n) (x ∷ xs) ys h =
      let e : n - length xs ≡ suc n - suc (length xs) = omega arith in
      drop-append_right n xs ys (omega arith) ∙ ap (λ k. drop k ys) e

  pub take-append_right :
      (n : ℕ) (xs ys : List A) → length xs ≤ n → take n (xs ++ ys) ≡ xs ++ take (n - length xs) ys
  take-append_right zero [] ys h = refl
  take-append_right zero (x ∷ xs) ys h = elim h [ ]
  take-append_right (suc n) [] ys h =
      let e : suc n ≡ suc n - 0 = omega arith in ap (λ k. take k ys) e
  take-append_right (suc n) (x ∷ xs) ys h =
      let e : n - length xs ≡ suc n - suc (length xs) = omega arith in
      ap (◌∷◌ x) (take-append_right n xs ys (omega arith) ∙ ap (λ k. xs ++ take k ys) e)

  pub drop-drop : (m n : ℕ) (xs : List A) → drop m (drop n xs) ≡ drop (n + m) xs
  drop-drop m zero xs = ap (λ k. drop k xs) (omega arith)
  drop-drop m (suc n) [] = drop_all m [] (omega arith) ∙ sym (drop_all (suc n + m) [] (omega arith))
  drop-drop m (suc n) (x ∷ xs) =
      drop-drop m n xs ∙ ap (λ k. drop k (x ∷ xs)) {x = suc (n + m)} (omega arith)

module _ {ℓ} {A : Type ℓ} where
  -- `n` elements from position `i` on.
  abbrev pub slice : ℕ → ℕ → List A → List A
  slice i n xs = take n (drop i xs)

  -- What memcpy leaves behind when it writes `ys` at position `i`, inside of the array.
  abbrev pub blit : List A → ℕ → List A → List A
  blit xs i ys = take i xs ++ (ys ++ drop (i + length ys) xs)

  -- `std::vector::resize`: cut off, or fill up with `a`.
  abbrev pub resize : List A → ℕ → A → List A
  resize xs n a = take n xs ++ replicate (n - length xs) a

module _ {ℓ} {A : Type ℓ} where
  pub length-slice : (i n : ℕ) (xs : List A) → i + n ≤ length xs → length (slice i n xs) ≡ n
  length-slice i n xs h = omega (arith, length-take n (drop i xs), length-drop i xs)

  pub length-blit :
      (xs : List A) (i : ℕ) (ys : List A)
      → i + length ys ≤ length xs
      → length (blit xs i ys) ≡ length xs
  length-blit xs i ys h = omega (
    arith,
    length-append (take i xs) (ys ++ drop (i + length ys) xs),
    length-append ys (drop (i + length ys) xs),
    length-take i xs,
    length-drop (i + length ys) xs,
  )

  pub length-resize : (xs : List A) (n : ℕ) (a : A) → length (resize xs n a) ≡ n
  length-resize xs n a = omega (
    arith,
    length-append (take n xs) (replicate (n - length xs) a),
    length-take n xs,
    length-replicate (n - length xs) a,
  )

  -- The bytes before a write stay, and those behind them are the written ones.
  pub take-blit :
      (xs : List A) (i : ℕ) (ys : List A)
      → i ≤ length xs
      → take (i + length ys) (blit xs i ys) ≡ take i xs ++ ys
  take-blit xs i ys h =
      let k : length (take i xs) ≡ i = omega (arith, length-take i xs) in
      let e : i + length ys - length (take i xs) ≡ length ys = omega arith in
      take-append_right (i + length ys) (take i xs) (ys ++ drop (i + length ys) xs) (omega arith)
      ∙ ap (λ n. take i xs ++ take n (ys ++ drop (i + length ys) xs)) e
      ∙ ap (◌++◌ (take i xs)) (
          take-append_left (length ys) ys (drop (i + length ys) xs) (omega arith)
          ∙ take_all (length ys) ys (omega arith))

  -- A write read back.
  pub slice-blit :
      (xs : List A) (i : ℕ) (ys : List A) → i ≤ length xs → slice i (length ys) (blit xs i ys) ≡ ys
  slice-blit xs i ys h =
      let k : length (take i xs) ≡ i = omega (arith, length-take i xs) in
      let e : i - length (take i xs) ≡ 0 = omega arith in
      ap (take (length ys)) (
        drop-append_right i (take i xs) (ys ++ drop (i + length ys) xs) (omega arith)
        ∙ ap (λ n. drop n (ys ++ drop (i + length ys) xs)) e)
      ∙ take-append_left (length ys) ys (drop (i + length ys) xs) (omega arith)
      ∙ take_all (length ys) ys (omega arith)

  pub drop-take : (r w : ℕ) (xs : List A) → drop r (take w xs) ≡ take (w - r) (drop r xs)
  drop-take zero w xs = let e : w ≡ w - 0 = omega arith in ap (λ k. take k xs) e
  drop-take (suc r) zero xs =
      let e : 0 ≡ zero - suc r = omega arith in ap (λ k. take k (drop (suc r) xs)) e
  drop-take (suc r) (suc w) [] = sym (take_all (suc w - suc r) [] (omega arith))
  drop-take (suc r) (suc w) (x ∷ xs) =
      let e : w - r ≡ suc w - suc r = omega arith in
      drop-take r w xs ∙ ap (λ k. take k (drop r xs)) e

  pub take-take : (m n : ℕ) (xs : List A) → m ≤ n → take m (take n xs) ≡ take m xs
  take-take zero n xs h = refl
  take-take (suc m) zero xs h = absurd (omega arith)
  take-take (suc m) (suc n) [] h = refl
  take-take (suc m) (suc n) (x ∷ xs) h = ap (◌∷◌ x) (take-take m n xs (omega arith))

  -- Growing an array keeps what was in it.
  pub take-resize :
      (w : ℕ) (xs : List A) (n : ℕ) (a : A)
      → w ≤ length xs
      → w ≤ n
      → take w (resize xs n a) ≡ take w xs
  take-resize w xs n a h k =
      take-append_left w (take n xs) (replicate (n - length xs) a) (omega (arith, length-take n xs))
      ∙ take-take w n xs k

pub length-map {ℓ κ} :
    {A : Type ℓ} {B : Type κ} (f : A → B) (xs : List A) → length (map f xs) ≡ length xs
length-map f [] = refl
length-map f (x ∷ xs) = ap suc (length-map f xs)
