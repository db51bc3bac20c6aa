-- ===== src/ByteBuffer/Caught.antt =====
-- Reads that may throw: each returns with the rest still readable, or leaves by an exception that
-- is caught.
use warhead_discord.Prelude.{
  ℕ, ◌+◌, ◌^◌, ◌≤◌, ◌<◌, ◌≡◌, sym, ap, Bool, ◌&&◌, inl, inr, List, Bool-cases, ok, err, Result,
  position, invalid_value, ◌>>=◌, >>=_assoc, arith, length, take, drop, ltb, of_le, subst,
  length-drop,
}
use warhead_discord.ByteBuffer.{ByteBuffer, read_value, read_string, read_bool}
use warhead_discord.ByteBuffer.Reads.{
  Holds, advance, read_value_lem, read_value_short, advance-Holds,
}
use warhead_discord.ByteBuffer.Strings.{
  until_zero, taken, behind_zero, read_string_lem, read_cstring_lem, drop-taken,
}

-- The call returns, or throws an exception that is caught.
pub data IsCaught {A : Type 0} : Result A → Type 0 where
  returns : (a : A) → IsCaught (ok a)
  out_of_bytes : IsCaught (err position)
  not_valid : IsCaught (err invalid_value)

pub IsCaught-along : {A : Type 0} {m n : Result A} → m ≡ n → IsCaught n → IsCaught m
IsCaught-along e c = subst IsCaught (sym e) c

pub IsCaught-assoc :
    {A B C : Type 0} (m : Result A) (f : A → Result B) (g : B → Result C)
    → IsCaught (m >>= λ a. f a >>= g)
    → IsCaught (m >>= f >>= g)
IsCaught-assoc m f g = IsCaught-along (>>=_assoc m f g)

-- A read returns with the rest of the bytes still readable, or throws.
pub IsCaught-read_value :
    {A : Type 0} (n : ℕ) {b : ByteBuffer} {xs : List ℕ} (f : ℕ × ByteBuffer → Result A)
    → Holds b xs
    → n < 2 ^ 63
    → ((v : ℕ) (c : ByteBuffer) (ys : List ℕ)
        → Holds c ys
        → length ys + n ≤ length xs
        → IsCaught (f (v, c)))
    → IsCaught (read_value n b >>= f)
IsCaught-read_value n {b} {xs} f h small rest = elim (Bool-cases (ltb (length xs) n)) [
  | inl short ↦
      IsCaught-along (ap (λ m. m >>= f) (read_value_short h n small (ground arith))) out_of_bytes
  | inr there ↦ IsCaught-along (ap (λ m. m >>= f) (read_value_lem h n (ground arith))) (
      rest (of_le (take n xs)) (advance n b) (drop n xs) (advance-Holds h n (ground arith))
        (ground (arith, length-drop n xs)))
]

pub IsCaught-read_string :
    {A : Type 0} (is_valid : List ℕ → Bool) {b : ByteBuffer} {xs : List ℕ}
    (f : List ℕ × ByteBuffer → Result A)
    → Holds b xs
    → ((s : List ℕ) (c : ByteBuffer) (ys : List ℕ)
        → Holds c ys
        → length ys ≤ length xs
        → IsCaught (f (s, c)))
    → IsCaught (read_string is_valid b >>= f)
IsCaught-read_string is_valid {b} {xs} f h rest = elim (Bool-cases (is_valid (until_zero xs))) [
  | inl good ↦ IsCaught-along (ap (λ m. m >>= f) (rw good at (read_string_lem is_valid h))) (
      rest (until_zero xs) (advance (taken xs) b) (behind_zero xs) (read_cstring_lem is_valid h).1
        (omega (arith, ap length (drop-taken xs), length-drop (taken xs) xs)))
  | inr bad ↦ IsCaught-along (ap (λ m. m >>= f) (rw bad at (read_string_lem is_valid h))) not_valid
]

pub IsCaught-read_bool :
    {A : Type 0} {b : ByteBuffer} {xs : List ℕ} (f : Bool × ByteBuffer → Result A)
    → Holds b xs
    → ((v : Bool) (c : ByteBuffer) (ys : List ℕ)
        → Holds c ys
        → length ys + 1 ≤ length xs
        → IsCaught (f (v, c)))
    → IsCaught (read_bool b >>= f)
unfolding read_bool
IsCaught-read_bool {b} {xs} f h rest = elim (Bool-cases (ltb (length xs) 1)) [
  | inl short ↦
      IsCaught-along
        (ap (λ m. m >>= (λ (value, c). ok (ltb 0 value && ltb value 128, c)) >>= f)
          (read_value_short h 1 (omega arith) (ground arith)))
        out_of_bytes
  | inr there ↦
      IsCaught-along
        (ap (λ m. m >>= (λ (value, c). ok (ltb 0 value && ltb value 128, c)) >>= f)
          (read_value_lem h 1 (ground arith)))
        (rest (ltb 0 (of_le (take 1 xs)) && ltb (of_le (take 1 xs)) 128) (advance 1 b) (drop 1 xs)
          (advance-Holds h 1 (ground arith)) (ground (arith, length-drop 1 xs)))
]

pub IsCaught-map :
    {A B : Type 0} (m : Result A) (f : A → B) → IsCaught m → IsCaught (m >>= λ a. ok (f a))
IsCaught-map m f (returns a) = returns (f a)
IsCaught-map m f out_of_bytes = out_of_bytes
IsCaught-map m f not_valid = not_valid

pub IsCaught-bind :
    {A B : Type 0} (m : Result A) (f : A → Result B)
    → IsCaught m
    → ((a : A) → IsCaught (f a))
    → IsCaught (m >>= f)
IsCaught-bind m f (returns a) rest = rest a
IsCaught-bind m f out_of_bytes rest = out_of_bytes
IsCaught-bind m f not_valid rest = not_valid
