-- ===== src/ByteBuffer/Strings.antt =====
-- Strings in a ByteBuffer: `ReadCString` gives the bytes up to the first zero, or up to the end.
use warhead_discord.Prelude.{
  ℕ, zero, suc, ◌+◌, ◌*◌, ◌≤◌, ◌≡◌, ◌≢◌, refl, sym, ap, ap₂, ◌∙◌, Bool, true, false, List, [], ◌∷◌,
  ◌++◌, ok, err, arith, ltb, ◌==◌, if◌then◌else◌, length, drop, append_assoc, append-nil,
  Bool-cases, inl, inr, of_le, invalid_value,
}
use warhead_discord.ByteBuffer.{ByteBuffer, read_value, cstring_loop, read_cstring, read_string}
use warhead_discord.ByteBuffer.Reads.{Holds, advance, read_value_lem, advance-Holds, length-holds}

-- The bytes before the first zero, and those behind it.
unfoldable pub until_zero : List ℕ → List ℕ
until_zero [] = []
until_zero (c ∷ s) = let rest = until_zero s in if c == 0 then [] else c ∷ rest

unfoldable pub behind_zero : List ℕ → List ℕ
behind_zero [] = []
behind_zero (c ∷ s) = let rest = behind_zero s in if c == 0 then s else rest

-- How many bytes a read takes: the string and its zero, if there is one.
unfoldable pub taken : List ℕ → ℕ
taken [] = 0
taken (c ∷ s) = let rest = taken s in if c == 0 then 1 else suc rest

pub taken-le : (xs : List ℕ) → taken xs ≤ length xs
unfolding taken
taken-le [] = omega arith
taken-le (c ∷ s) = ground (arith, taken-le s)

pub drop-taken : (xs : List ℕ) → drop (taken xs) xs ≡ behind_zero xs
unfolding taken behind_zero
drop-taken [] = refl
drop-taken (c ∷ s) = elim (Bool-cases (c == 0)) [ inl e ↦ rw e | inr e ↦ rw e (drop-taken s) ]

pub next_byte :
    {b : ByteBuffer} (c : ℕ) (s : List ℕ)
    → Holds b (c ∷ s)
    → (read_value 1 b ≡ ok (c, advance 1 b)) × Holds (advance 1 b) s
unfolding of_le
next_byte {b} c s h =
    let e : c + 256 * 0 ≡ c = omega arith in
    (
      read_value_lem h 1 (omega arith) ∙ ap (λ k. ok (k, advance 1 b)) e,
      advance-Holds h 1 (omega arith),
    )

-- With fuel for every unread byte the loop reads the whole string.
pub cstring_loop_lem :
    (fuel : ℕ) (b : ByteBuffer) (xs value : List ℕ)
    → Holds b xs
    → length xs ≤ fuel
    → cstring_loop fuel b value ≡ ok (value ++ until_zero xs, advance (taken xs) b)
unfolding cstring_loop until_zero taken
cstring_loop_lem zero b [] value h k =
    let e : b.rpos ≡ b.rpos + 0 = omega arith in
    ap₂ (λ v r. ok (v, record b { rpos = r })) (sym (append-nil value)) e
cstring_loop_lem zero b (c ∷ s) value h k = absurd (omega arith)
cstring_loop_lem (suc fuel) b [] value h k =
    let at_end : ltb b.rpos (length b.storage) ≡ false = ground (arith, length-holds h) in
    let e : b.rpos ≡ b.rpos + 0 = omega arith in
    rw (at_end, cstring_loop)
      (ap₂ (λ v r. ok (v, record b { rpos = r })) (sym (append-nil value)) e)
cstring_loop_lem (suc fuel) b (c ∷ s) value h k =
    let more : ltb b.rpos (length b.storage) ≡ true = ground (arith, length-holds h) in
    let (read, rest) = next_byte c s h in
    let deeper = cstring_loop_lem fuel (advance 1 b) s (value ++ c ∷ []) rest (omega arith) in
    ground (arith, read, deeper, append-nil value, append_assoc value (c ∷ []) (until_zero s))

-- `ReadCString` without the UTF-8 test never throws, and terminates on every buffer.
pub read_cstring_lem :
    (is_valid : List ℕ → Bool) {b : ByteBuffer} {xs : List ℕ}
    → Holds b xs
    → (read_cstring is_valid false b ≡ ok (until_zero xs, advance (taken xs) b))
      × Holds (advance (taken xs) b) (behind_zero xs)
unfolding read_cstring
read_cstring_lem is_valid {b} {xs} h =
    let r = advance-Holds h (taken xs) (taken-le xs) in
    (
      rw (cstring_loop_lem (length b.storage) b xs [] h (omega (arith, length-holds h))),
      record { inside = r.inside; small = r.small; holds = r.holds ∙ drop-taken xs },
    )

-- On every buffer, reading a string terminates: it gives the bytes up to the first zero or to the
-- end, and moves behind them, if they are valid UTF-8, and throws otherwise.
pub read_string_lem :
    (is_valid : List ℕ → Bool) {b : ByteBuffer} {xs : List ℕ}
    → Holds b xs
    → read_string is_valid b ≡ (
        if is_valid (until_zero xs)
        then ok (until_zero xs, advance (taken xs) b)
        else err invalid_value)
unfolding read_string read_cstring
read_string_lem is_valid {b} {xs} h = elim (Bool-cases (is_valid (until_zero xs))) [
  | inl e ↦ rw (cstring_loop_lem (length b.storage) b xs [] h (omega (arith, length-holds h)), e)
  | inr e ↦ rw (cstring_loop_lem (length b.storage) b xs [] h (omega (arith, length-holds h)), e)
]

-- No byte of the string is the terminator.
abbrev pub HasNoZero : List ℕ → Type 0
HasNoZero [] = Unit {0}
HasNoZero (c ∷ s) = (c ≢ 0) × HasNoZero s

until_zero-append :
    (s rest : List ℕ)
    → HasNoZero s
    → (until_zero (s ++ 0 ∷ rest) ≡ s)
      × (behind_zero (s ++ 0 ∷ rest) ≡ rest)
      × (taken (s ++ 0 ∷ rest) ≡ length s + 1)
unfolding until_zero behind_zero taken
until_zero-append [] rest h = (refl, refl, omega arith)
until_zero-append (c ∷ s) rest (ne, h) =
    let (before, after, size) = until_zero-append s rest h in
    let go : (c == 0) ≡ false = ground arith in
    (rw go (ap (◌∷◌ c) before), rw go after, rw go (omega arith))

-- A written string is read back, whatever follows it.
pub read_string-append :
    (is_valid : List ℕ → Bool) {b : ByteBuffer} (s rest : List ℕ)
    → HasNoZero s
    → is_valid s ≡ true
    → Holds b (s ++ 0 ∷ rest)
    → (read_string is_valid b ≡ ok (s, advance (length s + 1) b))
      × Holds (advance (length s + 1) b) rest
read_string-append is_valid {b} s rest nz valid h =
    let (before, after, size) = until_zero-append s rest nz in
    let r = (read_cstring_lem is_valid h).1 in
    (read_string_lem is_valid h ∙ rw (before, size, valid), rw (size, after) at r)
