-- ===== src/Tokenize.antt =====
-- src/common/Utilities/Tokenize.cpp: a text cut at a separator. `index_of` and `find_from` are
-- std::string_view::find of a character, where the end of the text stands for npos.
pub mod Pieces
use warhead_discord.Prelude.{
  ℕ, zero, suc, ◌+◌, ◌-◌, ◌≤◌, ◌<◌, ◌≡◌, refl, sym, ap, ap₂, ◌∙◌, Bool, true, false, not, ◌||◌, inl,
  inr, Bool-cases, Option-cases, List, [], ◌∷◌, ◌++◌, Option, none, some, arith, ltb, ◌==◌,
  if◌then◌else◌, length, take, drop, slice, append_assoc, drop-drop, length-drop, length-take,
  append-nil, subst,
}

unfoldable pub index_of : ℕ → List ℕ → Option ℕ
index_of sep [] = none
index_of sep (c ∷ text) =
    let rest = index_of sep text in
    if c == sep then some 0 else elim rest [ none ↦ none | some i ↦ some (suc i) ]

unfoldable pub find_from : List ℕ → ℕ → ℕ → Option ℕ
unfolding index_of
find_from str sep start = elim (index_of sep (drop start str)) [
  | none ↦ none
  | some i ↦ some (start + i)
]

-- The loop and the token behind it. A round moves behind a separator, so fuel for every character
-- is enough.
unfoldable pub tokenize_loop : ℕ → List ℕ → ℕ → Bool → ℕ → List (List ℕ) → List (List ℕ)
unfolding find_from
tokenize_loop zero str sep keep_empty start tokens = tokens
tokenize_loop (suc fuel) str sep keep_empty start tokens = elim (find_from str sep start) [
  | some end ↦
      tokenize_loop fuel str sep keep_empty (end + 1) (
        if keep_empty || ltb start end
        then tokens ++ slice start (end - start) str ∷ []
        else tokens)
  | none ↦ if keep_empty || ltb start (length str) then tokens ++ drop start str ∷ [] else tokens
]

unfoldable pub tokenize : List ℕ → ℕ → Bool → List (List ℕ)
unfolding tokenize_loop
tokenize str sep keep_empty = tokenize_loop (suc (length str)) str sep keep_empty 0 []
