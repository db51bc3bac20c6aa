-- ===== src/Tokenize/Pieces.antt =====
-- What `Tokenize` gives, by a reference that is a recursion on the text.
use warhead_discord.Prelude.{
  Option, ℕ, zero, suc, ◌+◌, ◌-◌, ◌≤◌, ◌<◌, ◌≡◌, refl, sym, ap, ap₂, ◌∙◌, Bool, true, false, not,
  ◌||◌, inl, inr, Bool-cases, Option-cases, List, [], ◌∷◌, ◌++◌, none, some, arith, ltb, ◌==◌,
  if◌then◌else◌, length, take, drop, slice, append_assoc, drop-drop, length-drop, length-take,
  append-nil, subst,
}
use warhead_discord.Tokenize.{index_of, find_from, tokenize_loop, tokenize}

-- The reference: the pieces between the separators, by recursion on the text.
unfoldable pub onto_first : ℕ → List (List ℕ) → List (List ℕ)
onto_first c [] = (c ∷ []) ∷ []
onto_first c (piece ∷ pieces) = (c ∷ piece) ∷ pieces

unfoldable pub pieces : ℕ → List ℕ → List (List ℕ)
unfolding onto_first
pieces sep [] = [] ∷ []
pieces sep (c ∷ text) =
    let rest = pieces sep text in if c == sep then [] ∷ rest else onto_first c rest

-- The pieces that are kept.
unfoldable pub kept : Bool → List (List ℕ) → List (List ℕ)
kept keep_empty [] = []
kept keep_empty (piece ∷ more) =
    let rest = kept keep_empty more in
    if keep_empty || not (length piece == 0) then piece ∷ rest else rest

pieces-none : (sep : ℕ) (text : List ℕ) → index_of sep text ≡ none → pieces sep text ≡ text ∷ []
unfolding index_of pieces onto_first
pieces-none sep [] h = refl
pieces-none sep (c ∷ text) h = elim (Bool-cases (c == sep)) [
  | inl e ↦ let wrong : ◌≡◌ {A = Option ℕ} (some 0) none = rw (index_of, e) at h in cc
  | inr e ↦ elim (Option-cases (index_of sep text)) [
    | inl missing ↦ rw (pieces, e, pieces-none sep text missing) refl
    | inr (i, there) ↦
        let wrong : ◌≡◌ {A = Option ℕ} (some (suc i)) none = rw (index_of, e, there) at h in cc
  ]
]

pieces-some :
    (sep : ℕ) (text : List ℕ) (i : ℕ)
    → index_of sep text ≡ some i
    → (pieces sep text ≡ take i text ∷ pieces sep (drop (i + 1) text)) × (i < length text)
unfolding index_of pieces onto_first
pieces-some sep [] i h = cc
pieces-some sep (c ∷ text) i h = elim (Bool-cases (c == sep)) [
  | inl e ↦
      let first : some 0 ≡ some i = rw (index_of, e) at h in
      let z : 0 ≡ i = cc in
      subst
        (λ n.
          (pieces sep (c ∷ text) ≡ take n (c ∷ text) ∷ pieces sep (drop (n + 1) (c ∷ text)))
          × (n < length (c ∷ text)))
        z (rw (pieces, e) refl, omega arith)
  | inr e ↦ elim (Option-cases (index_of sep text)) [
    | inl missing ↦ let wrong : none ≡ some i = rw (index_of, e, missing) at h in cc
    | inr (j, there) ↦
        let later : some (suc j) ≡ some i = rw (index_of, e, there) at h in
        let z : suc j ≡ i = cc in
        let (cut, inside) = pieces-some sep text j there in
        let n : suc j + 1 ≡ suc (j + 1) = omega arith in
        subst
          (λ n.
            (pieces sep (c ∷ text) ≡ take n (c ∷ text) ∷ pieces sep (drop (n + 1) (c ∷ text)))
            × (n < length (c ∷ text)))
          z (rw (pieces, e, cut, n) refl, omega (arith, inside))
  ]
]

add_token :
    (test : Bool) (tokens : List (List ℕ)) (piece : List ℕ) (more : List (List ℕ))
    → (if test then tokens ++ piece ∷ [] else tokens) ++ more
      ≡ tokens ++ (if test then piece ∷ more else more)
add_token true tokens piece more = append_assoc tokens (piece ∷ []) more
add_token false tokens piece more = refl

last_token :
    (test : Bool) (tokens : List (List ℕ)) (piece : List ℕ)
    → (if test then tokens ++ piece ∷ [] else tokens) ≡ tokens ++ (if test then piece ∷ [] else [])
last_token true tokens piece = refl
last_token false tokens piece = sym (append-nil tokens)

-- What the loop adds to its tokens, from any place of the text.
tokenize_loop_lem :
    (fuel : ℕ) (str : List ℕ) (sep : ℕ) (keep_empty : Bool) (start : ℕ) (tokens : List (List ℕ))
    → start ≤ length str
    → length str - start < fuel
    → tokenize_loop fuel str sep keep_empty start tokens
      ≡ tokens ++ kept keep_empty (pieces sep (drop start str))
unfolding tokenize_loop find_from kept
tokenize_loop_lem zero str sep keep_empty start tokens inside enough = absurd (omega arith)
tokenize_loop_lem (suc fuel) str sep keep_empty start tokens inside enough =
    let text = drop start str in
    let size = length-drop start str in
    elim (Option-cases (index_of sep text)) [
      | inl missing ↦
          let cut = pieces-none sep text missing in
          let test : ltb start (length str) ≡ not (length text == 0) = ground (arith, size) in
          rw (tokenize_loop, missing, cut, test)
            (last_token (keep_empty || not (length text == 0)) tokens text)
      | inr (i, there) ↦
          let (cut, within) = pieces-some sep text i there in
          let deeper =
            tokenize_loop_lem fuel str sep keep_empty (start + i + 1)
              (if keep_empty || ltb start (start + i)
                then tokens ++ slice start (start + i - start) str ∷ []
                else tokens)
              (omega (arith, within, size)) (omega (arith, within, size)) in
          let whole : start + i - start ≡ i = omega arith in
          let piece : length (take i text) ≡ i = omega (arith, length-take i text, within) in
          let test : ltb start (start + i) ≡ not (length (take i text) == 0) =
            ground (arith, piece) in
          let behind : drop (start + i + 1) str ≡ drop (i + 1) text =
            ap (λ n. drop n str) (omega arith) ∙ sym (drop-drop (i + 1) start str) in
          rw (tokenize_loop, there, deeper, cut, whole, test, behind)
            (add_token (keep_empty || not (length (take i text) == 0)) tokens (take i text)
              (kept keep_empty (pieces sep (drop (i + 1) text))))
    ]

-- Pieces with the separator between them.
unfoldable pub join : ℕ → List (List ℕ) → List ℕ
join sep [] = []
join sep (piece ∷ []) = piece
join sep (piece ∷ (next ∷ more)) = let rest = join sep (next ∷ more) in piece ++ sep ∷ rest

join-onto_first : (sep c : ℕ) (ps : List (List ℕ)) → join sep (onto_first c ps) ≡ c ∷ join sep ps
unfolding join onto_first
join-onto_first sep c [] = refl
join-onto_first sep c (piece ∷ []) = refl
join-onto_first sep c (piece ∷ (next ∷ more)) = refl

join-empty : (sep : ℕ) (ps : List (List ℕ)) → 0 < length ps → join sep ([] ∷ ps) ≡ sep ∷ join sep ps
unfolding join
join-empty sep [] h = absurd (omega arith)
join-empty sep (piece ∷ ps) h = refl

length-onto_first : (c : ℕ) (ps : List (List ℕ)) → 0 < length (onto_first c ps)
unfolding onto_first
length-onto_first c [] = omega arith
length-onto_first c (piece ∷ ps) = omega arith

length-pieces : (sep : ℕ) (text : List ℕ) → 0 < length (pieces sep text)
unfolding pieces
length-pieces sep [] = omega arith
length-pieces sep (c ∷ text) = elim (Bool-cases (c == sep)) [
  | inl e ↦ rw (pieces, e) (omega arith)
  | inr e ↦ rw (pieces, e) (length-onto_first c (pieces sep text))
]

join-pieces : (sep : ℕ) (text : List ℕ) → join sep (pieces sep text) ≡ text
unfolding pieces join
join-pieces sep [] = refl
join-pieces sep (c ∷ text) = elim (Bool-cases (c == sep)) [
  | inl e ↦
      let same : sep ≡ c = ground arith in
      rw (pieces, e)
        (join-empty sep (pieces sep text) (length-pieces sep text)
          ∙ ap₂ (λ x xs. x ∷ xs) same (join-pieces sep text))
  | inr e ↦
      rw (pieces, e) (join-onto_first sep c (pieces sep text) ∙ ap (◌∷◌ c) (join-pieces sep text))
]

-- `Tokenize` gives the pieces of the text between its separators, in their order, and without the
-- empty ones where these are not kept; the pieces with the separator between them are the text.
pub tokenize-pieces :
    (str : List ℕ) (sep : ℕ) (keep_empty : Bool)
    → (tokenize str sep keep_empty ≡ kept keep_empty (pieces sep str))
      × (join sep (pieces sep str) ≡ str)
unfolding tokenize
tokenize-pieces str sep keep_empty = (
  tokenize_loop_lem (suc (length str)) str sep keep_empty 0 [] (omega arith) (omega arith),
  join-pieces sep str,
)
