-- ===== src/Accounts/Names.antt =====
-- `GetID`: names are looked up without regard to case.
use warhead_discord.Prelude.{
  ℕ, ◌≡◌, ◌≢◌, ◌↔◌, refl, sym, ap₂, ◌∙◌, true, false, inl, inr, Bool-cases, List, [], ◌∷◌, none,
  some, arith, ◌==◌, if◌then◌else◌, map, find, IsMap, Lacks, find-Lacks, subst,
}
use warhead_discord.Accounts.{
  DiscordAccountInfo, AccountMgr, to_lower, string_equal_i, get_account_info, add_account_info,
  id_of, get_id, account_checked,
}

equal_of-string_equal_i :
    (a b : List ℕ) → string_equal_i a b ≡ true → map to_lower a ≡ map to_lower b
unfolding string_equal_i
equal_of-string_equal_i [] [] h = refl
equal_of-string_equal_i [] (d ∷ b) h = cc
equal_of-string_equal_i (c ∷ a) [] h = cc
equal_of-string_equal_i (c ∷ a) (d ∷ b) h = elim (Bool-cases (to_lower c == to_lower d)) [
  | inl same ↦
      let rest : string_equal_i a b ≡ true = rw (string_equal_i, same) at h in
      ap₂ (λ x xs. x ∷ xs) (ground arith) (equal_of-string_equal_i a b rest)
  | inr other ↦ let wrong : false ≡ true = rw (string_equal_i, other) at h in cc
]

string_equal_i_refl : (a b : List ℕ) → map to_lower a ≡ map to_lower b → string_equal_i a b ≡ true
unfolding string_equal_i
string_equal_i_refl [] [] h = refl
string_equal_i_refl [] (d ∷ b) h = cc
string_equal_i_refl (c ∷ a) [] h = cc
string_equal_i_refl (c ∷ a) (d ∷ b) h =
    let head : to_lower c ≡ to_lower d = cc in
    let tail : map to_lower a ≡ map to_lower b = cc in
    ground (arith, head, string_equal_i_refl a b tail)

-- `StringEqualI` is the equality of the texts in small letters.
pub string_equal_i_iff :
    (a b : List ℕ) → (string_equal_i a b ≡ true) ↔ (map to_lower a ≡ map to_lower b)
string_equal_i_iff a b = (equal_of-string_equal_i a b, string_equal_i_refl a b)

-- The texts that are equal to one of two equal texts are equal to the other.
string_equal_i-same :
    (a b c : List ℕ) → map to_lower b ≡ map to_lower c → string_equal_i a b ≡ string_equal_i a c
string_equal_i-same a b c e = elim (Bool-cases (string_equal_i a b)) [
  | inl same ↦ same ∙ sym (string_equal_i_refl a c (equal_of-string_equal_i a b same ∙ e))
  | inr differ ↦ elim (Bool-cases (string_equal_i a c)) [
    | inl other ↦
        let wrong : string_equal_i a b ≡ true =
          string_equal_i_refl a b (equal_of-string_equal_i a c other ∙ sym e) in
        cc
    | inr none_there ↦ differ ∙ sym none_there
  ]
]

-- Names that differ in case alone have the same identifier.
id_of-same :
    (accounts : List (ℕ × DiscordAccountInfo)) (a b : List ℕ)
    → map to_lower a ≡ map to_lower b
    → id_of accounts a ≡ id_of accounts b
unfolding id_of
id_of-same [] a b e = refl
id_of-same ((id, info) ∷ accounts) a b e =
    ap₂ (λ test rest. if test then id else rest) (string_equal_i-same info.name a b e)
      (id_of-same accounts a b e)

id_of-found :
    (accounts : List (ℕ × DiscordAccountInfo)) (name : List ℕ) (id : ℕ)
    → IsMap accounts
    → id_of accounts name ≡ id
    → id ≢ 0
    → (info : DiscordAccountInfo) × (find accounts id ≡ some info)
      × (map to_lower info.name ≡ map to_lower name)
unfolding id_of find
id_of-found [] name id unique h some_id = absurd (some_id (sym h))
id_of-found ((k, info) ∷ accounts) name id (lacks, unique) h some_id =
    elim (Bool-cases (string_equal_i info.name name)) [
      | inl same ↦
          let here : k ≡ id = rw (id_of, same) at h in
          let e : (k == id) ≡ true = ground arith in
          (info, rw (find, e) refl, equal_of-string_equal_i info.name name same)
      | inr other ↦
          let rest : id_of accounts name ≡ id = rw (id_of, other) at h in
          let (found, there, named) = id_of-found accounts name id unique rest some_id in
          elim (Bool-cases (k == id)) [
            | inl e ↦
                let gone : find accounts id ≡ none =
                  find-Lacks accounts id (subst (λ x. Lacks x accounts) (ground arith) lacks) in
                let wrong : some found ≡ none = sym there ∙ gone in cc
            | inr e ↦ (found, rw (find, e) there, named)
          ]
    ]

-- An identifier that `GetID` gives for a name is that of an account of the store with this name,
-- up to case, and every spelling of the name has the same.
pub get_id-found :
    (m : AccountMgr) (name spelling : List ℕ)
    → IsMap m.accounts
    → get_id m name ≢ 0
    → map to_lower spelling ≡ map to_lower name
    → (get_id m spelling ≡ get_id m name)
      × ((info : DiscordAccountInfo) × (get_account_info m (get_id m name) ≡ some info)
          × (map to_lower info.name ≡ map to_lower name))
unfolding get_id get_account_info
get_id-found m name spelling unique some_id same = (
  id_of-same m.accounts spelling name same,
  id_of-found m.accounts name (id_of m.accounts name) unique refl some_id,
)

-- Once the database gives a new account its identifier, every spelling of its name has this
-- identifier, and every other name what it had.
pub account_checked-get_id :
    (m : AccountMgr) (name other : List ℕ) (guild_id id : ℕ) (realm_name : List ℕ)
    → id ≢ 0
    → get_account_info m id ≡ none
    → get_id (account_checked m (name, guild_id, realm_name) id) other
      ≡ (if string_equal_i name other then id else get_id m other)
unfolding get_id account_checked add_account_info id_of
account_checked-get_id m name other guild_id id realm_name some_id fresh =
    let e : (id == 0) ≡ false = ground arith in
    rw (account_checked, e) (rw (add_account_info, fresh) refl)
