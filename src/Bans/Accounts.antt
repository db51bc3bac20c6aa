-- ===== src/Bans/Accounts.antt =====
-- src/server/Account/BanMgr.cpp: the bans of accounts, in a store of their own. The account manager
-- gives the identifiers of names; the rest is as for addresses.
use warhead_discord.Prelude.{
  ℕ, ◌≡◌, ◌≢◌, ◌⊎◌, ◌||◌, refl, sym, ap, ◌∙◌, true, false, inl, inr, Bool-cases, List, [], ◌∷◌,
  ◌++◌, Option, none, some, map, arith, ◌==◌, if◌then◌else◌, length, same_text_refl,
}
use warhead_discord.Accounts.{AccountMgr, get_id}
use warhead_discord.Bans.{
  BanInfo, ban_info, BanResponceCode, banned, error, not_found, exist, KnownSession, find_ban,
  ban_info-now, erase_ban, is_running,
}

pub data AccountBanStatement : Type 0 where
  delete_ban_account : ℕ → AccountBanStatement
  insert_account_ban : ℕ → ℕ → List ℕ → AccountBanStatement

-- `_storeAccount` is a list with one entry for each name.
pub record AccountBans : Type 0 where
  pub store_account : List (List ℕ × BanInfo)
  pub sessions : List KnownSession
  pub statements : List AccountBanStatement

unfoldable pub get_ban_info_account : AccountBans → List ℕ → Option BanInfo
unfolding find_ban
get_ban_info_account m name = find_ban m.store_account name

unfoldable pub add_account : AccountBans → List ℕ → BanInfo → AccountBans
unfolding erase_ban
add_account m name b = record m { store_account = (name, b) ∷ erase_ban m.store_account name }

unfoldable pub delete_account : AccountMgr → AccountBans → List ℕ → AccountBans
unfolding get_ban_info_account erase_ban get_id
delete_account accounts m name = elim (get_ban_info_account m name) [
  | none ↦ m
  | some b ↦ if get_id accounts name == 0 then m else record m {
    statements = m.statements ++ delete_ban_account (get_id accounts name) ∷ [];
    store_account = erase_ban m.store_account name;
  }
]

abbrev pub kick_account : ℕ → KnownSession → KnownSession
kick_account id s = if s.account_id == id then record s { kicked = true } else s

unfoldable pub ban_account :
    ℕ → AccountMgr → AccountBans → List ℕ → ℕ → List ℕ → BanResponceCode × AccountBans
unfolding is_running get_ban_info_account delete_account add_account ban_info get_id
ban_account now accounts m name duration reason =
    if length name == 0
    then (error, m)
    else if get_id accounts name == 0
    then (not_found, m)
    else if is_running now (get_ban_info_account m name)
    then (exist, m)
    else (let m1 = delete_account accounts m name in
        let m2 = record m1 {
          statements =
              m1.statements ++ insert_account_ban (get_id accounts name) duration reason ∷ [];
          sessions = map (kick_account (get_id accounts name)) m1.sessions;
        } in
        (banned, add_account m2 name (ban_info now duration 0)))

get_ban_info_account-add_account :
    (m : AccountBans) (name : List ℕ) (b : BanInfo)
    → get_ban_info_account (add_account m name b) name ≡ some b
unfolding get_ban_info_account add_account find_ban
get_ban_info_account-add_account m name b = rw (same_text_refl name)

add_account-sessions :
    (m : AccountBans) (name : List ℕ) (b : BanInfo) → (add_account m name b).sessions ≡ m.sessions
unfolding add_account
add_account-sessions m name b = refl

delete_account-sessions :
    (accounts : AccountMgr) (m : AccountBans) (name : List ℕ)
    → (delete_account accounts m name).sessions ≡ m.sessions
unfolding delete_account
delete_account-sessions accounts m name = ground arith

-- Kicked are the sessions that were, and those of the account.
map-kick_account :
    (id : ℕ) (sessions : List KnownSession)
    → map (kick_account id) sessions
      ≡ map {A = KnownSession} (λ s. record s { kicked = s.kicked || s.account_id == id }) sessions
map-kick_account id [] = refl
map-kick_account id (s ∷ sessions) = elim (Bool-cases (s.account_id == id)) [
  | inl e ↦ ground (arith, e, map-kick_account id sessions)
  | inr e ↦ ground (arith, e, map-kick_account id sessions)
]

abbrev before_add : AccountMgr → AccountBans → List ℕ → ℕ → List ℕ → AccountBans
before_add accounts m name duration reason = record (delete_account accounts m name) {
  statements =
      (delete_account accounts m name).statements
      ++ insert_account_ban (get_id accounts name) duration reason ∷ [];
  sessions = map (kick_account (get_id accounts name)) (delete_account accounts m name).sessions;
}

-- A ban of an account is answered by the first that applies: an error for no name, that there is
-- no such account, that a ban runs already, and else the ban. Nothing changes in the first three
-- cases. In the last the ban is found under the name that was given, with the duration, the time of
-- the call and, as its end, the duration; and a session is kicked if it was before or if it is one
-- of the account, and is else as it was.
pub ban_account_lem :
    (now : ℕ) (accounts : AccountMgr) (m : AccountBans) (name : List ℕ) (duration : ℕ)
    (reason : List ℕ) (code : BanResponceCode) (m' : AccountBans)
    → ban_account now accounts m name duration reason ≡ (code, m')
    → ((m' ≡ m)
        × ((code ≡ error) × (length name ≡ 0)
            ⊎ ((code ≡ not_found) × (length name ≢ 0) × (get_id accounts name ≡ 0)
                ⊎ (code ≡ exist)
                  × (length name ≢ 0)
                  × (get_id accounts name ≢ 0)
                  × (is_running now (get_ban_info_account m name) ≡ true))))
      ⊎ ((code ≡ banned)
          × (length name ≢ 0)
          × (get_id accounts name ≢ 0)
          × (is_running now (get_ban_info_account m name) ≡ false)
          × (get_ban_info_account m' name
              ≡ some (record { duration = duration; ban_date = now; unban_date = duration }))
          × (m'.sessions
              ≡ map {A = KnownSession}
                  (λ s. record s { kicked = s.kicked || s.account_id == get_id accounts name })
                  m.sessions))
unfolding ban_account
ban_account_lem now accounts m name duration reason code m' h =
    elim (Bool-cases (length name == 0)) [
      | inl nobody ↦
          let e : ◌≡◌ {A = BanResponceCode × AccountBans} (error, m) (code, m') =
            simp nobody at h in
          inl (sym (ap (λ r. r.1) e), inl (sym (ap (λ r. r.0) e), ground arith))
      | inr named ↦ elim (Bool-cases (get_id accounts name == 0)) [
        | inl missing ↦
            let e : ◌≡◌ {A = BanResponceCode × AccountBans} (not_found, m) (code, m') =
              simp (named, missing) at h in
            inl (
              sym (ap (λ r. r.1) e),
              inr (inl (sym (ap (λ r. r.0) e), λ n. ground arith, ground arith)),
            )
        | inr there ↦ elim (Bool-cases (is_running now (get_ban_info_account m name))) [
          | inl runs ↦
              let e : ◌≡◌ {A = BanResponceCode × AccountBans} (exist, m) (code, m') =
                simp (named, there, runs) at h in
              inl (
                sym (ap (λ r. r.1) e),
                inr (inr (sym (ap (λ r. r.0) e), λ n. ground arith, λ n. ground arith, runs)),
              )
          | inr over ↦
              let b = ban_info now duration 0 in
              let m2 = before_add accounts m name duration reason in
              let e : ◌≡◌ {A = BanResponceCode × AccountBans} (banned, add_account m2 name b)
                  (code, m') =
                simp (named, there, over) at h in
              let same : m' ≡ add_account m2 name b = sym (ap (λ r. r.1) e) in
              inr (
                sym (ap (λ r. r.0) e),
                λ n. ground arith,
                λ n. ground arith,
                over,
                ap (λ x. get_ban_info_account x name) same
                    ∙ get_ban_info_account-add_account m2 name b
                    ∙ ap some (ban_info-now now duration),
                ap (λ x. x.sessions) same
                    ∙ add_account-sessions m2 name b
                    ∙ ap (map (kick_account (get_id accounts name)))
                        (delete_account-sessions accounts m name)
                    ∙ map-kick_account (get_id accounts name) m.sessions,
              )
        ]
      ]
    ]
