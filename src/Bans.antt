-- ===== src/Bans.antt =====
-- src/server/Account/BanMgr.cpp: the bans of addresses. A time is a number of seconds that is not
-- negative; `now` is what GameTime::GetGameTime gives during a call. `statements` are the statements
-- that are executed in the database, oldest first. (The bans of accounts use a store of their own.)
pub mod Addresses
pub mod Accounts
use warhead_discord.Prelude.{
  ℕ, ◌+◌, ◌≡◌, arith, Bool, true, false, not, ◌&&◌, ◌||◌, List, [], ◌∷◌, ◌++◌, Option, none, some,
  map, ltb, ◌==◌, if◌then◌else◌, length, same_text,
}

pub record BanInfo : Type 0 where
  pub duration : ℕ
  pub ban_date : ℕ
  pub unban_date : ℕ

-- The constructor. Its third initialiser reads the parameter, not the field.
unfoldable pub ban_info : ℕ → ℕ → ℕ → BanInfo
ban_info now duration ban_date = record {
  duration = duration;
  ban_date = if ban_date == 0 then now else ban_date;
  unban_date = ban_date + duration;
}

-- A ban that is made now: its end is its duration, since the parameter is 0.
pub ban_info-now :
    (now duration : ℕ)
    → ban_info now duration 0
      ≡ record { duration = duration; ban_date = now; unban_date = duration }
unfolding ban_info
ban_info-now now duration = ground arith

unfoldable pub is_permanently : BanInfo → Bool
is_permanently b = (b.duration == 0) || (b.ban_date == b.unban_date)

-- `banned` is the source's `Ok`.
pub data BanResponceCode : Type 0 where
  banned error not_found exist : BanResponceCode

pub data Statement : Type 0 where
  delete_ban_ip : List ℕ → Statement
  insert_ip_ban : List ℕ → ℕ → List ℕ → Statement

-- A session of `sDiscord->GetAllSessions()`, and whether it was kicked.
pub record KnownSession : Type 0 where
  pub account_id : ℕ
  pub address : List ℕ
  pub kicked : Bool

-- `_storeIp` is a list with one entry for each address.
pub record BanMgr : Type 0 where
  pub store_ip : List (List ℕ × BanInfo)
  pub sessions : List KnownSession
  pub statements : List Statement

unfoldable pub find_ban : List (List ℕ × BanInfo) → List ℕ → Option BanInfo
unfolding same_text
find_ban [] ip = none
find_ban ((key, b) ∷ store) ip =
    let rest = find_ban store ip in if same_text key ip then some b else rest

unfoldable pub erase_ban : List (List ℕ × BanInfo) → List ℕ → List (List ℕ × BanInfo)
unfolding same_text
erase_ban [] ip = []
erase_ban ((key, b) ∷ store) ip =
    let rest = erase_ban store ip in if same_text key ip then rest else (key, b) ∷ rest

unfoldable pub get_ban_info_ip : BanMgr → List ℕ → Option BanInfo
unfolding find_ban
get_ban_info_ip m ip = find_ban m.store_ip ip

unfoldable pub add_ip : BanMgr → List ℕ → BanInfo → BanMgr
unfolding erase_ban
add_ip m ip b = record m { store_ip = (ip, b) ∷ erase_ban m.store_ip ip }

unfoldable pub delete_ip : BanMgr → List ℕ → BanMgr
unfolding get_ban_info_ip erase_ban
delete_ip m ip = elim (get_ban_info_ip m ip) [
  | none ↦ m
  | some b ↦ record m {
    statements = m.statements ++ delete_ban_ip ip ∷ [];
    store_ip = erase_ban m.store_ip ip;
  }
]

abbrev pub kick_from : List ℕ → KnownSession → KnownSession
kick_from ip s = if same_text s.address ip then record s { kicked = true } else s

-- A ban that the next `BanIp` of the same address takes for one that still runs.
unfoldable pub is_running : ℕ → Option BanInfo → Bool
unfolding is_permanently
is_running now none = false
is_running now (some b) = is_permanently b || ltb now b.unban_date

unfoldable pub ban_ip : ℕ → BanMgr → List ℕ → ℕ → List ℕ → BanResponceCode × BanMgr
unfolding is_running get_ban_info_ip delete_ip add_ip ban_info
ban_ip now m ip duration reason =
    if length ip == 0
    then (error, m)
    else if is_running now (get_ban_info_ip m ip)
    then (exist, m)
    else (let m1 = delete_ip m ip in
        let m2 = record m1 {
          statements = m1.statements ++ insert_ip_ban ip duration reason ∷ [];
          sessions = map (kick_from ip) m1.sessions;
        } in
        (banned, add_ip m2 ip (ban_info now duration 0)))
