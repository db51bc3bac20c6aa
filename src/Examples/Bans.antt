-- ===== src/Examples/Bans.antt =====
-- Runs of src/server/Account/BanMgr.cpp.
use warhead_discord.Prelude.{
  if◌then◌else◌, ◌||◌, same_text, ℕ, map, ◌≡◌, refl, true, false, List, [], ◌∷◌, some, arith,
}
use warhead_discord.Bans.{
  BanMgr, ban_info, ban_ip, get_ban_info_ip, KnownSession, banned, insert_ip_ban,
}
use warhead_discord.Bans.Addresses.{ban_ip-banned, timed_ban-is_over}

abbrev an_address : List ℕ
an_address = 49 ∷ 46 ∷ 49 ∷ []

abbrev no_bans : BanMgr
no_bans = record {
  store_ip = [];
  sessions = record { account_id = 7; address = an_address; kicked = false } ∷ [];
  statements = [];
}

abbrev banned_for : ℕ → BanMgr
banned_for duration = record {
  store_ip = (an_address, ban_info 1700000000 duration 0) ∷ [];
  sessions = record { account_id = 7; address = an_address; kicked = true } ∷ [];
  statements = insert_ip_ban an_address duration [] ∷ [];
}

a_ban :
    (duration : ℕ)
    → ban_ip 1700000000 no_bans an_address duration [] ≡ (banned, banned_for duration)
unfolding ban_ip ban_info
a_ban duration = refl

ban_ip-banned_example :
    ((other : List ℕ)
      → get_ban_info_ip (banned_for 60) other ≡ (
          if same_text an_address other
          then some (record { duration = 60; ban_date = 1700000000; unban_date = 60 })
          else get_ban_info_ip no_bans other))
    × ((banned_for 60).sessions
        ≡ map {A = KnownSession}
            (λ s. record s { kicked = s.kicked || same_text s.address an_address })
            no_bans.sessions)
ban_ip-banned_example = ban_ip-banned 1700000000 no_bans (banned_for 60) an_address 60 [] (a_ban 60)

timed_ban-is_over_example : (ban_ip 1700000000 (banned_for 60) an_address 60 []).0 ≡ banned
timed_ban-is_over_example =
    timed_ban-is_over 1700000000 no_bans (banned_for 60) an_address 60 [] (a_ban 60) (omega arith)
      (omega arith) (omega arith)
