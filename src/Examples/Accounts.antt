-- ===== src/Examples/Accounts.antt =====
-- Runs of src/server/Account: an account that is created, looked up and banned, and random keys.
use warhead_discord.Prelude.{
  ◌||◌, ℕ, ◌≡◌, ◌≢◌, ◌⊎◌, refl, true, false, List, [], ◌∷◌, ◌++◌, some, ok, err, aborted, arith,
  length, map, ◌==◌, if◌then◌else◌, max,
}
use warhead_discord.DiscordSocket.Login.{account_info, check_key, to_upper}
use warhead_discord.Accounts.{
  AccountMgr, DiscordAccountInfo, AccountStatement, created, get_id, to_lower, create_account,
  max_pass_str, get_random_key,
}
use warhead_discord.Accounts.Keys.{IsUpperCased, stored, create_account-check_key}
use warhead_discord.Accounts.Random.{IsInRange, AreKeyCharacters, ordered_key, get_random_key_lem}
use warhead_discord.Bans.{
  BanResponceCode, error, not_found, exist, banned, ban_info, is_running, KnownSession,
}
use warhead_discord.Bans.Accounts.{
  AccountBans, get_ban_info_account, ban_account, insert_account_ban, ban_account_lem,
}
use warhead_discord.Examples.Login.{any_crypto, an_account}

abbrev three : List ℕ → ℕ
three text = 3

abbrev no_accounts : AccountMgr
no_accounts = record { accounts = []; statements = []; lookups = [] }

abbrev one_created : AccountMgr
one_created = (create_account any_crypto three (1 ∷ []) no_accounts (65 ∷ []) (75 ∷ []) 9 []).1

upper_A : IsUpperCased any_crypto (65 ∷ [])
unfolding to_upper
upper_A = (refl, refl)

upper_K : IsUpperCased any_crypto (75 ∷ [])
unfolding to_upper
upper_K = (refl, refl)

the_creation :
    create_account any_crypto three (1 ∷ []) no_accounts (65 ∷ []) (75 ∷ []) 9 []
    ≡ (created, one_created)
unfolding create_account
the_creation = refl

create_account-check_key_example :
    (statement : AccountStatement) × (one_created.statements ≡ [] ++ statement ∷ [])
    × (check_key any_crypto
          (account_info 1700000000 (stored statement an_account))
          (65 ∷ [])
          (75 ∷ [])
        ≡ true)
create_account-check_key_example =
    create_account-check_key any_crypto three 1700000000 an_account (1 ∷ []) no_accounts one_created
      (65 ∷ []) (75 ∷ []) 9 [] upper_A upper_K the_creation

abbrev an_info : DiscordAccountInfo
an_info = record { id = 7; name = 65 ∷ 66 ∷ []; guild_id = 9; realm_name = [] }

abbrev one_account : AccountMgr
one_account = record no_accounts { accounts = (7, an_info) ∷ [] }

the_id : get_id one_account (97 ∷ 66 ∷ []) ≡ 7
unfolding get_id
the_id = refl

the_spelling : map to_lower (65 ∷ 98 ∷ []) ≡ map to_lower (97 ∷ 66 ∷ [])
unfolding to_lower
the_spelling = refl

abbrev a_name : List ℕ
a_name = 65 ∷ 66 ∷ []

abbrev a_guest_list : AccountBans
a_guest_list = record {
  store_account = [];
  sessions = record { account_id = 7; address = []; kicked = false } ∷ [];
  statements = [];
}

abbrev after_ban : AccountBans
after_ban = record {
  store_account = (65 ∷ 66 ∷ [], ban_info 1700000000 60 0) ∷ [];
  sessions = record { account_id = 7; address = []; kicked = true } ∷ [];
  statements = insert_account_ban 7 60 [] ∷ [];
}

the_ban : ban_account 1700000000 one_account a_guest_list a_name 60 [] ≡ (banned, after_ban)
unfolding ban_account
the_ban = refl

ban_account_lem_example :
    ((after_ban ≡ a_guest_list)
      × ((banned ≡ error) × (length a_name ≡ 0)
          ⊎ ((banned ≡ not_found) × (length a_name ≢ 0) × (get_id one_account a_name ≡ 0)
              ⊎ (banned ≡ exist)
                × (length a_name ≢ 0)
                × (get_id one_account a_name ≢ 0)
                × (is_running 1700000000 (get_ban_info_account a_guest_list a_name) ≡ true))))
    ⊎ ((◌≡◌ {A = BanResponceCode} banned banned)
        × (length a_name ≢ 0)
        × (get_id one_account a_name ≢ 0)
        × (is_running 1700000000 (get_ban_info_account a_guest_list a_name) ≡ false)
        × (get_ban_info_account after_ban a_name
            ≡ some (record { duration = 60; ban_date = 1700000000; unban_date = 60 }))
        × (after_ban.sessions
            ≡ map {A = KnownSession}
                (λ s. record s { kicked = s.kicked || s.account_id == get_id one_account a_name })
                a_guest_list.sessions))
ban_account_lem_example =
    ban_account_lem 1700000000 one_account a_guest_list a_name 60 [] banned after_ban the_ban

abbrev the_largest : ℕ → ℕ → ℕ
the_largest low high = max low high

the_largest-IsInRange : IsInRange the_largest
the_largest-IsInRange low high le = (omega arith, omega (arith, le))

abbrev in_order : List ℕ → List ℕ
in_order key = key

get_random_key_lem_example :
    (get_random_key the_largest (λ i. i) in_order ≡ (
      if the_largest 1 50 == 50
      then err aborted
      else ok (in_order (ordered_key the_largest (λ i. i)))))
    × AreKeyCharacters (ordered_key the_largest (λ i. i))
    × ((the_largest 1 50 ≡ 50) ⊎ (length (ordered_key the_largest (λ i. i)) ≡ max_pass_str))
get_random_key_lem_example = get_random_key_lem the_largest (λ i. i) in_order the_largest-IsInRange
