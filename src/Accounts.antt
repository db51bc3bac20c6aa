-- ===== src/Accounts.antt =====
-- src/server/Account/AccountMgr.cpp: the store of accounts. `statements` are the statements that are
-- executed in the database, oldest first, and `lookups` the accounts whose identifier the database
-- is asked for. The order of the unordered map is that of the list. `utf8length` and
-- Utf8ToUpperOnlyLatin are built on the utf8cpp library.
pub mod Keys
pub mod Names
pub mod Random
use warhead_discord.Prelude.{
  ℕ, suc, ◌+◌, ◌-◌, ◌%◌, Bool, true, false, not, zero, ◌&&◌, List, [], ◌∷◌, ◌++◌, Option, none,
  some, ok, err, Result, aborted, ◌>>=◌, ◌>>◌, require, ltb, leb, ◌==◌, if◌then◌else◌, length, map,
  find,
}
use warhead_discord.Srp6.{Crypto, make_registration_data}

pub record DiscordAccountInfo : Type 0 where
  pub id : ℕ
  pub name : List ℕ
  pub guild_id : ℕ
  pub realm_name : List ℕ

-- `created` is the source's `Ok`.
pub data AccountResponceResult : Type 0 where
  created long_name long_key name_already_exist name_not_exist : AccountResponceResult

-- The account's name, salt, verifier, guild and realm; the salt and verifier of an identifier.
pub data AccountStatement : Type 0 where
  insert_account : List ℕ → List ℕ → List ℕ → ℕ → List ℕ → AccountStatement
  update_logon : List ℕ → List ℕ → ℕ → AccountStatement

-- A new account whose identifier is still unknown: its name, guild and realm.
abbrev pub Lookup : Type 0
Lookup = List ℕ × ℕ × List ℕ

pub record AccountMgr : Type 0 where
  pub accounts : List (ℕ × DiscordAccountInfo)
  pub statements : List AccountStatement
  pub lookups : List Lookup

abbrev pub max_account_str : ℕ
max_account_str = 50

abbrev pub max_pass_str : ℕ
max_pass_str = 50

-- "WarheadCore".
abbrev pub default_realm_name : List ℕ
default_realm_name = 87 ∷ 97 ∷ 114 ∷ 104 ∷ 101 ∷ 97 ∷ 100 ∷ 67 ∷ 111 ∷ 114 ∷ 101 ∷ []

-- `std::tolower` in the C locale.
unfoldable pub to_lower : ℕ → ℕ
to_lower c = if leb b'A' c && leb c b'Z' then c + 32 else c

unfoldable pub string_equal_i : List ℕ → List ℕ → Bool
unfolding to_lower
string_equal_i [] [] = true
string_equal_i [] (d ∷ b) = false
string_equal_i (c ∷ a) [] = false
string_equal_i (c ∷ a) (d ∷ b) = (to_lower c == to_lower d) && string_equal_i a b

unfoldable pub get_account_info : AccountMgr → ℕ → Option DiscordAccountInfo
unfolding find
get_account_info m id = find m.accounts id

unfoldable pub add_account_info : AccountMgr → DiscordAccountInfo → AccountMgr
unfolding get_account_info
add_account_info m info = elim (get_account_info m info.id) [
  | some old ↦ m
  | none ↦ record m { accounts = (info.id, info) ∷ m.accounts }
]

-- The rows of the query of all accounts. Without a row the query has no result.
abbrev pub add_rows : AccountMgr → List DiscordAccountInfo → AccountMgr
add_rows m [] = m
add_rows m (row ∷ rows) = add_rows (add_account_info m row) rows

unfoldable pub initialize_accounts : AccountMgr → List DiscordAccountInfo → AccountMgr
unfolding add_account_info
initialize_accounts m rows = add_rows (record m { accounts = [] }) rows

-- The loop of `GetID`.
unfoldable pub id_of : List (ℕ × DiscordAccountInfo) → List ℕ → ℕ
unfolding string_equal_i
id_of [] account_name = 0
id_of ((id, info) ∷ accounts) account_name =
    let rest = id_of accounts account_name in
    if string_equal_i info.name account_name then id else rest

unfoldable pub get_id : AccountMgr → List ℕ → ℕ
unfolding id_of
get_id m account_name = id_of m.accounts account_name

unfoldable pub get_name : AccountMgr → ℕ → List ℕ
unfolding find
get_name m id = elim (find m.accounts id) [ none ↦ [] | some info ↦ info.name ]

unfoldable pub get_realm_name : AccountMgr → ℕ → List ℕ
unfolding find
get_realm_name m id = elim (find m.accounts id) [ none ↦ [] | some info ↦ info.realm_name ]

-- The callback of `CheckAccount`, with the identifier that the database gives, 0 for none.
unfoldable pub account_checked : AccountMgr → Lookup → ℕ → AccountMgr
unfolding add_account_info
account_checked m (username, guild_id, realm_name) account_id =
    if account_id == 0
    then m
    else add_account_info m
        (record { id = account_id; name = username; guild_id = guild_id; realm_name = realm_name })

module _ (crypto : Crypto) (utf8length : List ℕ → ℕ) where
  -- `salt` stands for the random bytes.
  unfoldable pub create_account :
      List ℕ → AccountMgr → List ℕ → List ℕ → ℕ → List ℕ → AccountResponceResult × AccountMgr
  unfolding get_id make_registration_data
  create_account salt m username key guild_id realm_name =
      if ltb max_account_str (utf8length username)
      then (long_name, m)
      else if ltb max_pass_str (utf8length key)
      then (long_key, m)
      else (let name = crypto.utf8_to_upper_only_latin username in
          let upper_key = crypto.utf8_to_upper_only_latin key in
          if not (get_id m name == 0)
          then (name_already_exist, m)
          else (let realm = if length realm_name == 0 then default_realm_name else realm_name in
              let (used_salt, verifier) = make_registration_data crypto salt name upper_key in
              (
                created,
                record m {
                  statements =
                      m.statements ++ insert_account name used_salt verifier guild_id realm ∷ [];
                  lookups = m.lookups ++ (name, guild_id, realm) ∷ [];
                },
              )))

  unfoldable pub change_key :
      List ℕ → AccountMgr → List ℕ → List ℕ → AccountResponceResult × AccountMgr
  unfolding get_id make_registration_data
  change_key salt m name new_password =
      let safe_user = crypto.utf8_to_upper_only_latin name in
      let upper_key = crypto.utf8_to_upper_only_latin new_password in
      if get_id m safe_user == 0
      then (name_not_exist, m)
      else if ltb max_pass_str (utf8length upper_key)
      then (long_key, m)
      else (let (used_salt, verifier) = make_registration_data crypto salt safe_user upper_key in
          (
            created,
            record m {
              statements =
                  m.statements ++ update_logon used_salt verifier (get_id m safe_user) ∷ [];
            },
          ))

-- Characters `key[i]` for `count` values of i from `i`: a draw modulo the size of the alphabet,
-- from its first character on. Draw `i` is for place `i`.
unfoldable pub draw : (ℕ → ℕ) → ℕ → ℕ → ℕ → ℕ → List ℕ
draw rand size first i zero = []
draw rand size first i (suc count) = (rand i % size + first) ∷ draw rand size first (i + 1) count

-- `urand` of Random.cpp, whose ASSERT ends the process; `pick` is uniform_int_distribution's.
unfoldable pub urand : (ℕ → ℕ → ℕ) → ℕ → ℕ → Result ℕ
urand pick min max = do require (leb min max) aborted; ok (pick min max)

-- `RandomShuffle` is Containers.h's over std::shuffle.
unfoldable pub get_random_key : (ℕ → ℕ → ℕ) → (ℕ → ℕ) → (List ℕ → List ℕ) → Result (List ℕ)
unfolding urand draw
get_random_key pick rand shuffle = do
  small_chars ← urand pick 1 max_pass_str
  big_chars ← urand pick 1 (max_pass_str - small_chars)
  let numbers = max_pass_str - small_chars - big_chars
  ok (
      shuffle (
        draw rand 10 48 0 numbers
        ++ (draw rand 26 65 numbers big_chars
            ++ draw rand 26 97 (numbers + big_chars) small_chars)))
