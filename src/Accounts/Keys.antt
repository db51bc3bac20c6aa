-- ===== src/Accounts/Keys.antt =====
-- The key of an account, from `CreateAccount` and `ChangeKey` to the check of a login.
use warhead_discord.Prelude.{
  ℕ, ◌≡◌, ◌≢◌, refl, true, List, [], ◌∷◌, ◌++◌, arith, ◌==◌, if◌then◌else◌, length, map,
  same_text_refl,
}
use warhead_discord.Srp6.{Crypto, calculate_verifier, check_login, make_registration_data}
use warhead_discord.DiscordSocket.Login.{AccountRow, account_info, to_upper, check_key}
use warhead_discord.Accounts.{
  AccountMgr, AccountResponceResult, created, AccountStatement, insert_account, update_logon,
  default_realm_name, get_id, create_account, change_key,
}

-- Utf8ToUpperOnlyLatin of a text makes the Latin letters large: making the ASCII letters large
-- before it, or behind it, changes nothing.
abbrev pub IsUpperCased : Crypto → List ℕ → Type 0
IsUpperCased crypto s =
    (crypto.utf8_to_upper_only_latin (map to_upper s) ≡ crypto.utf8_to_upper_only_latin s)
    × (map to_upper (crypto.utf8_to_upper_only_latin s) ≡ crypto.utf8_to_upper_only_latin s)

-- A row as the database keeps it for an account that was made with the name and the key.
abbrev pub HasKey : Crypto → AccountRow → List ℕ → List ℕ → Type 0
HasKey crypto row name key =
    row.verifier
    ≡ calculate_verifier crypto (crypto.utf8_to_upper_only_latin name)
        (crypto.utf8_to_upper_only_latin key) row.salt

check_key-HasKey :
    (crypto : Crypto) (now : ℕ) (row : AccountRow) (name key : List ℕ)
    → IsUpperCased crypto name
    → IsUpperCased crypto key
    → HasKey crypto row name key
    → check_key crypto (account_info now row) name key ≡ true
unfolding check_key check_login account_info
check_key-HasKey crypto now row name key upper_name upper_key has =
    rw (upper_name.0, upper_key.1, has)
      (same_text_refl (
        calculate_verifier crypto (crypto.utf8_to_upper_only_latin name)
          (crypto.utf8_to_upper_only_latin key) row.salt))

-- The row of an account behind a statement.
abbrev pub stored : AccountStatement → AccountRow → AccountRow
stored (insert_account name salt verifier guild_id realm_name) row = record row {
  salt = salt;
  verifier = verifier;
  guild_id = guild_id;
  realm_name = realm_name;
}
stored (update_logon salt verifier id) row = record row { salt = salt; verifier = verifier }

module _ (crypto : Crypto) (utf8length : List ℕ → ℕ) where
  -- What `CreateAccount` leaves where nothing forbids it.
  abbrev registered : List ℕ → List ℕ → List ℕ → List ℕ
  registered salt name key =
      calculate_verifier crypto (crypto.utf8_to_upper_only_latin name)
        (crypto.utf8_to_upper_only_latin key) salt

  abbrev realm_of : List ℕ → List ℕ
  realm_of realm_name = if length realm_name == 0 then default_realm_name else realm_name

  create_account_lem :
      (salt : List ℕ) (m m' : AccountMgr) (name key : List ℕ) (guild_id : ℕ) (realm_name : List ℕ)
      → create_account crypto utf8length salt m name key guild_id realm_name ≡ (created, m')
      → m'.statements
        ≡ m.statements
          ++ insert_account
              (crypto.utf8_to_upper_only_latin name)
              salt
              (registered salt name key)
              guild_id
              (realm_of realm_name)
            ∷ []
  unfolding create_account make_registration_data
  create_account_lem salt m m' name key guild_id realm_name h = ground (arith, h)

  -- An account that is created logs in with the name and the key that it was created with: the
  -- creation executes one statement, and the row that it writes passes the check of the key. Both
  -- texts are such that Utf8ToUpperOnlyLatin makes their Latin letters large.
  pub create_account-check_key :
      (now : ℕ) (row : AccountRow) (salt : List ℕ) (m m' : AccountMgr) (name key : List ℕ)
      (guild_id : ℕ) (realm_name : List ℕ)
      → IsUpperCased crypto name
      → IsUpperCased crypto key
      → create_account crypto utf8length salt m name key guild_id realm_name ≡ (created, m')
      → (statement : AccountStatement) × (m'.statements ≡ m.statements ++ statement ∷ [])
        × (check_key crypto (account_info now (stored statement row)) name key ≡ true)
  create_account-check_key now row salt m m' name key guild_id realm_name un uk h = (
    insert_account (crypto.utf8_to_upper_only_latin name) salt (registered salt name key) guild_id
        (realm_of realm_name),
    create_account_lem salt m m' name key guild_id realm_name h,
    check_key-HasKey crypto now _ name key un uk refl,
  )

  change_key_lem :
      (salt : List ℕ) (m m' : AccountMgr) (name key : List ℕ)
      → change_key crypto utf8length salt m name key ≡ (created, m')
      → m'.statements
        ≡ m.statements
          ++ update_logon salt
              (registered salt name key)
              (get_id m (crypto.utf8_to_upper_only_latin name))
            ∷ []
  unfolding change_key make_registration_data
  change_key_lem salt m m' name key h = ground (arith, h)

  -- After a change of the key the account logs in with the new key: the change executes one
  -- statement, on the identifier of the name, and a row that it is written to passes the check of
  -- the key. Both texts are such that Utf8ToUpperOnlyLatin makes their Latin letters large.
  pub change_key-check_key :
      (now : ℕ) (row : AccountRow) (salt : List ℕ) (m m' : AccountMgr) (name key : List ℕ)
      → IsUpperCased crypto name
      → IsUpperCased crypto key
      → change_key crypto utf8length salt m name key ≡ (created, m')
      → (verifier : List ℕ) × (m'.statements
          ≡ m.statements
            ++ update_logon salt verifier (get_id m (crypto.utf8_to_upper_only_latin name)) ∷ [])
        × (check_key crypto
              (account_info now (record row { salt = salt; verifier = verifier }))
              name
              key
            ≡ true)
  change_key-check_key now row salt m m' name key un uk h = (
    registered salt name key,
    change_key_lem salt m m' name key h,
    check_key-HasKey crypto now _ name key un uk refl,
  )

  -- A creation that is refused changes nothing and executes no statement.
  pub create_account-refused :
      (salt : List ℕ) (m m' : AccountMgr) (name key : List ℕ) (guild_id : ℕ) (realm_name : List ℕ)
      (result : AccountResponceResult)
      → create_account crypto utf8length salt m name key guild_id realm_name ≡ (result, m')
      → result ≢ created
      → m' ≡ m
  unfolding create_account
  create_account-refused salt m m' name key guild_id realm_name result h refused = ground (arith, h)
