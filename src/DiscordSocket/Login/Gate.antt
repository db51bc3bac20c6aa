-- ===== src/DiscordSocket/Login/Gate.antt =====
-- Who gets past the bans: an address when it connects, and an account when it logs in.
use warhead_discord.Prelude.{
  ℕ, ◌<◌, ◌≡◌, refl, ◌≢◌, ltb, if◌then◌else◌, ◌∙◌, Bool-cases, inl, inr, Bool, true, false, List,
  [], ◌∷◌, Option, none, some, ok, arith,
}
use warhead_discord.Opcodes.{AuthResponseCode, banned_account, banned_ip, banned_permanently_ip}
use warhead_discord.DiscordSocket.{AuthSession, Connection, async_read, is_open}
use warhead_discord.DiscordSocket.Login.{
  AccountRow, account_info, add_timed_ban, finished, log_in, handle_auth_session_callback,
  continue_login, on_bot_in_guild, on_channels, check_key, check_ip_callback,
}
use warhead_discord.Srp6.{Crypto}
use warhead_discord.DiscordSocket.Login.Outcome.{told_off, refuse_lem}

-- The first row with a ban, and the answer that it gives.
abbrev pub first_ban : List (Bool × Bool) → Option AuthResponseCode
first_ban [] = none
first_ban ((banned, true) ∷ rows) = some banned_permanently_ip
first_ban ((true, false) ∷ rows) = some banned_ip
first_ban ((false, false) ∷ rows) = first_ban rows

-- Whoever connects is read from if no row bans the address; else nothing is read, and the client is
-- told of the first ban and to be closed.
pub check_ip_callback_lem :
    (rows : List (Bool × Bool)) (c : Connection)
    → is_open c.peer ≡ true
    → check_ip_callback rows c
      ≡ elim (first_ban rows) [ none ↦ async_read c | some code ↦ ok (false, told_off c code) ]
unfolding check_ip_callback
check_ip_callback_lem [] c opened = refl
check_ip_callback_lem ((banned, true) ∷ rows) c opened =
    rw (refuse_lem c banned_permanently_ip opened)
check_ip_callback_lem ((true, false) ∷ rows) c opened = rw (refuse_lem c banned_ip opened)
check_ip_callback_lem ((false, false) ∷ rows) c opened = check_ip_callback_lem rows c opened

-- The row of the account as it is without a ban.
abbrev pub without_ban : AccountRow → AccountRow
without_ban row = record row { ban_date = none; unban_date = none }

module _ (crypto : Crypto) (is_closed : Bool) (now : ℕ) (auth : AuthSession) where
  not_banned :
      (row : AccountRow) (in_guild : Bool) (channels : List ℕ) (c : Connection)
      → (account_info now row).is_permanently_banned ≡ false
      → (account_info now row).is_banned ≡ false
      → log_in crypto is_closed now auth (some row) in_guild channels c
        ≡ log_in crypto is_closed now auth (some (without_ban row)) in_guild channels c
  unfolding log_in handle_auth_session_callback continue_login on_bot_in_guild on_channels
      account_info check_key
  not_banned row in_guild channels c for_ever for_now =
      let keys = check_key crypto (account_info now row) auth.account auth.key in
      elim (Bool-cases is_closed) [
        | inl shut ↦ rw (for_ever, for_now, shut) refl
        | inr up ↦ elim (Bool-cases keys) [
          | inl right ↦ elim (Bool-cases in_guild) [
            | inl there ↦ rw (for_ever, for_now, up, right, there) refl
            | inr missing ↦ rw (for_ever, for_now, up, right, missing) refl
          ]
          | inr wrong ↦ rw (for_ever, for_now, up, wrong) refl
        ]
      ]

  is_enforced :
      (start end : ℕ) (row : AccountRow) (in_guild : Bool) (channels : List ℕ) (c : Connection)
      → is_open c.peer ≡ true
      → (account_info now row).is_permanently_banned ≡ false
      → (account_info now row).is_banned ≡ true
      → (account_info now row).ban_date ≡ start
      → (account_info now row).unban_date ≡ end
      → log_in crypto is_closed now auth (some row) in_guild channels c
        ≡ ok (told_off c banned_account, add_timed_ban auth.account end now start ∷ [], finished)
  unfolding log_in handle_auth_session_callback continue_login
  is_enforced start end row in_guild channels c opened for_ever for_now e f =
      rw (for_ever, for_now, refuse_lem c banned_account opened, e, f) refl

  timed :
      (row : AccountRow) (start end : ℕ)
      → row.ban_date ≡ some start
      → row.unban_date ≡ some end
      → start ≢ end
      → 0 < end
      → ((account_info now row).is_permanently_banned ≡ false)
        × ((account_info now row).is_banned ≡ ltb end now)
        × ((account_info now row).ban_date ≡ start)
        × ((account_info now row).unban_date ≡ end)
  unfolding account_info
  timed row start end e f differ some_end = (ground arith, ground arith, ground arith, ground arith)

  -- On an open connection, an account whose ban has an end that is not its start is told that it is
  -- banned, and is to be closed, if that end is past; and while the ban runs its login goes as if
  -- the account had no ban.
  pub log_in-without_ban :
      (start end : ℕ) (row : AccountRow) (in_guild : Bool) (channels : List ℕ) (c : Connection)
      → is_open c.peer ≡ true
      → row.ban_date ≡ some start
      → row.unban_date ≡ some end
      → start ≢ end
      → 0 < end
      → log_in crypto is_closed now auth (some row) in_guild channels c ≡ (
          if ltb end now
          then ok
              (told_off c banned_account, add_timed_ban auth.account end now start ∷ [], finished)
          else log_in crypto is_closed now auth (some (without_ban row)) in_guild channels c)
  log_in-without_ban start end row in_guild channels c opened e f differ some_end =
      let (for_ever, for_now, from, to) = timed row start end e f differ some_end in
      elim (Bool-cases (ltb end now)) [
        | inl past ↦
            rw past (
              is_enforced start end row in_guild channels c opened for_ever (for_now ∙ past) from
                to)
        | inr runs ↦ rw runs (not_banned row in_guild channels c for_ever (for_now ∙ runs))
      ]
