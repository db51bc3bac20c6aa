-- ===== src/DiscordSocket/Login.antt =====
-- src/server/Server/DiscordSocket.cpp: the callbacks that end the connect and the login of a client:
-- CheckIpCallback, HandleAuthSessionCallback, and the two that it hands to the bot. What the
-- database and the bot answer are arguments. A time is a number of seconds.
pub mod Outcome
pub mod Gate
use warhead_discord.Prelude.{
  ℕ, ◌∷◌, ◌-◌, Bool, true, false, not, ◌&&◌, ◌||◌, List, [], ◌++◌, Option, none, some, map, ok,
  Result, ◌>>=◌, ltb, leb, ◌==◌, if◌then◌else◌, length,
}
use warhead_discord.ByteBuffer.{new_buffer, append_value}
use warhead_discord.Opcodes.{
  AuthResponseCode, ok_code, incorrect_key, unknown_account, banned_account, banned_ip,
  banned_permanently_account, banned_permanently_ip, server_offline, bot_not_found,
  channels_not_found, channels_incorrect, code_value, server_send_auth_response,
}
use warhead_discord.Srp6.{Crypto, check_login}
use warhead_discord.DiscordSocket.{
  Session, AuthSession, Peer, Connection, async_read, delayed_close_socket, send_packet,
}
use warhead_discord.DiscordSocket.Sending.{send_auth_response_error}

-- A row of the account query. The two dates may be NULL.
pub record AccountRow : Type 0 where
  pub id : ℕ
  pub salt : List ℕ
  pub verifier : List ℕ
  pub guild_id : ℕ
  pub realm_name : List ℕ
  pub last_ip : List ℕ
  pub core_name : List ℕ
  pub module_version : ℕ
  pub ban_date : Option ℕ
  pub unban_date : Option ℕ

pub record AccountInfo : Type 0 where
  pub row : AccountRow
  pub ban_date : ℕ
  pub unban_date : ℕ
  pub is_banned : Bool
  pub is_permanently_banned : Bool

-- A date stays 0 where the row has none.
abbrev pub date_of : Option ℕ → ℕ
date_of none = 0
date_of (some date) = date

-- The constructor, at the game time `now`.
unfoldable pub account_info : ℕ → AccountRow → AccountInfo
account_info now row = record {
  row = row;
  ban_date = date_of row.ban_date;
  unban_date = date_of row.unban_date;
  is_banned = ltb 0 (date_of row.unban_date) && ltb (date_of row.unban_date) now;
  is_permanently_banned =
      ltb 0 (date_of row.ban_date) && date_of row.ban_date == date_of row.unban_date;
}

-- `::toupper` in the C locale.
unfoldable pub to_upper : ℕ → ℕ
to_upper c = if leb b'a' c && leb c b'z' then c - 32 else c

-- What the callbacks ask of other parts: `sBanMgr->AddAccount` of a permanent ban, with its date; of
-- a ban of the given end less the given time, with its date; `sDiscordBot`'s two checks of a
-- guild; `sDiscord->AddSession`.
pub data Call : Type 0 where
  add_permanent_ban : List ℕ → ℕ → Call
  add_timed_ban : List ℕ → ℕ → ℕ → ℕ → Call
  check_bot_in_guild check_channels : ℕ → Call
  add_session : Session → Call

-- What the login waits for.
pub data Stage : Type 0 where
  finished : Stage
  bot_asked channels_asked : AuthSession → AccountInfo → Stage

-- The connection, the calls that were made, and what is waited for.
abbrev pub Step : Type 0
Step = Connection × List Call × Stage

unfoldable pub refuse : Connection → AuthResponseCode → Result Connection
refuse c code = do
  told ← send_auth_response_error c.peer code
  ok (record c { peer = delayed_close_socket told })

-- A row of the query for bans of the address: whether it is banned, and whether permanently. The
-- first row with a ban decides.
unfoldable pub check_ip_callback : List (Bool × Bool) → Connection → Result (Bool × Connection)
check_ip_callback [] c = async_read c
check_ip_callback ((is_banned, is_permanently_banned) ∷ rows) c =
    let rest = check_ip_callback rows c in
    if is_permanently_banned
    then (do c' ← refuse c banned_permanently_ip; ok (false, c'))
    else if is_banned
    then (do c' ← refuse c banned_ip; ok (false, c'))
    else rest

-- `DiscordChannelType::MaxType`.
abbrev pub default_channels_count : ℕ
default_channels_count = 7

-- `DiscordSession::SendAuthResponse` on this socket, by which `Discord::AddSession` ends.
unfoldable pub send_auth_response : Peer → AuthResponseCode → Result Peer
send_auth_response p code = do
  body ← append_value 1 new_buffer (code_value code)
  ok (send_packet p (record { opcode = server_send_auth_response; payload = body.storage }))

-- The new DiscordSession.
abbrev pub new_session : AuthSession → AccountInfo → List ℕ → Session
new_session auth account channels = record {
  account_id = account.row.id;
  guild_id = account.row.guild_id;
  account_name = auth.account;
  channels = channels;
  latency = 0;
  recv_queue = [];
}

-- The callback of `CheckChannels`.
unfoldable pub on_channels : AuthSession → AccountInfo → List ℕ → Connection → Result Step
on_channels auth account channels c =
    if length channels == 0
    then (do c' ← refuse c channels_not_found; ok (c', [], finished))
    else if not (length channels == default_channels_count)
    then (do c' ← refuse c channels_incorrect; ok (c', [], finished))
    else do
      let session = new_session auth account channels
      told ← send_auth_response (record c.peer { authed = true; session = some session }) ok_code
      (reading, c') ← async_read (record c { peer = told })
      ok (c', add_session session ∷ [], finished)

-- The callback of `CheckBotInGuild`.
unfoldable pub on_bot_in_guild : AuthSession → AccountInfo → Bool → Connection → Result Step
on_bot_in_guild auth account is_exist c =
    if is_exist
    then ok (c, check_channels account.row.guild_id ∷ [], channels_asked auth account)
    else do c' ← refuse c bot_not_found; ok (c', [], finished)

module _ (crypto : Crypto) where
  -- `AccountInfo::CheckKey`.
  unfoldable pub check_key : AccountInfo → List ℕ → List ℕ → Bool
  unfolding to_upper check_login
  check_key account account_name key =
      check_login crypto (crypto.utf8_to_upper_only_latin (map to_upper account_name))
        (map to_upper (crypto.utf8_to_upper_only_latin key)) account.row.salt account.row.verifier

  -- `is_closed` is `sDiscord->IsClosed()`.
  unfoldable pub handle_auth_session_callback :
      Bool → ℕ → AuthSession → Option AccountRow → Connection → Result Step
  handle_auth_session_callback is_closed now auth none c = do
    c' ← refuse c unknown_account
    ok (c', [], finished)
  handle_auth_session_callback is_closed now auth (some row) c =
      let account = account_info now row in
      if account.is_permanently_banned
      then (do
        c' ← refuse c banned_permanently_account
        ok (c', add_permanent_ban auth.account account.ban_date ∷ [], finished))
      else if account.is_banned
      then (do
        c' ← refuse c banned_account
        ok (c', add_timed_ban auth.account account.unban_date now account.ban_date ∷ [], finished))
      else if is_closed
      then (do c' ← refuse c server_offline; ok (c', [], finished))
      else if not (check_key account auth.account auth.key)
      then (do c' ← refuse c incorrect_key; ok (c', [], finished))
      else ok (c, check_bot_in_guild account.row.guild_id ∷ [], bot_asked auth account)

  -- The callback that the login waits for, with what the bot answers.
  unfoldable pub continue_login : Bool → List ℕ → Step → Result Step
  continue_login in_guild channels (c, calls, finished) = ok (c, calls, finished)
  continue_login in_guild channels (c, calls, bot_asked auth account) = do
    (c', more, stage) ← on_bot_in_guild auth account in_guild c
    ok (c', calls ++ more, stage)
  continue_login in_guild channels (c, calls, channels_asked auth account) = do
    (c', more, stage) ← on_channels auth account channels c
    ok (c', calls ++ more, stage)

  -- The three callbacks of one login, one after the other.
  unfoldable pub log_in :
      Bool → ℕ → AuthSession → Option AccountRow → Bool → List ℕ → Connection → Result Step
  log_in is_closed now auth row in_guild channels c =
      handle_auth_session_callback is_closed now auth row c
      >>= continue_login in_guild channels
      >>= continue_login in_guild channels
