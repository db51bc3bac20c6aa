-- ===== src/DiscordSocket/Login/Outcome.antt =====
-- How a login ends, whatever the database and the bot answer.
use warhead_discord.Prelude.{
  ℕ, size_mod, ◌*◌, to_le, ◌≡◌, refl, ◌∙◌, ◌<◌, Bool, true, false, not, ◌||◌, List, [], ◌∷◌, ◌++◌,
  Option, none, some, ok, ◌==◌, if◌then◌else◌, length, arith,
}
use warhead_discord.MessageBuffer.{MessageBuffer, ensure_free_space}
use warhead_discord.MessageBuffer.Laws.{
  IsValid, contents, normalize_lem, contents-ensure_free_space,
}
use warhead_discord.ByteBuffer.{append_value, new_buffer}
use warhead_discord.Opcodes.{
  AuthResponseCode, ok_code, incorrect_key, unknown_account, banned_account,
  banned_permanently_account, server_offline, bot_not_found, channels_not_found, channels_incorrect,
  code_value, server_send_auth_response,
}
use warhead_discord.Srp6.{Crypto}
use warhead_discord.DiscordSocket.{
  Packet, Session, AuthSession, Peer, Connection, async_read, is_open, delayed_close_socket,
  send_packet,
}
use warhead_discord.DiscordSocket.Sending.{send_auth_response_error}
use warhead_discord.DiscordSocket.Login.{
  AccountRow, AccountInfo, account_info, Call, add_permanent_ban, add_timed_ban, check_bot_in_guild,
  check_channels, add_session, finished, refuse, send_auth_response, check_key, new_session,
  default_channels_count, log_in, handle_auth_session_callback, continue_login, on_channels,
  on_bot_in_guild,
}

abbrev pub response : AuthResponseCode → Packet
response code = record { opcode = server_send_auth_response; payload = code_value code ∷ [] }

-- A client that is told why, and to be closed when that is sent.
abbrev pub told_off : Connection → AuthResponseCode → Connection
told_off c code = record c {
  peer = record c.peer { closing = true; buffer_queue = c.peer.buffer_queue ++ response code ∷ [] };
}

-- The peer of a client that is logged in now, and told so.
abbrev pub begun : Peer → Session → Peer
begun p session = record p {
  authed = true;
  session = some session;
  buffer_queue = p.buffer_queue ++ response ok_code ∷ [];
}

append_code :
    (code : AuthResponseCode)
    → append_value 1 new_buffer (code_value code)
      ≡ ok (record { rpos = 0; wpos = 1; storage = code_value code ∷ [] })
unfolding append_value to_le
append_code ok_code = refl
append_code code = refl

pub refuse_lem :
    (c : Connection) (code : AuthResponseCode)
    → is_open c.peer ≡ true
    → refuse c code ≡ ok (told_off c code)
unfolding refuse send_auth_response_error send_packet delayed_close_socket
refuse_lem c code opened = rw (append_code code, opened)

pub send_auth_response_lem :
    (p : Peer) (code : AuthResponseCode)
    → is_open p ≡ true
    → send_auth_response p code
      ≡ ok (record p { buffer_queue = p.buffer_queue ++ response code ∷ [] })
unfolding send_auth_response send_packet
send_auth_response_lem p code opened = rw (append_code code, opened)

pub async_read_lem :
    (c : Connection)
    → is_open c.peer ≡ true
    → IsValid c.read_buffer
    → length c.read_buffer.storage * 3 < size_mod
    → (b : MessageBuffer) × (async_read c ≡ ok (true, record c { read_buffer = b }))
      × (contents b ≡ contents c.read_buffer)
unfolding async_read
async_read_lem c opened v small =
    let (b, front, valid, same, size, _) = normalize_lem v in
    let bound : length b.storage * 3 < size_mod = omega (arith, size, small) in
    (ensure_free_space b, rw (opened, front), contents-ensure_free_space valid bound ∙ same)

module _ (crypto : Crypto) (is_closed : Bool) (now : ℕ) (auth : AuthSession) where
  -- Why a login is refused, if it is: the first of the checks that fails.
  unfoldable pub refusal : Option AccountRow → Bool → List ℕ → Option AuthResponseCode
  refusal none in_guild channels = some unknown_account
  refusal (some row) in_guild channels =
      if (account_info now row).is_permanently_banned
      then some banned_permanently_account
      else if (account_info now row).is_banned
      then some banned_account
      else if is_closed
      then some server_offline
      else if not (check_key crypto (account_info now row) auth.account auth.key)
      then some incorrect_key
      else if not in_guild
      then some bot_not_found
      else if length channels == 0
      then some channels_not_found
      else if not (length channels == default_channels_count)
      then some channels_incorrect
      else none

  -- What a login asks of the bans, the bot and the sessions, in this order.
  unfoldable pub asked : Option AccountRow → Bool → List ℕ → List Call
  asked none in_guild channels = []
  asked (some row) in_guild channels =
      let account = account_info now row in
      if account.is_permanently_banned
      then add_permanent_ban auth.account account.ban_date ∷ []
      else if account.is_banned
      then add_timed_ban auth.account account.unban_date now account.ban_date ∷ []
      else if is_closed || not (check_key crypto account auth.account auth.key)
      then []
      else if not in_guild
      then check_bot_in_guild account.row.guild_id ∷ []
      else if length channels == 0 || not (length channels == default_channels_count)
      then check_bot_in_guild account.row.guild_id ∷ check_channels account.row.guild_id ∷ []
      else check_bot_in_guild account.row.guild_id
        ∷ check_channels account.row.guild_id
        ∷ add_session (new_session auth account channels)
        ∷ []

  refused_row :
      (row : AccountRow) (in_guild : Bool) (channels : List ℕ) (c : Connection)
      (code : AuthResponseCode)
      → is_open c.peer ≡ true
      → refusal (some row) in_guild channels ≡ some code
      → log_in crypto is_closed now auth (some row) in_guild channels c
        ≡ ok (told_off c code, asked (some row) in_guild channels, finished)
  unfolding refusal asked log_in handle_auth_session_callback continue_login on_bot_in_guild
      on_channels
  refused_row row in_guild channels c code opened h = ground (
    arith,
    refuse_lem c banned_permanently_account opened,
    refuse_lem c banned_account opened,
    refuse_lem c server_offline opened,
    refuse_lem c incorrect_key opened,
    refuse_lem c bot_not_found opened,
    refuse_lem c channels_not_found opened,
    refuse_lem c channels_incorrect opened,
  )

  -- A login that any check forbids begins no session: the client is told the first reason, and is
  -- to be closed; the bot, the bans and the sessions are all that else was asked.
  pub log_in-refused :
      (row : Option AccountRow) (in_guild : Bool) (channels : List ℕ) (c : Connection)
      (code : AuthResponseCode)
      → is_open c.peer ≡ true
      → refusal row in_guild channels ≡ some code
      → log_in crypto is_closed now auth row in_guild channels c
        ≡ ok (told_off c code, asked row in_guild channels, finished)
  unfolding refusal asked log_in handle_auth_session_callback continue_login
  log_in-refused none in_guild channels c code opened h =
      ground (arith, refuse_lem c unknown_account opened)
  log_in-refused (some row) in_guild channels c code opened h =
      refused_row row in_guild channels c code opened h

  opened_session :
      (account : AccountInfo) (channels : List ℕ) (c : Connection)
      → is_open c.peer ≡ true
      → IsValid c.read_buffer
      → length c.read_buffer.storage * 3 < size_mod
      → (length channels == 0) ≡ false
      → (length channels == default_channels_count) ≡ true
      → (b : MessageBuffer) × (on_channels auth account channels c
          ≡ ok (
            record c { peer = begun c.peer (new_session auth account channels); read_buffer = b },
            add_session (new_session auth account channels) ∷ [],
            finished,
          ))
        × (contents b ≡ contents c.read_buffer)
  unfolding on_channels is_open
  opened_session account channels c opened v small some_channels all =
      let p = record c.peer { authed = true; session = some (new_session auth account channels) } in
      let told = send_auth_response_lem p ok_code opened in
      let (b, reads, same) =
        async_read_lem (record c { peer = begun c.peer (new_session auth account channels) }) opened
          v small in
      (b, rw (some_channels, all, told, reads), same)

  -- A login that passes every check begins the session of the account: the client is told so, the
  -- session is handed to the server, and the bytes that wait in the read buffer are kept for it.
  pub log_in-accepted :
      (row : AccountRow) (in_guild : Bool) (channels : List ℕ) (c : Connection)
      → is_open c.peer ≡ true
      → IsValid c.read_buffer
      → length c.read_buffer.storage * 3 < size_mod
      → refusal (some row) in_guild channels ≡ none
      → (b : MessageBuffer) × (log_in crypto is_closed now auth (some row) in_guild channels c
          ≡ ok (
            record c {
              peer = begun c.peer (new_session auth (account_info now row) channels);
              read_buffer = b;
            },
            asked (some row) in_guild channels,
            finished,
          ))
        × (contents b ≡ contents c.read_buffer)
  unfolding refusal asked log_in handle_auth_session_callback continue_login on_bot_in_guild
  log_in-accepted row in_guild channels c opened v small h =
      let some_channels : (length channels == 0) ≡ false = ground (arith, h) in
      let all : (length channels == default_channels_count) ≡ true = ground (arith, h) in
      let (b, begins, same) =
        opened_session (account_info now row) channels c opened v small some_channels all in
      (b, ground (arith, begins, h), same)
