-- ===== src/Examples/Login.antt =====
-- Runs of the login in src/server/Server/DiscordSocket.cpp, with stand-ins for SHA-1, the modular
-- power and the upper case of UTF-8.
use warhead_discord.Prelude.{
  ltb, ◌++◌, if◌then◌else◌, ℕ, ◌+◌, ◌*◌, ◌%◌, ◌<◌, ◌≡◌, refl, Bool, true, false, List, [], ◌∷◌,
  none, some, ok, arith, replicate, same_text, to_le, of_le, length, size_mod, length-replicate,
  ◌==◌, if◌then◌else◌,
}
use warhead_discord.MessageBuffer.{MessageBuffer, sized, read_block_size}
use warhead_discord.MessageBuffer.Laws.{IsValid, contents}
use warhead_discord.Opcodes.{server_offline}
use warhead_discord.Srp6.{Crypto, calculate_verifier, check_login}
use warhead_discord.DiscordSocket.{AuthSession, Connection, new_peer}
use warhead_discord.DiscordSocket.Sending.Wire.{sized-Fills}
use warhead_discord.DiscordSocket.Login.{
  add_timed_ban, AccountRow, account_info, finished, check_key, log_in, new_session,
}
use warhead_discord.DiscordSocket.Login.Outcome.{
  told_off, begun, refusal, asked, log_in-refused, log_in-accepted,
}
use warhead_discord.DiscordSocket.Login.Gate.{without_ban, log_in-without_ban}
use warhead_discord.Discord.{Discord, new_discord, add_session, find_session}
use warhead_discord.Discord.Joining.{handed_over, log_in-add_session}
use warhead_discord.Discord.Released.{closed_socket}
use warhead_discord.Opcodes.{server_send_auth_response, banned_account, code_value, ok_code}
use warhead_discord.Discord.Sound.{IsSound}
use warhead_discord.Examples.Shared.{new_peer-is_open}

abbrev pub any_crypto : Crypto
any_crypto = record {
  sha1 = λ bytes. length bytes ∷ [];
  mod_exp = λ base exponent modulus. (base + exponent) % modulus;
  utf8_to_upper_only_latin = λ bytes. bytes;
}

abbrev a_login : AuthSession
a_login = record {
  account = 65 ∷ [];
  key = 75 ∷ [];
  core_name = [];
  core_version = [];
  module_version = 1;
}

abbrev pub an_account : AccountRow
an_account = record {
  id = 7;
  salt = 1 ∷ [];
  verifier = calculate_verifier any_crypto (65 ∷ []) (75 ∷ []) (1 ∷ []);
  guild_id = 9;
  realm_name = [];
  last_ip = [];
  core_name = [];
  module_version = 1;
  ban_date = none;
  unban_date = none;
}

abbrev a_connection : Connection
a_connection = record {
  peer = new_peer;
  read_buffer = sized read_block_size;
  header_buffer = sized 6;
  packet_buffer = sized 6;
}

a_connection-IsValid : IsValid a_connection.read_buffer
a_connection-IsValid = (sized-Fills read_block_size (omega arith)).valid

a_connection-is_small : length a_connection.read_buffer.storage * 3 < size_mod
a_connection-is_small = omega (arith, length-replicate {A = ℕ} read_block_size 0)

abbrev seven : List ℕ
seven = replicate 7 5

the_server-is_closed :
    refusal any_crypto true 1700000000 a_login (some an_account) true seven ≡ some server_offline
unfolding refusal account_info
the_server-is_closed = refl

log_in-refused_example :
    log_in any_crypto true 1700000000 a_login (some an_account) true seven a_connection
    ≡ ok (
      told_off a_connection server_offline,
      asked any_crypto true 1700000000 a_login (some an_account) true seven,
      finished,
    )
log_in-refused_example =
    log_in-refused any_crypto true 1700000000 a_login (some an_account) true seven a_connection
      server_offline new_peer-is_open the_server-is_closed

the_key-is_right : refusal any_crypto false 1700000000 a_login (some an_account) true seven ≡ none
unfolding refusal account_info check_key check_login calculate_verifier same_text to_le of_le
the_key-is_right = refl

log_in-accepted_example :
    (b : MessageBuffer) × (log_in any_crypto false 1700000000 a_login
        (some an_account)
        true
        seven
        a_connection
      ≡ ok (
        record a_connection {
          peer = begun new_peer (new_session a_login (account_info 1700000000 an_account) seven);
          read_buffer = b;
        },
        asked any_crypto false 1700000000 a_login (some an_account) true seven,
        finished,
      ))
    × (contents b ≡ contents a_connection.read_buffer)
log_in-accepted_example =
    log_in-accepted any_crypto false 1700000000 a_login an_account true seven a_connection
      new_peer-is_open a_connection-IsValid a_connection-is_small the_key-is_right

abbrev ban_rows : List (Bool × Bool)
ban_rows = (false, false) ∷ (true, false) ∷ []

abbrev a_banned_account : AccountRow
a_banned_account = record an_account { ban_date = some 1600000000; unban_date = some 1800000000 }

log_in-without_ban_example :
    log_in any_crypto false 1700000000 a_login (some a_banned_account) true seven a_connection ≡ (
      if ltb 1800000000 1700000000
      then ok (
        told_off a_connection banned_account,
        add_timed_ban (65 ∷ []) 1800000000 1700000000 1600000000 ∷ [],
        finished,
      )
      else log_in any_crypto false 1700000000 a_login
          (some (without_ban a_banned_account))
          true
          seven
          a_connection)
log_in-without_ban_example =
    log_in-without_ban any_crypto false 1700000000 a_login 1600000000 1800000000 a_banned_account
      true seven a_connection new_peer-is_open refl refl (omega arith) (omega arith)

nobody_yet-IsSound : IsSound (new_discord 100)
nobody_yet-IsSound = record { unique = tt; sound = tt; counted = omega arith }

log_in-add_session_example :
    (c' : Connection) × (d' : Discord) × (log_in any_crypto false 1700000000 a_login
        (some an_account)
        true
        seven
        a_connection
      ≡ ok (c', asked any_crypto false 1700000000 a_login (some an_account) true seven, finished))
    × (add_session
          (new_discord 100)
          (handed_over (new_session a_login (account_info 1700000000 an_account) seven) new_peer)
        ≡ ok d')
    × (contents c'.read_buffer ≡ contents a_connection.read_buffer)
    × (c'.peer.buffer_queue
        ≡ []
          ++ record { opcode = server_send_auth_response; payload = code_value ok_code ∷ [] } ∷ [])
    × (d'.released ≡ [] ++ closed_socket (find_session (new_discord 100) an_account.id))
    × IsSound d'
    × ((other : ℕ)
        → find_session d' other ≡ (
            if other == an_account.id
            then some
                (record (handed_over
                  (new_session a_login (account_info 1700000000 an_account) seven)
                  new_peer) { socket = some c'.peer })
            else find_session (new_discord 100) other))
log_in-add_session_example =
    log_in-add_session any_crypto false 1700000000 a_login an_account true seven a_connection
      (new_discord 100) new_peer-is_open a_connection-IsValid a_connection-is_small the_key-is_right
      nobody_yet-IsSound
