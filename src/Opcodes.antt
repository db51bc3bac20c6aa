-- ===== src/Opcodes.antt =====
-- src/shared/DiscordSharedDefines.h's opcodes and answers, and the table of handlers that
-- src/server/Server/Protocol/Opcodes.cpp fills at the start of the server.
use warhead_discord.Prelude.{
  ℕ, zero, suc, List, [], ◌∷◌, Option, none, some, ◌==◌, leb, if◌then◌else◌, replicate,
}
use warhead_discord.PacketHeader.{num_discord_code_handlers}

abbrev pub client_send_hello : ℕ
client_send_hello = 1

abbrev pub client_auth_session : ℕ
client_auth_session = 2

abbrev pub client_send_message : ℕ
client_send_message = 3

abbrev pub client_send_message_embed : ℕ
client_send_message_embed = 4

abbrev pub client_send_ping : ℕ
client_send_ping = 5

abbrev pub server_send_auth_response : ℕ
server_send_auth_response = 6

abbrev pub server_send_pong : ℕ
server_send_pong = 7

abbrev pub null_discord_code : ℕ
null_discord_code = 0

pub data AuthResponseCode : Type 0 where
  ok_code failed incorrect_key unknown_account banned_account banned_ip : AuthResponseCode
  banned_permanently_account banned_permanently_ip server_offline : AuthResponseCode
  bot_not_found channels_not_found channels_incorrect : AuthResponseCode

-- The value that goes over the wire.
abbrev pub code_value : AuthResponseCode → ℕ
code_value ok_code = 0
code_value failed = 1
code_value incorrect_key = 2
code_value unknown_account = 3
code_value banned_account = 4
code_value banned_ip = 5
code_value banned_permanently_account = 6
code_value banned_permanently_ip = 7
code_value server_offline = 8
code_value bot_not_found = 9
code_value channels_not_found = 10
code_value channels_incorrect = 11

-- The session's member functions that the table points to.
pub data Handler : Type 0 where
  handle_hello handle_send_message handle_send_message_embed : Handler
  handle_early_process handle_server_side : Handler

-- `_internalTableClient`: one slot for each opcode.
abbrev pub OpcodeTable : Type 0
OpcodeTable = List (Option Handler)

unfoldable pub handler_at : OpcodeTable → ℕ → Option Handler
handler_at [] opcode = none
handler_at (h ∷ table) zero = h
handler_at (h ∷ table) (suc opcode) = handler_at table opcode

unfoldable pub set_handler : OpcodeTable → ℕ → Handler → OpcodeTable
set_handler [] opcode handler = []
set_handler (h ∷ table) zero handler = some handler ∷ table
set_handler (h ∷ table) (suc opcode) handler = h ∷ set_handler table opcode handler

abbrev pub empty_table : OpcodeTable
empty_table = replicate num_discord_code_handlers none

-- ValidateAndSetClientOpcode and ValidateAndSetServerOpcode, which differ in the handler alone.
unfoldable pub validate_and_set : OpcodeTable → ℕ → Handler → OpcodeTable
unfolding handler_at set_handler
validate_and_set table opcode handler =
    if opcode == null_discord_code
    then table
    else if leb num_discord_code_handlers opcode
    then table
    else elim (handler_at table opcode) [
      | some old ↦ table
      | none ↦ set_handler table opcode handler
    ]

unfoldable pub initialize : OpcodeTable → OpcodeTable
unfolding validate_and_set
initialize table =
    let t1 = validate_and_set table client_send_hello handle_hello in
    let t2 = validate_and_set t1 client_auth_session handle_early_process in
    let t3 = validate_and_set t2 client_send_message handle_send_message in
    let t4 = validate_and_set t3 client_send_message_embed handle_send_message_embed in
    let t5 = validate_and_set t4 client_send_ping handle_early_process in
    let t6 = validate_and_set t5 server_send_auth_response handle_server_side in
    validate_and_set t6 server_send_pong handle_server_side

-- The table that the running server uses.
abbrev pub opcode_table : OpcodeTable
unfolding initialize
opcode_table = initialize empty_table
