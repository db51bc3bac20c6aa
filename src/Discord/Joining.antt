-- ===== src/Discord/Joining.antt =====
-- From the login to the server's map of sessions: HandleAuthSessionCallback of
-- src/server/Server/DiscordSocket.cpp, and `AddSession` of src/server/Discord/Discord.cpp.
use warhead_discord.Prelude.{
  ℕ, size_mod, ◌*◌, ◌<◌, ◌≡◌, refl, Bool, true, false, List, none, some, ◌++◌, ◌∷◌, [], ok, arith,
  length, ◌==◌, if◌then◌else◌,
}
use warhead_discord.MessageBuffer.Laws.{IsValid, contents}
use warhead_discord.Srp6.{Crypto}
use warhead_discord.DiscordSocket.{Session, AuthSession, Peer, Connection, is_open}
use warhead_discord.DiscordSocket.Login.{
  AccountRow, account_info, new_session, finished, default_channels_count, log_in,
}
use warhead_discord.DiscordSocket.Login.Outcome.{refusal, asked, begun, log_in-accepted}
use warhead_discord.DiscordSession.{DiscordSession}
use warhead_discord.Discord.{Discord, add_session, find_session}
use warhead_discord.Discord.Released.{closed_socket}
use warhead_discord.Opcodes.{server_send_auth_response, code_value, ok_code}
use warhead_discord.Discord.Sound.{IsSound}
use warhead_discord.Discord.Members.{add_session-IsSound}

-- The session that the login hands to the server, on the socket of the client.
abbrev pub handed_over : Session → Peer → DiscordSession
handed_over state p = record {
  state = state;
  socket = some (record p { authed = true; session = some state });
  kicked = false;
}

module _ (crypto : Crypto) (is_closed : Bool) (now : ℕ) (auth : AuthSession) where
  all_channels :
      (row : AccountRow) (in_guild : Bool) (channels : List ℕ)
      → refusal crypto is_closed now auth (some row) in_guild channels ≡ none
      → length channels ≡ default_channels_count
  unfolding refusal
  all_channels row in_guild channels h = ground (arith, h)

  -- A login that passes every check puts the session of its account into a sound server, which
  -- stays sound: the session that the server then has for the account holds the very socket that
  -- the login leaves, the client is sent one answer, that the login is ok, behind what waited to be
  -- sent, the socket of an older session of the account is closed, and the sessions of the other
  -- accounts are as they were.
  pub log_in-add_session :
      (row : AccountRow) (in_guild : Bool) (channels : List ℕ) (c : Connection) (d : Discord)
      → is_open c.peer ≡ true
      → IsValid c.read_buffer
      → length c.read_buffer.storage * 3 < size_mod
      → refusal crypto is_closed now auth (some row) in_guild channels ≡ none
      → IsSound d
      → (c' : Connection) × (d' : Discord) × (log_in crypto is_closed now auth
            (some row)
            in_guild
            channels
            c
          ≡ ok (c', asked crypto is_closed now auth (some row) in_guild channels, finished))
        × (add_session d (handed_over (new_session auth (account_info now row) channels) c.peer)
            ≡ ok d')
        × (contents c'.read_buffer ≡ contents c.read_buffer)
        × (c'.peer.buffer_queue
            ≡ c.peer.buffer_queue
              ++ record { opcode = server_send_auth_response; payload = code_value ok_code ∷ [] }
                ∷ [])
        × (d'.released ≡ d.released ++ closed_socket (find_session d row.id))
        × IsSound d'
        × ((other : ℕ)
            → find_session d' other ≡ (
                if other == row.id
                then some
                    (record (handed_over
                      (new_session auth (account_info now row) channels)
                      c.peer) { socket = some c'.peer })
                else find_session d other))
  unfolding account_info is_open
  log_in-add_session row in_guild channels c d opened v small h sound =
      let state = new_session auth (account_info now row) channels in
      let p = record c.peer { authed = true; session = some state } in
      let (b, accepted, same) =
        log_in-accepted crypto is_closed now auth row in_guild channels c opened v small h in
      let (d', added, sound', others, freed) =
        add_session-IsSound d (handed_over state c.peer) p sound refl opened
          (all_channels row in_guild channels h) tt in
      (
        record c { peer = begun c.peer state; read_buffer = b },
        d',
        accepted,
        added,
        same,
        refl,
        freed,
        sound',
        others,
      )
