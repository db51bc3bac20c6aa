-- ===== src/DiscordSocket/Handlers.antt =====
-- The handlers of one complete packet: `ReadDataHandler`, `HandlePing` and `HandleAuthSession`.
-- `is_valid` is `utf8::is_valid`, and `clock` gives the readings of `steady_clock::now()`.
pub mod Pings
pub mod Access
pub mod Total
use warhead_discord.Prelude.{
  ℕ, ◌+◌, ◌-◌, ◌*◌, ◌%◌, ◌^◌, Bool, true, false, not, ◌&&◌, List, [], ◌∷◌, ◌++◌, Option, none, some,
  ok, err, Result, position, invalid_value, aborted, fault, ◌>>=◌, ◌>>◌, ltb, ◌==◌, if◌then◌else◌,
  to_le,
}
use warhead_discord.ByteBuffer.{
  ByteBuffer, of_storage, new_buffer, read_value, read_string, append_value,
}
use warhead_discord.Opcodes.{
  handler_at, opcode_table, client_auth_session, client_send_ping, server_send_pong,
}
use warhead_discord.DiscordSocket.{Packet, Session, AuthSession, Peer, send_packet}

pub data ReadDataResult : Type 0 where
  handled refused waiting_for_query : ReadDataResult

-- Ten seconds, and the fast pings in a row that a client may send.
abbrev pub ten_seconds : ℕ
ten_seconds = 10 * 10 ^ 9

abbrev pub max_allowed : ℕ
max_allowed = 5

-- The two branches of the time check: the peer after it, and whether the client is kicked.
unfoldable pub check_ping_speed : ℕ → Peer → Bool × Peer
check_ping_speed now p =
    if p.last_ping_time == 0
    then (false, record p { last_ping_time = now })
    else if ltb (now - p.last_ping_time) ten_seconds
    then (let pings = (p.over_speed_pings + 1) % 2 ^ 32 in
        (
          not (max_allowed == 0)
              && ltb max_allowed pings
              && elim p.session [ some s ↦ true | none ↦ false ],
          record p { last_ping_time = now; over_speed_pings = pings },
        ))
    else (false, record p { last_ping_time = now; over_speed_pings = 0 })

-- What follows the time check: the latency goes to the session, and the pong to the client.
unfoldable pub answer_ping : ℕ → ℕ → Peer → Result (Bool × Peer)
answer_ping time_packet latency p = elim p.session [
  | none ↦ ok (false, p)
  | some s ↦ do
    pong ← append_value 8 new_buffer time_packet
    ok (
      true,
      send_packet (record p { session = some (record s { latency = latency }) })
          (record { opcode = server_send_pong; payload = pong.storage }),
    )
]

module _ (clock : ℕ → ℕ) where
  unfoldable pub handle_ping : Peer → ByteBuffer → Result (Bool × Peer)
  unfolding check_ping_speed answer_ping
  handle_ping p packet = do
    (time_packet, rest) ← read_value 8 packet
    (latency, tail) ← read_value 8 rest
    let (kicked, checked) =
        check_ping_speed (clock p.clock_reads) (record p { clock_reads = p.clock_reads + 1 })
    if kicked then ok (false, checked) else answer_ping time_packet latency checked

module _ (is_valid : List ℕ → Bool) where
  unfoldable pub read_auth_session : ByteBuffer → Result AuthSession
  read_auth_session packet = do
    (account, p1) ← read_string is_valid packet
    (key, p2) ← read_string is_valid p1
    (core_name, p3) ← read_string is_valid p2
    (core_version, p4) ← read_string is_valid p3
    (module_version, p5) ← read_value 4 p4
    ok (record {
      account = account;
      key = key;
      core_name = core_name;
      core_version = core_version;
      module_version = module_version;
    })

  -- Starts the lookup of the account.
  unfoldable pub handle_auth_session : Peer → ByteBuffer → Result Peer
  unfolding read_auth_session
  handle_auth_session p packet = do
    auth ← read_auth_session packet
    ok (record p { queries = p.queries ++ auth ∷ [] })

-- `catch (ByteBufferException const&)` around a handler: the connection is refused, and a failed
-- ASSERT or an undefined access is not caught.
unfoldable pub catch_buffer_exception :
    Peer → Result (ReadDataResult × Peer) → Result (ReadDataResult × Peer)
catch_buffer_exception p (ok r) = ok r
catch_buffer_exception p (err position) = ok (refused, p)
catch_buffer_exception p (err invalid_value) = ok (refused, p)
catch_buffer_exception p (err aborted) = err aborted
catch_buffer_exception p (err fault) = err fault

-- A second login packet is refused. The line that is logged reads the session, and nothing tests
-- that there is one; its lock is free, since a handler is a single step here.
unfoldable pub refuse_duplicate : Peer → Result (ReadDataResult × Peer)
refuse_duplicate p = elim p.session [ none ↦ err fault | some s ↦ ok (refused, p) ]

-- The packet of a logged-in client goes to its session.
unfoldable pub queue_packet : Peer → Packet → ReadDataResult × Peer
queue_packet p packet = elim p.session [
  | none ↦ (refused, p)
  | some s ↦ elim (handler_at opcode_table packet.opcode) [
    | none ↦ (refused, p)
    | some handler ↦ (
      handled,
      record p { session = some (record s { recv_queue = s.recv_queue ++ packet ∷ [] }) },
    )
  ]
]

abbrev pub ping_result : Bool × Peer → ReadDataResult × Peer
ping_result (true, p) = (handled, p)
ping_result (false, p) = (refused, p)

abbrev pub auth_result : Peer → ReadDataResult × Peer
auth_result p = (waiting_for_query, p)

module _ (is_valid : List ℕ → Bool) (clock : ℕ → ℕ) where
  -- `ReadDataHandler`, on the opcode of the header and the payload behind it.
  unfoldable pub handle_packet : Peer → Packet → Result (ReadDataResult × Peer)
  unfolding refuse_duplicate
  handle_packet p packet =
      if packet.opcode == client_send_ping
      then catch_buffer_exception p
          (do answered ← handle_ping clock p (of_storage packet.payload); ok (ping_result answered))
      else if packet.opcode == client_auth_session
      then (if p.authed
          then refuse_duplicate p
          else catch_buffer_exception p (do
            asked ← handle_auth_session is_valid p (of_storage packet.payload)
            ok (auth_result asked)))
      else ok (queue_packet p packet)
