-- ===== src/DiscordSession/FromWire.antt =====
-- The whole way of a message: from the bytes on the wire, over the queue of the session, to what
-- is asked of the bot.
use warhead_discord.Prelude.{
  ℕ, ◌*◌, ◌≤◌, ◌≡◌, refl, Bool, true, List, [], ◌∷◌, ◌++◌, some, ok, arith, length, map, ap, false,
}
use warhead_discord.DiscordSocket.{Session, Peer, Connection, is_open}
use warhead_discord.DiscordSocket.Reading.{receive_all}
use warhead_discord.DiscordSocket.Reading.Machine.{in_header}
use warhead_discord.DiscordSocket.Reading.Chunks.{joined, FitBlocks}
use warhead_discord.DiscordSocket.Reading.OneRead.{IsReady}
use warhead_discord.DiscordSocket.Reading.Frames.{AreFrames, frames}
use warhead_discord.DiscordSocket.Reading.Delivery.{AreForSession, receive_all-session}
use warhead_discord.DiscordSession.{DiscordSession}
use warhead_discord.DiscordSession.Serving.{HasChannels}
use warhead_discord.DiscordSession.Draining.{update_many, with_queue}
use warhead_discord.DiscordSession.Posting.{
  Sent, plain, embed, packet_of, AreSendable, post_all, update_many-posts,
}

sent-AreForSession :
    (xs : List Sent) → AreFrames (map packet_of xs) → AreForSession (map packet_of xs)
sent-AreForSession [] tt = tt
sent-AreForSession (plain m ∷ xs) (f, fs) = (
  (λ e. absurd (omega (arith, e)), λ e. absurd (omega (arith, e)), omega arith, f),
  sent-AreForSession xs fs,
)
sent-AreForSession (embed m ∷ xs) (f, fs) = (
  (λ e. absurd (omega (arith, e)), λ e. absurd (omega (arith, e)), omega arith, f),
  sent-AreForSession xs fs,
)

-- The server's view of the session of a socket.
abbrev pub session_of : Session → Peer → DiscordSession
session_of s p = record { state = s; socket = some p; kicked = false }

module _ (is_valid : List ℕ → Bool) (clock : ℕ → ℕ) where
  -- On an open connection with a session whose queue is empty: if the reads, each of a block at
  -- most, bring the bytes of some messages and embeds, in whatever pieces, then enough updates of
  -- the session behind the queue ask the bot for one post for each of them, in the order of
  -- sending and for the channel of its kind (those of a kind without a channel are dropped), and
  -- leave the queue empty. A message is handed over as the client wrote it, and an embed is built
  -- by one call of the library for its color, its title, its description, each of its fields and
  -- its time, in this order, each with what the client wrote; what the bot, if it is enabled, and
  -- the library then make of it is not part of this. Each packet is within the size limit of a
  -- header, its fields within their ranges and its texts valid and without a zero byte.
  pub receive_all-posts :
      (rounds : ℕ) (xs : List Sent) (chunks : List (List ℕ)) (c : Connection) (s : Session)
      → AreSendable is_valid xs
      → AreFrames (map packet_of xs)
      → joined chunks ≡ frames (map packet_of xs)
      → FitBlocks chunks
      → IsReady (in_header []) c
      → c.peer.session ≡ some s
      → s.recv_queue ≡ []
      → HasChannels s
      → length xs ≤ rounds * 101
      → (c' : Connection) × (s' : Session) × (receive_all is_valid clock chunks (true, c)
          ≡ ok (true, c'))
        × (c'.peer.session ≡ some s')
        × (update_many is_valid rounds (session_of s' c'.peer)
            ≡ ok (post_all s.channels xs, with_queue is_valid (session_of s' c'.peer) []))
  unfolding is_open
  receive_all-posts rounds xs chunks c s sendable small bytes fits ready login idle channels
        enough =
      let (c', got, ready', there) =
        receive_all-session is_valid clock (map packet_of xs) chunks c s
          (sent-AreForSession xs small) bytes fits ready login in
      let s' : Session = record s { recv_queue = s.recv_queue ++ map packet_of xs } in
      let posts =
        update_many-posts is_valid rounds (session_of s' c'.peer) c'.peer xs refl ready'.open_socket
          channels sendable (ap (λ q. q ++ map packet_of xs) idle) enough in
      (c', s', got, ap (λ p. p.session) there, posts)
