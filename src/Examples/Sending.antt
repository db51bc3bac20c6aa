-- ===== src/Examples/Sending.antt =====
-- Runs of the sending side of src/server/Server/DiscordSocket.cpp and src/shared/Network/Socket.h.
use warhead_discord.Prelude.{
  ℕ, min, ◌∙◌, replicate, length-replicate, ◌≡◌, refl, true, false, List, [], ◌∷◌, ◌++◌, ok, arith,
  length,
}
use warhead_discord.MessageBuffer.{MessageBuffer}
use warhead_discord.DiscordSocket.{Packet}
use warhead_discord.MessageBuffer.Laws.{IsValid}
use warhead_discord.DiscordSocket.Sending.{update_queue}
use warhead_discord.DiscordSocket.WriteQueue.{WriteResult, wrote, Outgoing, socket_update}
use warhead_discord.DiscordSocket.WriteQueue.Conservation.{
  AreValid, IsStream, Conserves, socket_update-Conserves,
}
use warhead_discord.DiscordSocket.WriteQueue.Drain.{
  AreFull, take_all_bytes, closed_if_closing, socket_update-drains,
}
use warhead_discord.MessageBuffer.{active_size}
use warhead_discord.DiscordSocket.Sending.Wire.{wire, wire_frame, sent, length-wire_frame}
use warhead_discord.DiscordSocket.Sending.Flush.{AreShort, update_queue_lem, update_queue-repeats}
use warhead_discord.Examples.Shared.{a_busy_client, a_client, a_full_buffer, two_packets}

two_packets-AreShort : AreShort two_packets
two_packets-AreShort = (omega arith, (omega arith, tt))

update_queue_lem_example :
    (after : List MessageBuffer) × (update_queue 65536 a_busy_client [] ≡ ok (a_client, after))
    × (wire after ≡ [] ++ sent 65536 [] two_packets)
update_queue_lem_example =
    update_queue_lem 65536 a_busy_client [] (omega arith) two_packets-AreShort

abbrev a_long_message : Packet
a_long_message = record { opcode = 3; payload = replicate 65000 1 }

abbrev two_long_messages : List Packet
two_long_messages = a_long_message ∷ a_long_message ∷ []

long_frame : length (wire_frame a_long_message) ≡ 65006
long_frame = length-wire_frame a_long_message ∙ omega (arith, length-replicate {A = ℕ} 65000 1)

two_long_messages-AreShort : AreShort two_long_messages
two_long_messages-AreShort =
    let size = length-replicate {A = ℕ} 65000 1 in (omega (arith, size), (omega (arith, size), tt))

update_queue-repeats_example :
    (after : List MessageBuffer) × (update_queue 65536
        (record a_client { buffer_queue = two_long_messages })
        []
      ≡ ok (a_client, after))
    × (wire after
        ≡ []
          ++ (wire_frame a_long_message
              ++ (wire_frame a_long_message ++ wire_frame a_long_message)))
update_queue-repeats_example =
    update_queue-repeats 65536 (record a_client { buffer_queue = two_long_messages }) []
      a_long_message a_long_message refl (omega arith) two_long_messages-AreShort
      (omega (arith, long_frame)) (omega (arith, long_frame))

abbrev a_closing_sender : Outgoing
a_closing_sender = record {
  peer = record a_client { closing = true };
  is_writing_async = false;
  write_queue = a_full_buffer ∷ a_full_buffer ∷ [];
  write_calls = 0;
  wire_bytes = [];
}

a_closing_sender-AreValid : AreValid a_closing_sender.write_queue
a_closing_sender-AreValid =
    let v : IsValid a_full_buffer = record {
      ordered = omega arith;
      inside = omega arith;
      fits = omega arith;
    } in
    (v, (v, tt))

a_closing_sender-AreFull : AreFull a_closing_sender.write_queue
unfolding active_size
a_closing_sender-AreFull = (omega arith, (omega arith, tt))

abbrev two_bytes_each : ℕ → ℕ → WriteResult
two_bytes_each call size = wrote (min size 2)

two_bytes_each-IsStream : IsStream two_bytes_each
two_bytes_each-IsStream call size = (omega arith, λ e. omega arith)

socket_update-Conserves_example :
    Conserves a_closing_sender (socket_update two_bytes_each a_closing_sender).1
socket_update-Conserves_example =
    socket_update-Conserves two_bytes_each two_bytes_each-IsStream a_closing_sender
      a_closing_sender-AreValid

socket_update-drains_example :
    (o' : Outgoing) × (socket_update take_all_bytes a_closing_sender ≡ (true, o'))
    × (o'.write_queue ≡ [])
    × (o'.wire_bytes ≡ [] ++ wire (a_full_buffer ∷ a_full_buffer ∷ []))
    × (o'.peer ≡ closed_if_closing a_closing_sender.peer)
socket_update-drains_example =
    socket_update-drains a_closing_sender refl refl (omega arith) a_closing_sender-AreFull
      a_closing_sender-AreValid
