-- ===== src/DiscordSocket/Reading/Chunks.antt =====
-- Reads that come one after the other: how the bytes of a connection are cut into reads does not
-- matter.
use warhead_discord.Prelude.{
  ℕ, ◌≤◌, ◌≡◌, refl, sym, ap, ◌∙◌, Bool, true, false, List, [], ◌∷◌, ◌++◌, ok, Result, ◌>>=◌,
  length, append_assoc,
}
use warhead_discord.MessageBuffer.{read_block_size}
use warhead_discord.DiscordSocket.{Connection}
use warhead_discord.DiscordSocket.Reading.{receive_all}
use warhead_discord.DiscordSocket.Reading.Machine.{
  Phase, Run, running, closed_run, waiting, crashed, consume, consume-append, consume_closed,
  consume_crashed, consume_waiting,
}
use warhead_discord.DiscordSocket.Reading.OneRead.{
  IsReady, Outcome, Outcome-along, read_handler_internal-Outcome,
}

-- The bytes of all reads, one behind the other.
abbrev pub joined : List (List ℕ) → List ℕ
joined [] = []
joined (chunk ∷ chunks) = chunk ++ joined chunks

-- A read brings a block at most.
abbrev pub FitBlocks : List (List ℕ) → Type 0
FitBlocks [] = Unit {0}
FitBlocks (chunk ∷ chunks) = (length chunk ≤ read_block_size) × FitBlocks chunks

module _ (is_valid : List ℕ → Bool) (clock : ℕ → ℕ) where
  not_reading :
      (chunks : List (List ℕ)) (c : Connection)
      → receive_all is_valid clock chunks (false, c) ≡ ok (false, c)
  unfolding receive_all
  not_reading [] c = refl
  not_reading (chunk ∷ chunks) c = refl

  abbrev GoesOn : List (List ℕ) → Type 0
  GoesOn chunks =
      (phase : Phase) (c : Connection)
      → IsReady phase c
      → Outcome (consume is_valid clock (running phase c.peer) (joined chunks))
          (receive_all is_valid clock chunks (true, c))

  more_chunks :
      (chunks : List (List ℕ))
      → GoesOn chunks
      → (r : Run) (x : Result (Bool × Connection)) → Outcome r x
      → Outcome (consume is_valid clock r (joined chunks)) (x >>= receive_all is_valid clock chunks)
  more_chunks chunks ih (running phase p) x (c, e, ready, same) =
      Outcome-along (ap (λ q. consume is_valid clock (running phase q) (joined chunks)) (sym same))
        (ap (λ y. y >>= receive_all is_valid clock chunks) e) (ih phase c ready)
  more_chunks chunks ih (closed_run p) x (c, e, same) =
      Outcome-along {r = closed_run p} (consume_closed is_valid clock p (joined chunks))
        (ap (λ y. y >>= receive_all is_valid clock chunks) e ∙ not_reading chunks c) (c, refl, same)
  more_chunks chunks ih (waiting p rest) x (c, kept, later, e, i, same, split) =
      Outcome-along {r = waiting p (rest ++ joined chunks)}
        (consume_waiting is_valid clock p rest (joined chunks))
        (ap (λ y. y >>= receive_all is_valid clock chunks) e ∙ not_reading chunks c)
        (
          c,
          kept,
          later ++ joined chunks,
          refl,
          i,
          same,
          ap (λ ys. ys ++ joined chunks) split ∙ append_assoc kept later (joined chunks),
        )
  more_chunks chunks ih (crashed e') x e =
      Outcome-along {r = crashed e'} (consume_crashed is_valid clock e' (joined chunks))
        (ap (λ y. y >>= receive_all is_valid clock chunks) e) refl

  -- Refinement: after any sequence of reads, each of a block at most, a connection that was ready
  -- stands as the byte machine does after all their bytes: ready for more, closed, waiting for a
  -- login, or crashed, with the same peer.
  pub receive_all-Outcome :
      (chunks : List (List ℕ)) (phase : Phase) (c : Connection)
      → IsReady phase c
      → FitBlocks chunks
      → Outcome
          (consume is_valid clock (running phase c.peer) (joined chunks))
          (receive_all is_valid clock chunks (true, c))
  unfolding consume receive_all
  receive_all-Outcome [] phase c i fits = (c, refl, i, refl)
  receive_all-Outcome (chunk ∷ chunks) phase c i (fit, fits) =
      Outcome-along (consume-append is_valid clock (running phase c.peer) chunk (joined chunks))
        refl
        (more_chunks chunks (λ ph d j. receive_all-Outcome chunks ph d j fits) _ _
          (read_handler_internal-Outcome is_valid clock phase c chunk i fit))
