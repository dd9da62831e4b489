-- ===== src/Daemon/Execute/Captured.antt =====
-- What `execute` stores of the output of a command.
use shudo.Prelude.{ℕ, ◌≡◌, true, All, ◌+◌, List, [], ◌∷◌, Bytes}
use shudo.State.Tables.{Tables}
use shudo.State.Output.Counted.{IsCounted, append_output-IsCounted}
use shudo.Daemon.Execute.{RunEnv, Piece, drain}

-- However much the command writes: let every `UPDATE` that counts output succeed. Then, whatever else
-- fails and however full the disk is, if what is stored of the request's output is what its row counts
-- and within the limit before, so it is after the pieces of both pipes.
pub drain-IsCounted :
    (e : RunEnv) (id : Bytes) (sequence : ℕ) (pieces : List Piece) (t : Tables)
    → All (λ (p : Piece). p.io.updates ≡ true) pieces
    → IsCounted e.persisted_bytes id t
    → IsCounted e.persisted_bytes id (drain e id sequence pieces t)
unfolding drain
drain-IsCounted e id sequence [] t succeeds w = w
drain-IsCounted e id sequence (p ∷ pieces) t (succeeds, later) w =
    drain-IsCounted e id (sequence + 1) pieces _ later (
      append_output-IsCounted e.codec p.io e.persisted_bytes sequence id p.stream p.bytes t succeeds
        w)
