-- ===== src/Daemon/Watch/Complete.antt =====
-- A watch of a request that has ended sends all of its output, once and in order.
use shudo.Prelude.{◌≡◌, Bool, true, false, some, List, [], ◌∷◌, ◌++◌, Bytes, ok}
use mathlib.Core.List.{map}
use shudo.State.Tables.{Codec, Tables, ChunkRow, OutputChunk, StoredRequest}
use shudo.State.Requests.{get_from}
use shudo.Daemon.Watch.{LocalEvent, output_event, finished_event, StateEvent, WatchRound, Watched}

-- The request has ended, and all of its output is stored in order.
pub record Settled (c : Codec) (id : Bytes) (item : StoredRequest) (rows : List ChunkRow)
    (t : Tables) : Type 0 where
  pub stored : get_from c t id ≡ ok (some item)
  pub output : t.output_chunks ≡ rows

-- Other calls leave the request and its output as they are, and the stream takes every event.
pub record IsQuiet (c : Codec) (id : Bytes) (item : StoredRequest) (rows : List ChunkRow)
    (r : WatchRound) : Type 0 where
  pub takes : (event : LocalEvent) → r.accepts event ≡ true
  pub still_output :
      (t : Tables) → Settled c id item rows t → Settled c id item rows (r.before_output t)
  pub still_state :
      (t : Tables) → Settled c id item rows t → Settled c id item rows (r.before_state t)

abbrev is_finished : LocalEvent → Bool
is_finished (output_event k) = false
is_finished (finished_event e) = true

-- What a complete watch sent: the chunks, and that the request has ended.
pub record IsComplete (item : StoredRequest) (chunks : List OutputChunk) (w : Watched)
    : Type 0 where
  pub answered : w.answer ≡ some (ok tt)
  pub last : StateEvent
  pub events : w.events ≡ map output_event chunks ++ finished_event last ∷ []
  pub status : last.status ≡ item.status
