-- ===== src/Worker.antt =====
-- The live log of a worker (macqueue/worker.py `Lease`): events are queued as lines of JSON and sent
-- to the server in chunks.
pub mod Batches
pub mod Delivery
pub mod Renewal
pub mod Handling
pub mod Events
pub mod Exclusive
pub mod Pruning
pub mod Pruned
mod Samples
use macqueue.Base.{
  ℕ, ◌+◌, suc, zero, String, Bool, true, false, not, ◌&&◌, ◌||◌, Option, none, some, List, [], ◌∷◌,
  ◌++◌, leb, ltb, if◌then◌else◌,
}
use macqueue.Base.Lists.{length}
use macqueue.Base.Text.{append, encoded_size}

-- `queue.Queue(maxsize=256)`
abbrev pub max_events : ℕ
max_events = 256

-- The part of a lease that the log touches: the queued lines, oldest first, the chunk that was not
-- yet accepted, and its number.
pub record Log : Type 0 where
  pub events : List String
  pub pending : Option String
  pub sequence : ℕ

-- The texts of an event and of the notice that replaces a large one are `json.dumps`'s: they are
-- arguments. A full queue drops the event.
abbrev pub preview : String → String → String
preview encoded large = if ltb 60000 (encoded_size encoded) then large else encoded

abbrev pub line : String → String
line text = append text "\n"

unfoldable pub event : String → String → Log → Log
event encoded large log =
    if ltb (length log.events) max_events
    then record log { events = log.events ++ line (preview encoded large) ∷ [] }
    else log

-- The chunk that the loop takes from the queue, with the lines that stay. Putting a line back moves
-- it behind the others.
pub record Batch : Type 0 where
  pub chunks : List String
  pub rest : List String

unfoldable pub collect : ℕ → List String → Batch
collect size [] = record { chunks = []; rest = [] }
collect size (item ∷ items) =
    let more = collect (size + encoded_size item) items in
    if not (ltb size 4096)
    then record { chunks = []; rest = item ∷ items }
    else if ltb 0 size && ltb 65536 (size + encoded_size item)
    then record { chunks = []; rest = items ++ item ∷ [] }
    else record { chunks = item ∷ more.chunks; rest = more.rest }

abbrev pub join : List String → String
join [] = ""
join (s ∷ ss) = append s (join ss)

abbrev pub pending_of : List String → Option String
pending_of [] = none
pending_of (s ∷ ss) = some (join (s ∷ ss))

unfoldable pub take_batch : Option String → Log → Log
take_batch none log =
    let batch = collect 0 log.events in
    record log { events = batch.rest; pending = pending_of batch.chunks }
take_batch (some text) log = log

-- What the delivery of a chunk came to: no reply or an error keeps it for the next round.
abbrev pub delivered : Bool → Log → Log
delivered true log = record log { pending = none; sequence = suc log.sequence }
delivered false log = log

-- The part of a round that posts a chunk, with the number and the text of the request if one is made.
-- `accepts` stands for the server: whether it accepts that request.
unfoldable pub send : Bool → Bool → Option String → Log → Log × Option (ℕ × String)
send accepts cancelled none log = (log, none)
send accepts true (some text) log = (log, none)
send accepts false (some text) log = (delivered accepts log, some (log.sequence, text))

-- One round of the loop, up to its wait.
unfoldable pub round : Bool → Bool → Log → Log × Option (ℕ × String)
round accepts cancelled log =
    let log' = take_batch log.pending log in send accepts cancelled log'.pending log'
