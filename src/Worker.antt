-- ===== src/Worker.antt =====
-- The consumer of the job queue (app/workers/consumer.py), for one queue. What a job does, and
-- whether it raises, is the parameter `dispatch` on a state of the outside world; the stream is a
-- broker with the documented order of Redis Streams: a consumer group is given each message once,
-- in the order in which they were added.
use company_tax_and_accounti.Base.{
  ℕ, zero, suc, ◌+◌, ◌-◌, leb, Bool, true, false, not, Option, none, some, String, List, [], ◌∷◌,
  ◌++◌, ◌≡◌, if◌then◌else◌,
}
use company_tax_and_accounti.Base.Text.{text_of}
pub mod Draining

-- The fields of a message: `deliveries` is only written when a job is queued again.
pub record Message : Type 0 where
  pub payload : Option String
  pub deliveries : Option ℕ

pub record Broker : Type 1 where
  pub Stream : Type 0
  pub xadd : Stream → Message → Stream
  pub xreadgroup : Stream → Option (Message × Stream)
  -- the messages not yet delivered to the group
  pub waiting : Stream → List Message
  pub waiting-xadd : (s : Stream) (m : Message) → waiting (xadd s m) ≡ waiting s ++ (m ∷ [])
  pub xreadgroup-waiting : (s : Stream) → xreadgroup s ≡ none → waiting s ≡ []
  pub xreadgroup-next :
      (s t : Stream) (m : Message) → xreadgroup s ≡ some (m, t) → waiting s ≡ m ∷ waiting t

-- `MAX_DELIVERIES`
abbrev pub max_deliveries : ℕ
max_deliveries = 5

-- `fields.get("payload", "{}")` and `int(fields.get("deliveries", 1))`
abbrev pub payload_of : Message → String
payload_of m = elim m.payload [ none ↦ "{}" | some p ↦ p ]

abbrev pub deliveries_of : Message → ℕ
deliveries_of m = elim m.deliveries [ none ↦ 1 | some n ↦ n ]

-- `2 ** n`
abbrev pub power_of_two : ℕ → ℕ
power_of_two zero = 1
power_of_two (suc n) = power_of_two n + power_of_two n

-- The message that a job that has failed is queued again with.
abbrev pub again : Message → Message
again m = record { payload = some (payload_of m); deliveries = some (deliveries_of m + 1) }

module _ (b : Broker) (World : Type 0) (is_json : String → Bool)
    (dispatch : World → String → Bool × World) where
  -- The stream, the jobs acknowledged after success, the dead-letter stream, the seconds slept,
  -- and the world.
  pub record Consumer : Type 0 where
    pub stream : b.Stream
    pub completed : List Message
    pub dead : List Message
    pub slept : ℕ
    pub world : World

  -- The `except` branch of `_process`.
  unfoldable pub failed : Message → Consumer → Consumer
  failed m k =
      if leb max_deliveries (deliveries_of m)
      then record k { dead = k.dead ++ (m ∷ []) }
      else record k {
        stream = b.xadd k.stream (again m);
        slept = k.slept + power_of_two (deliveries_of m - 1);
      }

  unfoldable pub dispatched : Message → Bool × World → Consumer → Consumer
  dispatched m (true, w) k = record k { completed = k.completed ++ (m ∷ []); world = w }
  dispatched m (false, w) k = failed m (record k { world = w })

  -- `_process`: a payload that is not JSON raises outside of the `try`, and ends the worker.
  unfoldable pub process : Message → Consumer → Option Consumer
  process m k =
      if is_json (payload_of m)
      then some (dispatched m (dispatch k.world (payload_of m)) k)
      else none

  -- What is left of the run: the consumer is idle, the worker has been ended by a payload, or the
  -- fuel has run out.
  pub data Run : Type 0 where
    idle ended exhausted : Consumer → Run

  abbrev pub continue : (Consumer → Run) → Consumer → Option Consumer → Run
  continue next k none = ended k
  continue next k (some k') = next k'

  abbrev pub on_message : (Consumer → Run) → Consumer → Option (Message × b.Stream) → Run
  on_message next k none = idle k
  on_message next k (some (m, s)) =
      let k' = record k { stream = s } in continue next k' (process m k')

  -- The loop of `run`, until no message is waiting: at most `fuel` messages are processed.
  unfoldable pub run : ℕ → Consumer → Run
  run zero k = elim (b.xreadgroup k.stream) [ none ↦ idle k | some x ↦ exhausted k ]
  run (suc fuel) k = on_message (run fuel) k (b.xreadgroup k.stream)
