-- ===== src/Audit/Drain/State.antt =====
-- The rows of the webhook drain (audit/models.py `OutboxEvent`, `OutboxDelivery`), and what it sees of
-- an adapter (osds/adapters.py). The envelope, its redaction and the context are left out: a
-- handler is given the event's row and the tenant.
use osds.Prelude.{ℕ, String, Bool, Option, List}

-- `OutboxEvent.Status`
pub data EventStatus : Type 0 where
  pending dispatched delivered dead : EventStatus

-- `OutboxEvent`, as far as the drain reads it
pub record OutboxEvent : Type 0 where
  pub pk : ℕ
  pub type : String
  pub tenant : ℕ
  pub subject : ℕ
  pub status : EventStatus
  pub dispatched_at : Option ℕ

-- `OutboxDelivery.Status`
pub data DeliveryStatus : Type 0 where
  pending delivered dead : DeliveryStatus

-- `OutboxDelivery`. `event` is the event's key.
pub record Delivery : Type 0 where
  pub pk : ℕ
  pub event : ℕ
  pub tenant : Option ℕ
  pub subject : ℕ
  pub adapter_id : String
  pub status : DeliveryStatus
  pub attempt : ℕ
  pub next_attempt_at : ℕ
  pub first_attempted_at : Option ℕ
  pub last_attempted_at : Option ℕ
  pub last_error : String
  pub delivered_at : Option ℕ

-- `Result.status`
pub data HandleStatus : Type 0 where
  ok skipped retry failed : HandleStatus

-- `Result` of an adapter's handler
pub record HandleResult : Type 0 where
  pub status : HandleStatus
  pub reason : String
  pub retry_after_ms : Option ℕ
  pub permanent : Bool

-- How a handler ends: it returns, or it throws an exception of the named class.
pub data HandlerEnd : Type 0 where
  returned : HandleResult → HandlerEnd
  threw : String → HandlerEnd

-- A registered adapter. `wants` is null in one that has no filter, and its answer is null where it
-- throws; `handle` depends on the time, so that it may answer differently later.
pub record Subscriber : Type 0 where
  pub id : String
  pub subscribes : List String
  pub wants : Option (String → Option ℕ → Option Bool)
  pub handle : OutboxEvent → Option ℕ → ℕ → HandlerEnd

-- What a pass reads and writes, each table in the order of its keys.
pub record Queue : Type 0 where
  pub events : List OutboxEvent
  pub deliveries : List Delivery
  pub next_pk : ℕ
