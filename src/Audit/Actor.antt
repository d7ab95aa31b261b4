-- ===== src/Audit/Actor.antt =====
-- The `actor` of an event and of a command: its type, and its id.
use osds.Prelude.{ℕ, String}

-- `OutboxEvent.ActorType`, as far as it is used. `claimant` is the visitor whose id is
-- "claimant:" and the id of a claim that is being submitted.
pub data Actor : Type 0 where
  system : String → Actor
  visitor claimant owner staff admin : ℕ → Actor
  adapter : String → Actor
