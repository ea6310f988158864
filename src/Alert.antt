-- ===== src/Alert.antt =====
-- worker_alerter.go: the alert that the processor queues and the alerter worker delivers.
use eyrie.Base.{ℕ, String, List, nat_eq, string_eq, Map}

pub record AlertMessage : Type 0 where
  pub monitor_id : String
  pub incident_id : String
  pub name : String
  pub status : String
  pub scope : String
  pub reason : String
  pub occurred_at : ℕ
  pub affected_regions : List String
  pub alert_names : List String

-- An entry of a queue: the body before it is marshalled, and the metadata.
pub record QueuedAlert : Type 0 where
  pub body : AlertMessage
  pub metadata : Map String String
