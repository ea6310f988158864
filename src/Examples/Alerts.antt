-- ===== src/Examples/Alerts.antt =====
-- Runs of the alerter worker and of the buffer in front of ntfy.
use eyrie.Base.{
  ℕ, ◌*◌, String, ◌≡◌, refl, ◌↔◌, inr, Bool, true, false, not, ◌&&◌, none, some, List, [], ◌∷◌,
  arith, ◌==◌, nat_eq, string_eq, length, keep, contains, itoa, get, put,
}
use eyrie.Monitor.{minute}
use eyrie.Alert.{AlertMessage}
use eyrie.Processor.Handle.{acked, nacked}
use eyrie.Alerter.Delivery.{NamedAlerter, select_named_alerters, handle_alert}
use eyrie.Alerter.Delivery.Outcome.{select_exact, Undelivered, handle_alert_nacked}
use eyrie.Alerter.Ntfy.{BufferedNtfyAlerter, get_or_create_state, send, flush_digest}
use eyrie.Alerter.Ntfy.Isolation.{WellFormed, Keeps, send-Keeps}
use eyrie.Alerter.Ntfy.Silence.{send_suppressed}
use eyrie.Alerter.Ntfy.Flush.{flush_digest_twice}

abbrev alert_of : String → String → AlertMessage
alert_of monitor_id status = record {
  monitor_id = monitor_id;
  incident_id = "i-1";
  name = "Shop";
  status = status;
  scope = "local";
  reason = "Regional degradation detected in eu";
  occurred_at = minute;
  affected_regions = "eu" ∷ [];
  alert_names = "ops" ∷ "chat" ∷ [];
}

abbrev ops : NamedAlerter
ops = record { name = "ops"; send = λ alert. none }

abbrev chat : NamedAlerter
chat = record { name = "chat"; send = λ alert. some "status 500" }

abbrev targets : List NamedAlerter
targets = ops ∷ chat ∷ []

select_exact_example :
    select_named_alerters targets ("chat" ∷ "" ∷ [])
    ≡ keep (λ a. not (a.name == "") && contains ("chat" ∷ "" ∷ []) a.name) targets
select_exact_example = select_exact targets ("chat" ∷ "" ∷ [])

handle_alert_nacked_example :
    ((handle_alert true (chat ∷ []) (some (alert_of "shop" "down"))).0 ≡ nacked)
    ↔ ((true ≡ true) × Undelivered (chat ∷ []) (some (alert_of "shop" "down")))
handle_alert_nacked_example = handle_alert_nacked true (chat ∷ []) (some (alert_of "shop" "down"))

-- One target of two refuses: the message is not delivered again.
partly_delivered : (handle_alert true targets (some (alert_of "shop" "down"))).0 ≡ acked
unfolding handle_alert
partly_delivered = refl

abbrev format_time : ℕ → String
format_time t = itoa t

abbrev works : AlertMessage → Bool
works alert = false

abbrev fresh : BufferedNtfyAlerter
fresh = record { suppress_window = 5 * minute; digest_interval = 15 * minute; states = [] }

fresh-WellFormed : WellFormed fresh
unfolding get
fresh-WellFormed j state h = cc

-- A degraded alert of `shop` is collected.
abbrev collected : BufferedNtfyAlerter
collected = (send format_time works minute fresh (alert_of "shop" "degraded")).alerter

send-Keeps_example : Keeps "shop" fresh collected
send-Keeps_example =
    send-Keeps format_time works minute fresh (alert_of "shop" "degraded") fresh-WellFormed

send_suppressed_example :
    let r =
      send format_time works
        (3 * minute)
        (send format_time works minute fresh (alert_of "shop" "down")).alerter
        (alert_of "shop" "degraded") in
    (r.alerts ≡ [])
    × (r.failed ≡ false)
    × ((get_or_create_state r.alerter "shop").degraded_buffer ≡ [])
send_suppressed_example =
    send_suppressed format_time works minute (3 * minute) fresh (alert_of "shop" "down")
      (alert_of "shop" "degraded") refl refl (inr refl) (omega arith)

flush_digest_twice_example :
    ((j : String)
      → (get_or_create_state (flush_digest format_time works collected).alerter j).degraded_buffer
        ≡ [])
    × ((flush_digest format_time works (flush_digest format_time works collected).alerter).alerts
        ≡ [])
flush_digest_twice_example = flush_digest_twice format_time works collected

collected_is_flushed : length (flush_digest format_time works collected).alerts ≡ 1
unfolding send flush_digest put get
collected_is_flushed = refl
