-- ===== src/Alerter/Delivery.antt =====
-- worker_alerter.go: the delivery of a queued alert to the configured targets.
-- A target's `Send` is its answer to an alert: an error text, or none.
pub mod Outcome
use eyrie.Base.{
  ℕ, ◌+◌, String, Bool, not, ◌&&◌, Option, none, some, List, [], ◌∷◌, ◌++◌, ◌==◌, nat_eq, string_eq,
  if◌then◌else◌, is_empty, keep, contains,
}
use eyrie.Alert.{AlertMessage}
use eyrie.Processor.Handle.{Disposition, acked, nacked}

pub record NamedAlerter : Type 0 where
  pub name : String
  pub send : AlertMessage → Option String

-- `errors.Join` keeps the errors in order; without any it is nil.
pub record Delivery : Type 0 where
  pub delivered_count : ℕ
  pub failed_alerters : List String
  pub send_err : List (String × String)

abbrev pub after_send : String → Option String → Delivery → Delivery
after_send name none d = record d { delivered_count = d.delivered_count + 1 }
after_send name (some err) d = record d {
  failed_alerters = d.failed_alerters ++ name ∷ [];
  send_err = d.send_err ++ (name, err) ∷ [];
}

unfoldable pub send_from : Delivery → List NamedAlerter → AlertMessage → Delivery
send_from d [] alert = d
send_from d (a ∷ rest) alert = send_from (after_send a.name (a.send alert) d) rest alert

unfoldable pub send_alert_to_alerters : List NamedAlerter → AlertMessage → Delivery
unfolding send_from
send_alert_to_alerters alerters alert =
    send_from (record { delivered_count = 0; failed_alerters = []; send_err = [] }) alerters alert

-- The set of the names that are asked for, as a list.
unfoldable pub requested : List String → List String
requested [] = []
requested (alert_name ∷ rest) =
    let others = requested rest in if alert_name == "" then others else alert_name ∷ others

unfoldable pub select_named_alerters : List NamedAlerter → List String → List NamedAlerter
unfolding requested
select_named_alerters alerters alert_names =
    let names = requested alert_names in
    if is_empty alert_names
    then alerters
    else if is_empty names
    then []
    else keep (λ a. contains names a.name) alerters

unfoldable pub describe_target_selection :
    List NamedAlerter → List String → List NamedAlerter → String
describe_target_selection configured requested_names selected =
    if not (is_empty selected)
    then (if not (is_empty requested_names) then "matched_named_targets" else "all_enabled_targets")
    else if not (is_empty requested_names)
    then "no_matching_named_targets"
    else if is_empty configured
    then "no_configured_targets"
    else "no_selected_targets"

-- One message of `AlerterWorker.Start`: its end, and the targets that were tried.
-- `none` is a body that does not unmarshal; `nackable` is whether the queue can redeliver.
unfoldable pub handle_alert :
    Bool → List NamedAlerter → Option AlertMessage → Disposition × List NamedAlerter
unfolding select_named_alerters send_alert_to_alerters
handle_alert nackable alerters none = (if nackable then nacked else acked, [])
handle_alert nackable alerters (some alert) =
    let targets = select_named_alerters alerters alert.alert_names in
    let d = send_alert_to_alerters targets alert in
    if is_empty targets
    then (acked, [])
    else if not (is_empty d.send_err)
    then (if d.delivered_count == 0 && nackable then nacked else acked, targets)
    else (acked, targets)
