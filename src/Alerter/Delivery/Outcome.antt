-- ===== src/Alerter/Delivery/Outcome.antt =====
-- Who gets an alert, what became of it, and when its message goes back to the queue.
use mathlib.Core.List.{append-nil, append_assoc}
use eyrie.Base.{
  ◌+◌, ◌<◌, String, ◌≡◌, refl, sym, ap, ◌∙◌, ◌↔◌, Bool, true, false, not, ◌&&◌, Option, none, some,
  List, [], ◌∷◌, ◌++◌, arith, ◌==◌, nat_eq, string_eq, str_eq_iff, if◌then◌else◌, length, is_empty,
  length-append, keep, count, contains,
}
use eyrie.Alert.{AlertMessage}
use eyrie.Processor.Handle.{nacked}
use eyrie.Alerter.Delivery.{
  describe_target_selection, NamedAlerter, Delivery, after_send, send_from, send_alert_to_alerters,
  requested, select_named_alerters, handle_alert,
}

abbrev is_error : Option String → Bool
is_error none = false
is_error (some _) = true

-- A target that answers with an error.
abbrev pub refuses : AlertMessage → NamedAlerter → Bool
refuses alert a = is_error (a.send alert)

abbrev names_of : List NamedAlerter → List String
names_of [] = []
names_of (a ∷ rest) = a.name ∷ names_of rest

contains-requested :
    (names : List String) (name : String)
    → contains (requested names) name ≡ (not (name == "") && contains names name)
unfolding requested
contains-requested [] name = ground arith
contains-requested (n ∷ names) name =
    ground (arith, contains-requested names name, str_eq_iff n name)

keep-empty :
    (names : List String) (alerters : List NamedAlerter)
    → is_empty names ≡ true
    → keep (λ a. contains names a.name) alerters ≡ []
keep-empty [] [] h = refl
keep-empty [] (a ∷ rest) h = keep-empty [] rest h
keep-empty (n ∷ names) alerters h = cc

no_shortcut :
    (names : List String) (alerters : List NamedAlerter)
    → (if is_empty names then [] else keep (λ a. contains names a.name) alerters)
      ≡ keep (λ a. contains names a.name) alerters
no_shortcut names alerters = ground (arith, keep-empty names alerters)

-- The targets of an alert, in their configured order: all of them when the alert names none, and
-- otherwise those whose name is not empty and is among the names.
pub select_exact :
    (alerters : List NamedAlerter) (names : List String)
    → select_named_alerters alerters names ≡ (
        if is_empty names
        then alerters
        else keep (λ a. not (a.name == "") && contains names a.name) alerters)
unfolding select_named_alerters
select_exact alerters names =
    ap (λ l. if is_empty names then alerters else l)
      (no_shortcut (requested names) alerters
        ∙ (λ i. keep (λ a. contains-requested names a.name i) alerters))

-- What the result says when the targets of `rest` were tried after `d`.
abbrev Tried : Delivery → List NamedAlerter → List NamedAlerter → Delivery → Type 0
Tried d targets refused r =
    (r.delivered_count + length refused ≡ d.delivered_count + length targets)
    × (r.failed_alerters ≡ d.failed_alerters ++ names_of refused)
    × (length r.send_err ≡ length d.send_err + length refused)

Tried-cons :
    (a : NamedAlerter) (answer : Option String) (d : Delivery) (targets refused : List NamedAlerter)
    (r : Delivery)
    → Tried (after_send a.name answer d) targets refused r
    → Tried d (a ∷ targets) (if is_error answer then a ∷ refused else refused) r
Tried-cons a none d targets refused r h = (omega (arith, h.0), h.1, h.2)
Tried-cons a (some err) d targets refused r h = (
  omega (arith, h.0),
  h.1 ∙ append_assoc d.failed_alerters (a.name ∷ []) (names_of refused),
  omega (arith, h.2, length-append d.send_err ((a.name, err) ∷ [])),
)

delivered_from :
    (d : Delivery) (alerters : List NamedAlerter) (alert : AlertMessage)
    → Tried d alerters (keep (refuses alert) alerters) (send_from d alerters alert)
unfolding send_from
delivered_from d [] alert = (refl, sym (append-nil d.failed_alerters), omega arith)
delivered_from d (a ∷ rest) alert =
    Tried-cons a (a.send alert) d rest (keep (refuses alert) rest) _
      (delivered_from (after_send a.name (a.send alert) d) rest alert)

length-keep-refuses :
    (alert : AlertMessage) (l : List NamedAlerter)
    → length (keep (refuses alert) l) ≡ count (refuses alert) l
length-keep-refuses alert [] = refl
length-keep-refuses alert (a ∷ l) = ground (arith, length-keep-refuses alert l)

-- Every target is tried: those that answer without error are counted as delivered, the others are named
-- in their order, with one error for each.
pub delivery_counts :
    (alerters : List NamedAlerter) (alert : AlertMessage)
    → let r = send_alert_to_alerters alerters alert in
      (r.delivered_count + count (refuses alert) alerters ≡ length alerters)
      × (r.failed_alerters ≡ names_of (keep (refuses alert) alerters))
      × (length r.send_err ≡ count (refuses alert) alerters)
unfolding send_alert_to_alerters
delivery_counts alerters alert =
    let none_yet : Delivery = record { delivered_count = 0; failed_alerters = []; send_err = [] } in
    let r = delivered_from none_yet alerters alert in
    let refused = length-keep-refuses alert alerters in
    (omega (arith, r.0, refused), r.1, omega (arith, r.2, refused))

-- A body that does not unmarshal, or an alert with targets that all refuse it.
abbrev pub Undelivered : List NamedAlerter → Option AlertMessage → Type 0
Undelivered alerters none = Unit
Undelivered alerters (some alert) =
    let targets = select_named_alerters alerters alert.alert_names in
    (0 < length targets) × (count (refuses alert) targets ≡ length targets)

is_empty-length {ℓ} : {A : Type ℓ} (l : List A) → is_empty l ≡ (length l == 0)
is_empty-length [] = refl
is_empty-length (x ∷ l) = ground arith

-- A message goes back to the queue exactly if the queue can redeliver it and either its body does not
-- unmarshal, or it has targets and every one of them refused it.  So an alert that reached a target is
-- never delivered again by its message.
pub handle_alert_nacked :
    (nackable : Bool) (alerters : List NamedAlerter) (message : Option AlertMessage)
    → ((handle_alert nackable alerters message).0 ≡ nacked)
      ↔ ((nackable ≡ true) × Undelivered alerters message)
unfolding handle_alert
handle_alert_nacked nackable alerters none = (λ h. (ground arith, tt), λ h. ground arith)
handle_alert_nacked nackable alerters (some alert) =
    let targets = select_named_alerters alerters alert.alert_names in
    let r = delivery_counts targets alert in
    let e = is_empty-length targets in
    let f = is_empty-length (send_alert_to_alerters targets alert).send_err in
    (λ h. ground (arith, r, e, f), λ h. ground (arith, r, e, f))

-- For the targets that an alert is sent to, the description goes by two things only, whether any was
-- selected and whether any was asked for: `no_selected_targets` never comes up.
pub describe_target_selection_agrees :
    (alerters : List NamedAlerter) (names : List String)
    → let selected = select_named_alerters alerters names in
      describe_target_selection alerters names selected ≡ (
        if is_empty selected
        then (if is_empty names then "no_configured_targets" else "no_matching_named_targets")
        else if is_empty names
        then "all_enabled_targets"
        else "matched_named_targets")
unfolding describe_target_selection select_named_alerters
describe_target_selection_agrees alerters names = ground arith
