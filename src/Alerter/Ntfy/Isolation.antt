-- ===== src/Alerter/Ntfy/Isolation.antt =====
-- What a call leaves alone, and what the state of a monitor holds.
use mathlib.Core.Path.{subst}
use eyrie.Base.{
  ℕ, String, ◌≡◌, refl, sym, ◌⊎◌, inl, inr, Bool, true, false, not, Option, none, some, List, [],
  ◌∷◌, ◌++◌, arith, ltb, ◌==◌, nat_eq, string_eq, str_eq_iff, if◌then◌else◌, Bool-cases,
  Option-cases, is_empty, All, All-append, get, get-put,
}
use eyrie.Alert.{AlertMessage}
use eyrie.Incident.{healthy, degraded, down}
use eyrie.Alerter.Ntfy.{
  MonitorAlertState, BufferedNtfyAlerter, Sent, set_state, get_or_create_state, flush_state,
  flush_buffer, flush_found, flush_digest_for_monitor, handle_down_alert, handle_degraded_alert,
  recover, handle_healthy_alert, send,
}

-- The collected alerts are degraded alerts of the monitor.
abbrev Collected : String → List AlertMessage → Type 0
Collected monitor_id = All (λ x. (x.monitor_id ≡ monitor_id) × (x.status ≡ degraded))

-- `degraded_since` is when the first collected alert occurred.
abbrev Since : ℕ → List AlertMessage → Type 0
Since t [] = Unit
Since t (x ∷ _) = x.occurred_at ≡ t

abbrev Holds : String → MonitorAlertState → Type 0
Holds monitor_id state =
    Collected monitor_id state.degraded_buffer × Since state.degraded_since state.degraded_buffer

-- The buffer of each monitor holds degraded alerts of that monitor only, and `degraded_since` is the
-- time of the first of them.
abbrev pub WellFormed : BufferedNtfyAlerter → Type 0
WellFormed a =
    (monitor_id : String) (state : MonitorAlertState)
    → get monitor_id a.states ≡ some state
    → Holds monitor_id state

get_or_create_state-Holds :
    (a : BufferedNtfyAlerter) (monitor_id : String)
    → WellFormed a
    → Holds monitor_id (get_or_create_state a monitor_id)
unfolding get_or_create_state
get_or_create_state-Holds a monitor_id wf = elim (Option-cases (get monitor_id a.states)) [
  | inl e ↦ rw e (tt, tt)
  | inr e ↦ rw e.1 (wf monitor_id e.0 e.1)
]

Since-append :
    (t : ℕ) (l : List AlertMessage) (alert : AlertMessage)
    → Since t l
    → Since (if is_empty l then alert.occurred_at else t) (l ++ alert ∷ [])
Since-append t [] alert h = refl
Since-append t (x ∷ l) alert h = h

-- The alerter is as before, or the state of this monitor is another one that is in order.
Touches : String → BufferedNtfyAlerter → Sent → Type 0
Touches monitor_id a s =
    (s.alerter ≡ a)
    ⊎ ((state : MonitorAlertState) × Holds monitor_id state
        × (s.alerter ≡ set_state monitor_id state a))

same-Touches :
    (monitor_id : String) (a : BufferedNtfyAlerter) (alerts : List AlertMessage) (failed : Bool)
    → Touches monitor_id a (record { alerter = a; alerts = alerts; failed = failed })
unfolding Touches
same-Touches monitor_id a alerts failed = inl refl

state-Touches :
    (monitor_id : String) (a : BufferedNtfyAlerter) (state : MonitorAlertState)
    (alerts : List AlertMessage) (failed : Bool)
    → Holds monitor_id state
    → Touches monitor_id a
        (record { alerter = set_state monitor_id state a; alerts = alerts; failed = failed })
unfolding Touches
state-Touches monitor_id a state alerts failed h = inr (state, h, refl)

set_failed-Touches :
    (monitor_id : String) (a : BufferedNtfyAlerter) (s : Sent) (failed : Bool)
    → Touches monitor_id a s
    → Touches monitor_id a (record s { failed = failed })
unfolding Touches
set_failed-Touches monitor_id a s failed h = h

if-Touches :
    (monitor_id : String) (a : BufferedNtfyAlerter) (b : Bool) (x y : Sent)
    → Touches monitor_id a x
    → Touches monitor_id a y
    → Touches monitor_id a (if b then x else y)
if-Touches monitor_id a true x y h k = h
if-Touches monitor_id a false x y h k = k

if_true-Touches :
    (monitor_id : String) (a : BufferedNtfyAlerter) (b : Bool) (x y : Sent)
    → (b ≡ true → Touches monitor_id a x)
    → Touches monitor_id a y
    → Touches monitor_id a (if b then x else y)
if_true-Touches monitor_id a true x y h k = h refl
if_true-Touches monitor_id a false x y h k = k

if-Holds :
    (monitor_id : String) (b : Bool) (x y : MonitorAlertState)
    → Holds monitor_id x
    → Holds monitor_id y
    → Holds monitor_id (if b then x else y)
if-Holds monitor_id true x y h k = h
if-Holds monitor_id false x y h k = k

-- The monitor's own state is in order, and all others are as before.
abbrev pub Keeps : String → BufferedNtfyAlerter → BufferedNtfyAlerter → Type 0
Keeps monitor_id a b =
    WellFormed b × ((j : String) → (monitor_id == j) ≡ false → get j b.states ≡ get j a.states)

get-set_state :
    (monitor_id : String) (state : MonitorAlertState) (a : BufferedNtfyAlerter)
    → Holds monitor_id state
    → WellFormed a
    → WellFormed (set_state monitor_id state a)
get-set_state monitor_id state a h wf j st p = elim (Bool-cases (monitor_id == j)) [
  | inl same ↦
      let here : state ≡ st = ground (arith, get-put monitor_id j state a.states) in
      subst (λ t. Holds j t) here (subst (λ k. Holds k state) ((str_eq_iff monitor_id j).0 same) h)
  | inr other ↦ wf j st (ground (arith, get-put monitor_id j state a.states))
]

Touches-Keeps :
    (monitor_id : String) (a : BufferedNtfyAlerter) (s : Sent)
    → WellFormed a
    → Touches monitor_id a s
    → Keeps monitor_id a s.alerter
unfolding Touches
Touches-Keeps monitor_id a s wf (inl e) = subst (Keeps monitor_id a) (sym e) (wf, λ j other. refl)
Touches-Keeps monitor_id a s wf (inr e) = subst (Keeps monitor_id a) (sym e.2) (
  get-set_state monitor_id e.0 a e.1 wf,
  λ j other. ground (arith, get-put monitor_id j e.0 a.states),
)

module _ (format_time : ℕ → String) (fails : AlertMessage → Bool) where
  flush_buffer-Touches :
      (a : BufferedNtfyAlerter) (monitor_id : String) (state : MonitorAlertState)
      (buffer : List AlertMessage)
      → Touches monitor_id a (flush_buffer format_time fails a monitor_id state buffer)
  unfolding flush_state
  flush_buffer-Touches a monitor_id state [] = same-Touches _ a _ _
  flush_buffer-Touches a monitor_id state (first ∷ rest) =
      if-Touches monitor_id a _ _ _ (state-Touches _ a _ _ _ (tt, tt))
        (state-Touches _ a _ _ _ (tt, tt))

  flush_found-Touches :
      (a : BufferedNtfyAlerter) (monitor_id : String) (found : Option MonitorAlertState)
      → Touches monitor_id a (flush_found format_time fails a monitor_id found)
  flush_found-Touches a monitor_id none = same-Touches _ a _ _
  flush_found-Touches a monitor_id (some state) =
      flush_buffer-Touches a monitor_id state state.degraded_buffer

  flush_digest_for_monitor-Touches :
      (a : BufferedNtfyAlerter) (monitor_id : String)
      → Touches monitor_id a (flush_digest_for_monitor format_time fails a monitor_id)
  unfolding flush_digest_for_monitor
  flush_digest_for_monitor-Touches a monitor_id =
      flush_found-Touches a monitor_id (get monitor_id a.states)

  handle_down_alert-Touches :
      (now : ℕ) (a : BufferedNtfyAlerter) (alert : AlertMessage)
      → Touches alert.monitor_id a (handle_down_alert format_time fails now a alert)
  unfolding handle_down_alert
  handle_down_alert-Touches now a alert =
      if-Touches alert.monitor_id a
        (ltb now (get_or_create_state a alert.monitor_id).suppress_until) _ _
        (state-Touches _ a _ _ _ (tt, tt))
        (if-Touches alert.monitor_id a (fails alert) _ _ (state-Touches _ a _ _ _ (tt, tt))
          (state-Touches _ a _ _ _ (tt, tt)))

  handle_degraded_alert-Touches :
      (now : ℕ) (a : BufferedNtfyAlerter) (alert : AlertMessage)
      → alert.status ≡ degraded
      → WellFormed a
      → Touches alert.monitor_id a (handle_degraded_alert format_time fails now a alert)
  unfolding handle_degraded_alert
  handle_degraded_alert-Touches now a alert d wf =
      let state = get_or_create_state a alert.monitor_id in
      let old = get_or_create_state-Holds a alert.monitor_id wf in
      state-Touches alert.monitor_id a _ _ _ (
        if-Holds alert.monitor_id _ state _ old (
          All-append _ state.degraded_buffer (alert ∷ []) old.0 ((refl, d), tt),
          Since-append state.degraded_since state.degraded_buffer alert old.1,
        ))

  recover-Touches :
      (a : BufferedNtfyAlerter) (alert : AlertMessage) (found : Option MonitorAlertState)
      → WellFormed a
      → get alert.monitor_id a.states ≡ found
      → Touches alert.monitor_id a (recover format_time fails a alert found)
  unfolding recover
  recover-Touches a alert none wf h = same-Touches _ a _ _
  recover-Touches a alert (some state) wf h =
      if-Touches alert.monitor_id a (not (is_empty state.degraded_buffer)) _ _
        (set_failed-Touches _ a _ false (flush_digest_for_monitor-Touches a alert.monitor_id))
        (if-Touches alert.monitor_id a (not state.notified_unhealthy) _ _ (same-Touches _ a _ _) (
          if-Touches alert.monitor_id a (fails alert) _ _ (same-Touches _ a _ _) (
            state-Touches _ a (record state { notified_unhealthy = false }) _ _
              (wf alert.monitor_id state h))))

  -- Sending an alert keeps the buffers in order, and leaves the state of every other monitor as it was.
  pub send-Keeps :
      (now : ℕ) (a : BufferedNtfyAlerter) (alert : AlertMessage)
      → WellFormed a
      → Keeps alert.monitor_id a (send format_time fails now a alert).alerter
  unfolding send handle_healthy_alert
  send-Keeps now a alert wf =
      Touches-Keeps alert.monitor_id a (send format_time fails now a alert) wf (
        if-Touches alert.monitor_id a (alert.status == down) _ _
          (handle_down_alert-Touches now a alert)
          (if_true-Touches alert.monitor_id a (alert.status == degraded) _ _
            (λ d. handle_degraded_alert-Touches now a alert ((str_eq_iff _ _).0 d) wf)
            (if-Touches alert.monitor_id a (alert.status == healthy) _ _
              (recover-Touches a alert (get alert.monitor_id a.states) wf refl)
              (same-Touches _ a _ _))))
