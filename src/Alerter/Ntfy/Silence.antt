-- ===== src/Alerter/Ntfy/Silence.antt =====
-- When nothing is sent: inside the window after a down alert, and after a flush.

use eyrie.Base.{
  ℕ, ◌+◌, ◌<◌, String, ◌≡◌, refl, ◌⊎◌, inl, inr, Bool, true, false, [], arith, ltb, nat_eq,
  string_eq, if◌then◌else◌, Bool-cases, get-put_self,
}
use eyrie.Incident.{degraded, down}
use eyrie.Alert.{AlertMessage}
use eyrie.Alerter.Ntfy.{
  send, MonitorAlertState, BufferedNtfyAlerter, Sent, set_state, get_or_create_state,
  handle_down_alert, handle_degraded_alert,
}

state-set_state :
    (monitor_id : String) (state : MonitorAlertState) (a : BufferedNtfyAlerter)
    → get_or_create_state (set_state monitor_id state a) monitor_id ≡ state
unfolding get_or_create_state
state-set_state monitor_id state a = rw (get-put_self monitor_id state a.states)

module _ (format_time : ℕ → String) (fails : AlertMessage → Bool) where
  -- After a down alert the window is open and nothing is collected.
  Silenced : ℕ → String → BufferedNtfyAlerter → Type 0
  Silenced until monitor_id b =
      ((get_or_create_state b monitor_id).suppress_until ≡ until)
      × ((get_or_create_state b monitor_id).degraded_buffer ≡ [])

  set_state-Silenced :
      (until : ℕ) (monitor_id : String) (state : MonitorAlertState) (a : BufferedNtfyAlerter)
      → state.suppress_until ≡ until
      → state.degraded_buffer ≡ []
      → Silenced until monitor_id (set_state monitor_id state a)
  unfolding Silenced
  set_state-Silenced until monitor_id state a h k = rw (state-set_state monitor_id state a) (h, k)

  if-Silenced :
      (until : ℕ) (monitor_id : String) (b : Bool) (x y : Sent)
      → Silenced until monitor_id x.alerter
      → Silenced until monitor_id y.alerter
      → Silenced until monitor_id (if b then x else y).alerter
  if-Silenced until monitor_id true x y h k = h
  if-Silenced until monitor_id false x y h k = k

  handle_down_alert-Silenced :
      (now : ℕ) (a : BufferedNtfyAlerter) (alert : AlertMessage)
      → Silenced
          (now + a.suppress_window)
          alert.monitor_id
          (handle_down_alert format_time fails now a alert).alerter
  unfolding handle_down_alert
  handle_down_alert-Silenced now a alert =
      let until = now + a.suppress_window in
      let state = get_or_create_state a alert.monitor_id in
      let state' : MonitorAlertState = record state {
        suppress_until = until;
        degraded_buffer = [];
      } in
      let quiet = set_state-Silenced until alert.monitor_id state' a refl refl in
      let told =
        set_state-Silenced until alert.monitor_id (record state' { notified_unhealthy = true }) a
          refl refl in
      elim (Bool-cases (ltb now state.suppress_until)) [
        | inl p ↦ rw p quiet
        | inr p ↦ rw p (elim (Bool-cases (fails alert)) [ inl q ↦ rw q quiet | inr q ↦ rw q told ])
      ]

  Quiet : String → Sent → Type 0
  Quiet monitor_id r =
      (r.alerts ≡ [])
      × (r.failed ≡ false)
      × ((get_or_create_state r.alerter monitor_id).degraded_buffer ≡ [])

  handle_down_alert-Quiet :
      (until now : ℕ) (b : BufferedNtfyAlerter) (alert : AlertMessage)
      → Silenced until alert.monitor_id b
      → now < until
      → Quiet alert.monitor_id (handle_down_alert format_time fails now b alert)
  unfolding handle_down_alert Silenced Quiet
  handle_down_alert-Quiet until now b alert s h =
      let suppressed : ltb now (get_or_create_state b alert.monitor_id).suppress_until ≡ true =
        ground (arith, s.0) in
      rw suppressed (refl, refl, rw (state-set_state) refl)

  handle_degraded_alert-Quiet :
      (until now : ℕ) (b : BufferedNtfyAlerter) (alert : AlertMessage)
      → Silenced until alert.monitor_id b
      → now < until
      → Quiet alert.monitor_id (handle_degraded_alert format_time fails now b alert)
  unfolding handle_degraded_alert Silenced Quiet
  handle_degraded_alert-Quiet until now b alert s h =
      let suppressed : ltb now (get_or_create_state b alert.monitor_id).suppress_until ≡ true =
        ground (arith, s.0) in
      (refl, refl, rw (state-set_state) (ground (arith, suppressed, s.1)))

  send_down :
      (now : ℕ) (a : BufferedNtfyAlerter) (alert : AlertMessage)
      → alert.status ≡ down
      → send format_time fails now a alert ≡ handle_down_alert format_time fails now a alert
  unfolding send
  send_down now a alert h = rw h refl

  send_degraded :
      (now : ℕ) (a : BufferedNtfyAlerter) (alert : AlertMessage)
      → alert.status ≡ degraded
      → send format_time fails now a alert ≡ handle_degraded_alert format_time fails now a alert
  unfolding send
  send_degraded now a alert h = rw h refl

  -- Within the suppression window after a down alert, whether that one was sent or not, a further down or
  -- degraded alert for the monitor sends nothing, reports no failure and collects nothing.
  pub send_suppressed :
      (now now' : ℕ) (a : BufferedNtfyAlerter) (first next : AlertMessage)
      → first.status ≡ down
      → next.monitor_id ≡ first.monitor_id
      → (next.status ≡ down) ⊎ (next.status ≡ degraded)
      → now' < now + a.suppress_window
      → let r = send format_time fails now' (send format_time fails now a first).alerter next in
        (r.alerts ≡ [])
        × (r.failed ≡ false)
        × ((get_or_create_state r.alerter next.monitor_id).degraded_buffer ≡ [])
  unfolding Quiet
  send_suppressed now now' a first next h same (inl p) soon = rw (send_down now a first h) (
      rw (send_down now' _ next p) (
        handle_down_alert-Quiet (now + a.suppress_window) now' _ next
          (rw same (handle_down_alert-Silenced now a first)) soon))
  send_suppressed now now' a first next h same (inr p) soon = rw (send_down now a first h) (
      rw (send_degraded now' _ next p) (
        handle_degraded_alert-Quiet (now + a.suppress_window) now' _ next
          (rw same (handle_down_alert-Silenced now a first)) soon))
