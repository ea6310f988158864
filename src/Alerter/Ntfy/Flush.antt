-- ===== src/Alerter/Ntfy/Flush.antt =====
-- A tick of the digest loop empties the buffers.
use mathlib.Core.Path.{subst}
use eyrie.Base.{
  ℕ, String, ◌≡◌, refl, sym, ap, ◌∙◌, inl, inr, Bool, true, false, Option, none, some, List, [],
  ◌∷◌, arith, ◌==◌, nat_eq, string_eq, str_eq_iff, if◌then◌else◌, Bool-cases, contains, Map, get,
  put, get-put,
}
use eyrie.Incident.{healthy}
use eyrie.Alert.{AlertMessage}
use eyrie.Alerter.Ntfy.{
  MonitorAlertState, BufferedNtfyAlerter, Sent, set_state, or_new, keys, get_or_create_state,
  build_digest_message, flush_state, flush_buffer, flush_found, flush_digest_for_monitor, flush_all,
  flush_digest,
}

keys-put :
    (monitor_id : String) (old state : MonitorAlertState) (m : Map String MonitorAlertState)
    → get monitor_id m ≡ some old
    → keys (put monitor_id state m) ≡ keys m
unfolding get put
keys-put monitor_id old state [] h = cc
keys-put monitor_id old state ((j, st) ∷ m) h = ground (arith, keys-put monitor_id old state m)

keys-get :
    (m : Map String MonitorAlertState) (j : String) → contains (keys m) j ≡ false → get j m ≡ none
unfolding get
keys-get [] j h = refl
keys-get ((k, state) ∷ m) j h = ground (arith, keys-get m j)

abbrev buffered : BufferedNtfyAlerter → String → List AlertMessage
buffered a monitor_id = (get_or_create_state a monitor_id).degraded_buffer

buffered_found :
    (a : BufferedNtfyAlerter) (monitor_id : String) (found : Option MonitorAlertState)
    → get monitor_id a.states ≡ found
    → buffered a monitor_id ≡ (or_new found).degraded_buffer
unfolding get_or_create_state
buffered_found a monitor_id found h = ap (λ o. (or_new o).degraded_buffer) h

get-set_state :
    (monitor_id j : String) (state : MonitorAlertState) (a : BufferedNtfyAlerter)
    → get_or_create_state (set_state monitor_id state a) j
      ≡ (if monitor_id == j then state else get_or_create_state a j)
unfolding get_or_create_state
get-set_state monitor_id j state a = ground (arith, get-put monitor_id j state a.states)

-- The monitor's buffer is empty afterwards, no other buffer changes, and no monitor is new.
Emptied : String → BufferedNtfyAlerter → Sent → Type 0
Emptied monitor_id a r =
    ((j : String) → buffered r.alerter j ≡ (if monitor_id == j then [] else buffered a j))
    × (keys r.alerter.states ≡ keys a.states)

known_or_empty :
    (a : BufferedNtfyAlerter) (j : String)
    → (if contains (keys a.states) j then [] else buffered a j) ≡ []
known_or_empty a j = elim (Bool-cases (contains (keys a.states) j)) [
  | inl known ↦ rw known refl
  | inr new ↦ rw new (buffered_found a j none (keys-get a.states j new))
]

module _ (format_time : ℕ → String) (fails : AlertMessage → Bool) where
  set_state-Emptied :
      (a : BufferedNtfyAlerter) (monitor_id : String) (old state : MonitorAlertState)
      (alerts : List AlertMessage) (failed : Bool)
      → get monitor_id a.states ≡ some old
      → state.degraded_buffer ≡ []
      → Emptied monitor_id a
          (record { alerter = set_state monitor_id state a; alerts = alerts; failed = failed })
  unfolding Emptied
  set_state-Emptied a monitor_id old state alerts failed h k = (
    λ j. ground (arith, get-set_state monitor_id j state a),
    keys-put monitor_id old state a.states h,
  )

  nothing-Emptied :
      (a : BufferedNtfyAlerter) (monitor_id : String)
      → buffered a monitor_id ≡ []
      → Emptied monitor_id a (record { alerter = a; alerts = []; failed = false })
  unfolding Emptied
  nothing-Emptied a monitor_id h = (
    λ j. elim (Bool-cases (monitor_id == j)) [
      | inl same ↦ rw same (subst (λ k. buffered a k ≡ []) ((str_eq_iff monitor_id j).0 same) h)
      | inr other ↦ rw other refl
    ],
    refl,
  )

  if-Emptied :
      (a : BufferedNtfyAlerter) (monitor_id : String) (b : Bool) (x y : Sent)
      → Emptied monitor_id a x
      → Emptied monitor_id a y
      → Emptied monitor_id a (if b then x else y)
  if-Emptied a monitor_id true x y h k = h
  if-Emptied a monitor_id false x y h k = k

  flush_found-Emptied :
      (a : BufferedNtfyAlerter) (monitor_id : String) (state : MonitorAlertState)
      (buffer : List AlertMessage)
      → get monitor_id a.states ≡ some state
      → state.degraded_buffer ≡ buffer
      → Emptied monitor_id a (flush_buffer format_time fails a monitor_id state buffer)
  unfolding flush_state
  flush_found-Emptied a monitor_id state [] h k =
      nothing-Emptied a monitor_id (buffered_found a monitor_id (some state) h ∙ k)
  flush_found-Emptied a monitor_id state (first ∷ rest) h k =
      if-Emptied a monitor_id
        (fails (record first {
          reason = build_digest_message format_time fails first state;
          status = healthy;
        }))
        _ _ (set_state-Emptied a monitor_id state _ _ _ h refl)
        (set_state-Emptied a monitor_id state _ _ _ h refl)

  flush_one-Emptied :
      (a : BufferedNtfyAlerter) (monitor_id : String) (found : Option MonitorAlertState)
      → get monitor_id a.states ≡ found
      → Emptied monitor_id a (flush_found format_time fails a monitor_id found)
  flush_one-Emptied a monitor_id none h =
      nothing-Emptied a monitor_id (buffered_found a monitor_id none h)
  flush_one-Emptied a monitor_id (some state) h =
      flush_found-Emptied a monitor_id state state.degraded_buffer h refl

  flush_digest_for_monitor-Emptied :
      (a : BufferedNtfyAlerter) (monitor_id : String)
      → Emptied monitor_id a (flush_digest_for_monitor format_time fails a monitor_id)
  unfolding flush_digest_for_monitor
  flush_digest_for_monitor-Emptied a monitor_id =
      flush_one-Emptied a monitor_id (get monitor_id a.states) refl

  flush_all-empties :
      (a : BufferedNtfyAlerter) (ids : List String)
      → ((j : String)
          → buffered (flush_all format_time fails a ids).alerter j
            ≡ (if contains ids j then [] else buffered a j))
        × (keys (flush_all format_time fails a ids).alerter.states ≡ keys a.states)
  unfolding flush_all Emptied
  flush_all-empties a [] = (λ j. refl, refl)
  flush_all-empties a (id ∷ ids) =
      let one = flush_digest_for_monitor-Emptied a id in
      let others =
        flush_all-empties (flush_digest_for_monitor format_time fails a id).alerter ids in
      (λ j. ground (arith, one.0 j, others.0 j), others.1 ∙ one.1)

  found_nothing :
      (a : BufferedNtfyAlerter) (monitor_id : String) (found : Option MonitorAlertState)
      → (or_new found).degraded_buffer ≡ []
      → flush_found format_time fails a monitor_id found
        ≡ record { alerter = a; alerts = []; failed = false }
  found_nothing a monitor_id none h = refl
  found_nothing a monitor_id (some state) h = rw h refl

  flush_nothing :
      (a : BufferedNtfyAlerter) (monitor_id : String)
      → buffered a monitor_id ≡ []
      → flush_digest_for_monitor format_time fails a monitor_id
        ≡ record { alerter = a; alerts = []; failed = false }
  unfolding flush_digest_for_monitor
  flush_nothing a monitor_id h =
      found_nothing a monitor_id (get monitor_id a.states)
        (sym (buffered_found a monitor_id _ refl) ∙ h)

  flush_all_nothing :
      (a : BufferedNtfyAlerter) (ids : List String)
      → ((j : String) → buffered a j ≡ [])
      → (flush_all format_time fails a ids).alerts ≡ []
  unfolding flush_all
  flush_all_nothing a [] h = refl
  flush_all_nothing a (id ∷ ids) h = rw (flush_nothing a id (h id)) (flush_all_nothing a ids h)

  -- After a flush no monitor has collected alerts left, whether the digests were delivered or not, so a
  -- second flush sends nothing.
  pub flush_digest_twice :
      (a : BufferedNtfyAlerter)
      → ((j : String)
          → (get_or_create_state (flush_digest format_time fails a).alerter j).degraded_buffer ≡ [])
        × ((flush_digest format_time fails (flush_digest format_time fails a).alerter).alerts ≡ [])
  unfolding flush_digest
  flush_digest_twice a =
      let empty : (j : String) → buffered (flush_digest format_time fails a).alerter j ≡ [] =
        λ j. (flush_all-empties a (keys a.states)).0 j ∙ known_or_empty a j in
      (empty, flush_all_nothing _ _ empty)
