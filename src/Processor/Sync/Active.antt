-- ===== src/Processor/Sync/Active.antt =====
-- How many programmatic incidents of a monitor are open.
use mathlib.Core.Path.{subst}
use eyrie.Base.{
  ℕ, ◌+◌, ◌≤◌, ◌<◌, String, ◌≡◌, refl, sym, ap, ◌∙◌, ◌⊎◌, inl, inr, Bool, true, false, ◌&&◌, Option,
  none, some, List, [], ◌∷◌, ◌++◌, arith, ltb, ◌==◌, nat_eq, string_eq, if◌then◌else◌, Bool-cases,
  length, keep, count, count-append, equality_refl,
}
use eyrie.Monitor.{Monitor}
use eyrie.History.{MonitorIncident}
use eyrie.Incident.{JsonCodec, IncidentEvaluation, has_active_incident}
use eyrie.Processor.Db.{Db, Env}
use eyrie.Processor.Incidents.{
  is_active, later_started, latest_started, load_active_programmatic_incident, update_where,
  resolved_incident, updated_incident, new_incident, create_programmatic_incident,
  update_programmatic_incident, resolve_programmatic_incident,
}
use eyrie.Processor.Sync.{with_id, sync_programmatic_incident, sync_found}

-- Each monitor has at most one open programmatic incident.
abbrev pub OneActive : Db → Type 0
OneActive db = (monitor_id : String) → count (is_active monitor_id) db.incidents ≤ 1

length-keep-eq-count :
    (p : MonitorIncident → Bool) (l : List MonitorIncident) → length (keep p l) ≡ count p l
length-keep-eq-count p [] = refl
length-keep-eq-count p (i ∷ l) = ground (arith, length-keep-eq-count p l)

later_cases :
    (j : MonitorIncident) (o : Option MonitorIncident)
    → (later_started j o ≡ j) ⊎ (o ≡ some (later_started j o))
later_cases j none = inl refl
later_cases j (some k) = elim (Bool-cases (ltb j.started_at k.started_at)) [
  | inl e ↦ inr (rw e)
  | inr e ↦ inl (rw e)
]

-- Whether the incident is among those of the list that pass the test, by its id.
abbrev pub count_id : (MonitorIncident → Bool) → String → List MonitorIncident → ℕ
count_id p id = count (λ j. p j && j.id == id)

pub latest_started-keep :
    (p : MonitorIncident → Bool) (l : List MonitorIncident) (i : MonitorIncident)
    → latest_started (keep p l) ≡ some i
    → (p i ≡ true) × (0 < count_id p i.id l)
unfolding latest_started
latest_started-keep p [] i h = cc
latest_started-keep p (j ∷ l) i h = elim (Bool-cases (p j)) [
  | inr skip ↦
      let rest = latest_started-keep p l i (ground (arith, skip, h)) in
      ground (arith, skip, rest.0, rest.1)
  | inl hit ↦
      let at : later_started j (latest_started (keep p l)) ≡ i = ground (arith, hit, h) in
      elim (later_cases j (latest_started (keep p l))) [
        | inl e ↦
            let same : j ≡ i = sym e ∙ at in
            subst (λ k. (p k ≡ true) × (0 < count_id p k.id (j ∷ l))) same
              (hit, ground (arith, hit, equality_refl j.id))
        | inr e ↦
            let rest = latest_started-keep p l i (e ∙ ap some at) in
            (rest.0, ground (arith, hit, rest.1))
      ]
]

module _ (env : Env) (monitor_id : String) where
  -- Resolving the rows with an id closes just the open ones among them.
  count-resolve :
      (id : String) (l : List MonitorIncident)
      → count (is_active monitor_id) (update_where id (resolved_incident env) l)
          + count_id (is_active monitor_id) id l
        ≡ count (is_active monitor_id) l
  unfolding update_where resolved_incident is_active
  count-resolve id [] = refl
  count-resolve id (j ∷ l) = ground (arith, count-resolve id l)

  count-update :
      (json : JsonCodec) (monitor : Monitor) (e : IncidentEvaluation) (i : MonitorIncident)
      (l : List MonitorIncident)
      → count (is_active monitor_id) (update_where i.id (updated_incident json env i monitor e) l)
        ≡ count (is_active monitor_id) l
  unfolding update_where updated_incident is_active
  count-update json monitor e i [] = refl
  count-update json monitor e i (j ∷ l) = ground (arith, count-update json monitor e i l)

pub latest_started-none :
    (p : MonitorIncident → Bool) (l : List MonitorIncident)
    → latest_started (keep p l) ≡ none
    → count p l ≡ 0
unfolding latest_started
latest_started-none p [] h = refl
latest_started-none p (j ∷ l) h = ground (arith, latest_started-none p l)

count-new :
    (json : JsonCodec) (env : Env) (monitor : Monitor) (e : IncidentEvaluation) (id : String)
    → count (is_active id) (new_incident json env monitor e ∷ [])
      ≡ (if monitor.id == id then 1 else 0)
unfolding new_incident is_active
count-new json env monitor e id = ground arith

count_id-le :
    (p : MonitorIncident → Bool) (id : String) (l : List MonitorIncident)
    → count_id p id l ≤ count p l
count_id-le p id [] = omega arith
count_id-le p id (j ∷ l) = ground (arith, count_id-le p id l)

pub incidents-resolve :
    (env : Env) (i : MonitorIncident) (db : Db) (id : String) (db' : Db)
    → with_id i.id (resolve_programmatic_incident env i db) ≡ some (id, db')
    → db'.incidents ≡ update_where i.id (resolved_incident env) db.incidents
unfolding resolve_programmatic_incident
incidents-resolve env i db id db' h = ground arith

pub incidents-update :
    (json : JsonCodec) (env : Env) (i : MonitorIncident) (monitor : Monitor)
    (e : IncidentEvaluation) (db : Db) (id : String) (db' : Db)
    → with_id i.id (update_programmatic_incident json env i monitor e db) ≡ some (id, db')
    → db'.incidents ≡ update_where i.id (updated_incident json env i monitor e) db.incidents
unfolding update_programmatic_incident
incidents-update json env i monitor e db id db' h = ground arith

pub incidents-create :
    (json : JsonCodec) (env : Env) (monitor : Monitor) (e : IncidentEvaluation) (db : Db)
    (id : String) (db' : Db)
    → create_programmatic_incident json env monitor e db ≡ some (id, db')
    → db'.incidents ≡ db.incidents ++ new_incident json env monitor e ∷ []
unfolding create_programmatic_incident
incidents-create json env monitor e db id db' h = ground arith

-- The number of open incidents of a monitor after the switch, where at most one was open: one for
-- the evaluated monitor if the evaluation is an incident and none if not; no more for any other.
abbrev After : Monitor → Bool → Db → Db → Type 0
After monitor active db db' =
    (count (is_active monitor.id) db'.incidents ≡ (if active then 1 else 0))
    × ((j : String)
        → (monitor.id == j) ≡ false
        → count (is_active j) db'.incidents ≤ count (is_active j) db.incidents)

sync_found-After :
    (json : JsonCodec) (env : Env) (monitor : Monitor) (e : IncidentEvaluation) (db : Db)
    (active : Bool) (found : Option MonitorIncident) (id : String) (db' : Db)
    → OneActive db
    → latest_started (keep (is_active monitor.id) db.incidents) ≡ found
    → sync_found json env monitor e db active found ≡ some (id, db')
    → After monitor active db db'
unfolding sync_found
sync_found-After json env monitor e db false none id db' one f h = (
  ground (arith, latest_started-none (is_active monitor.id) db.incidents f),
  λ j ne. ground arith,
)
sync_found-After json env monitor e db false (some i) id db' one f h =
    let hit = latest_started-keep (is_active monitor.id) db.incidents i f in
    rw (incidents-resolve env i db id db' h) (
      omega (arith, hit.1, one monitor.id, count-resolve env monitor.id i.id db.incidents),
      λ j ne. omega (arith, count-resolve env j i.id db.incidents),
    )
sync_found-After json env monitor e db true none id db' one f h =
    rw (incidents-create json env monitor e db id db' h) (
      ground (
        arith,
        latest_started-none (is_active monitor.id) db.incidents f,
        count-append (is_active monitor.id) db.incidents (new_incident json env monitor e ∷ []),
        count-new json env monitor e monitor.id,
        equality_refl monitor.id,
      ),
      λ j ne. ground (
        arith,
        count-append (is_active j) db.incidents (new_incident json env monitor e ∷ []),
        count-new json env monitor e j,
      ),
    )
sync_found-After json env monitor e db true (some i) id db' one f h =
    let hit = latest_started-keep (is_active monitor.id) db.incidents i f in
    rw (incidents-update json env i monitor e db id db' h) (
      omega (
        arith,
        hit.1,
        one monitor.id,
        count_id-le (is_active monitor.id) i.id db.incidents,
        count-update env monitor.id json monitor e i db.incidents,
      ),
      λ j ne. omega (arith, count-update env j json monitor e i db.incidents),
    )

-- A successful sync leaves the evaluated monitor with one open programmatic incident if the
-- evaluation is an incident and with none if it is healthy, and opens none for any other monitor,
-- provided that the monitor had at most one before.
pub sync_open_incidents :
    (json : JsonCodec) (env : Env) (monitor : Monitor) (e : IncidentEvaluation) (db : Db)
    (id : String) (db' : Db)
    → OneActive db
    → sync_programmatic_incident json env monitor e db ≡ some (id, db')
    → (count (is_active monitor.id) db'.incidents ≡ (if has_active_incident e then 1 else 0))
      × ((j : String)
          → (monitor.id == j) ≡ false
          → count (is_active j) db'.incidents ≤ count (is_active j) db.incidents)
unfolding sync_programmatic_incident load_active_programmatic_incident
sync_open_incidents json env monitor e db id db' one h =
    sync_found-After json env monitor e db (has_active_incident e)
      (latest_started (keep (is_active monitor.id) db.incidents)) id db' one refl (ground arith)
