-- ===== src/Processor/Incidents/Manual.antt =====
-- What an operator wrote into an incident stays over the updates that follow.
use eyrie.Base.{
  String, ◌≡◌, refl, sym, ◌∙◌, false, List, [], ◌∷◌, ◌++◌, arith, ◌==◌, nat_eq, string_eq,
  str_eq_iff,
}
use eyrie.Monitor.{Monitor}
use eyrie.History.{MonitorIncident}
use eyrie.Incident.{JsonCodec, IncidentEvaluation, programmatic_title}
use eyrie.Processor.Db.{Env}
use eyrie.Processor.Incidents.{preserve_manual_string, updated_incident}

module _ (json : JsonCodec) (monitor : Monitor) where
  -- The row after a sequence of updates.
  abbrev pub updates : MonitorIncident → List (Env × IncidentEvaluation) → MonitorIncident
  updates i [] = i
  updates i ((env, e) ∷ rest) = updates (updated_incident json env i monitor e i) rest

  -- No verdict of the sequence generates this title.
  abbrev pub NeverGenerated : String → List (Env × IncidentEvaluation) → Type 0
  NeverGenerated title [] = Unit
  NeverGenerated title ((env, e) ∷ rest) =
      ((title == programmatic_title e monitor) ≡ false) × NeverGenerated title rest

  kept_once :
      (env : Env) (i : MonitorIncident) (e : IncidentEvaluation) (title : String)
      → i.title ≡ title
      → (title == "") ≡ false
      → (title == i.auto_title) ≡ false
      → (updated_incident json env i monitor e i).title ≡ title
  unfolding updated_incident
  kept_once env i e title p h k = unfold preserve_manual_string in rw p (ground (arith, h, k))

  kept_over :
      (title : String) (i : MonitorIncident) (steps : List (Env × IncidentEvaluation))
      → i.title ≡ title
      → (title == "") ≡ false
      → (title == i.auto_title) ≡ false
      → NeverGenerated title steps
      → (updates i steps).title ≡ title
  kept_over title i [] p h k n = p
  kept_over title i ((env, e) ∷ rest) p h k n =
      kept_over title (updated_incident json env i monitor e i) rest (kept_once env i e title p h k)
        h (unfold updated_incident in n.0) n.1

  follows_once :
      (env : Env) (i : MonitorIncident) (e : IncidentEvaluation)
      → i.title ≡ i.auto_title
      → ((updated_incident json env i monitor e i).title ≡ programmatic_title e monitor)
        × ((updated_incident json env i monitor e i).auto_title ≡ programmatic_title e monitor)
  unfolding updated_incident
  follows_once env i e p =
      (unfold preserve_manual_string in ground (arith, (str_eq_iff i.title i.auto_title).1 p), refl)

  -- Over any number of updates, a title that was generated follows the verdicts: after the last of them
  -- it is the title, and the generated title on record, that this verdict generates.
  pub generated_title_follows :
      (i : MonitorIncident) (steps : List (Env × IncidentEvaluation)) (env : Env)
      (e : IncidentEvaluation)
      → i.title ≡ i.auto_title
      → ((updates i (steps ++ (env, e) ∷ [])).title ≡ programmatic_title e monitor)
        × ((updates i (steps ++ (env, e) ∷ [])).auto_title ≡ programmatic_title e monitor)
  generated_title_follows i [] env e p = follows_once env i e p
  generated_title_follows i ((first, d) ∷ rest) env e p =
      let now = follows_once first i d p in
      generated_title_follows (updated_incident json first i monitor d i) rest env e
        (now.0 ∙ sym now.1)

  -- Over any number of updates, a title that an operator wrote stays as it is: one that is not empty, not
  -- the generated one, and not one that the verdicts generate on the way.
  pub manual_title_kept :
      (i : MonitorIncident) (steps : List (Env × IncidentEvaluation))
      → (i.title == "") ≡ false
      → (i.title == i.auto_title) ≡ false
      → NeverGenerated i.title steps
      → (updates i steps).title ≡ i.title
  manual_title_kept i steps = kept_over i.title i steps refl
