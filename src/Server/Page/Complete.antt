-- ===== src/Server/Page/Complete.antt =====
-- Which monitors the status page shows.
use eyrie.Base.{
  length, if◌then◌else◌, Bool-cases, pair_eq, count-sort_by, ℕ, String, ◌≡◌, refl, ap, ap₂, ◌∙◌,
  inl, inr, Bool, true, false, not, ◌&&◌, ◌||◌, Option, none, some, List, [], ◌∷◌, ◌++◌, map, arith,
  ltb, ◌==◌, nat_eq, string_eq, str_eq_iff, Option-cases, keep, count, count-append, contains, Map,
  get, put, get-put,
}
use eyrie.Monitor.{Monitor, Group, MonitorConfig}
use eyrie.Ingester.Tables.{Tables}
use eyrie.Uptime.Summaries.{UptimeDataHistorical}
use eyrie.Server.Uptime.{ReadEnv, DailyCache}
use eyrie.Server.Page.{
  UptimeDataHandlerMonitorType, single_monitor, monitor_group, UptimeDataHandlerMonitorGroup,
  index_monitors, group_monitors, in_group, fetch_all, by_group_id, shown_group, shown_single,
  shown_groups, single_monitor_of, build_uptime_data_response,
}

abbrev is_configured : List Monitor → String → Bool
is_configured monitors n = contains (map (λ m. m.id) monitors) n

abbrev is_found {ℓ} : {A : Type ℓ} → Option A → Bool
is_found none = false
is_found (some _) = true

abbrev pub some_of {ℓ} : {A : Type ℓ} → (A → Bool) → List A → Bool
some_of p xs = ltb 0 (count p xs)

-- Whether a monitor is among those of a group.
abbrev pub shows : String → UptimeDataHandlerMonitorGroup → Bool
shows n g = some_of (λ s. s.id == n) g.monitors

abbrev pub is_single : UptimeDataHandlerMonitorType → Bool
is_single single_monitor = true
is_single monitor_group = false

-- An index of monitors by their own IDs.
abbrev Indexed : Map String Monitor → Type 0
Indexed by_id = (n : String) (m : Monitor) → get n by_id ≡ some m → m.id ≡ n

put-Indexed :
    (m : Monitor) (by_id : Map String Monitor) → Indexed by_id → Indexed (put m.id m by_id)
put-Indexed m by_id ix n found h =
    let p = get-put m.id n m by_id in grind (arith, ix n found, str_eq_iff m.id n)

index_monitors-Indexed :
    (monitors : List Monitor) (by_id : Map String Monitor)
    → Indexed by_id
    → Indexed (index_monitors monitors by_id)
unfolding index_monitors
index_monitors-Indexed [] by_id ix = ix
index_monitors-Indexed (m ∷ monitors) by_id ix =
    index_monitors-Indexed monitors (put m.id m by_id) (put-Indexed m by_id ix)

is_found-index_monitors :
    (n : String) (monitors : List Monitor) (by_id : Map String Monitor)
    → is_found (get n (index_monitors monitors by_id))
      ≡ is_configured monitors n || is_found (get n by_id)
unfolding index_monitors
is_found-index_monitors n [] by_id = refl
is_found-index_monitors n (m ∷ monitors) by_id =
    ground (arith, is_found-index_monitors n monitors (put m.id m by_id), get-put m.id n m by_id)

some_of-cons {ℓ} :
    {A : Type ℓ} (p : A → Bool) (x : A) (xs : List A) → some_of p (x ∷ xs) ≡ p x || some_of p xs
some_of-cons p x xs = ground arith

some_of-append {ℓ} :
    {A : Type ℓ} (p : A → Bool) (xs ys : List A)
    → some_of p (xs ++ ys) ≡ some_of p xs || some_of p ys
some_of-append p xs ys = ground (arith, count-append p xs ys)

module _ (by_id : Map String Monitor) (fetched : Map String UptimeDataHistorical) (n : String)
    (ix : Indexed by_id) where
  some_of-group_monitors :
      (ids : List String)
      → some_of (λ s. s.id == n) (group_monitors by_id fetched ids)
        ≡ contains ids n && is_found (get n by_id)
  unfolding group_monitors single_monitor_of
  some_of-group_monitors [] = refl
  some_of-group_monitors (i ∷ ids) = elim (Option-cases (get i by_id)) [
    | inl h ↦ rw (group_monitors, h) (ground (arith, h, str_eq_iff i n, some_of-group_monitors ids))
    | inr (m, h) ↦
        rw (group_monitors, h)
          (ground (arith, h, ix i m h, str_eq_iff i n, some_of-group_monitors ids))
  ]

  some_of-shown_group :
      (groups : List Group)
      → some_of (shows n) (map (shown_group by_id fetched) groups)
        ≡ in_group groups n && is_found (get n by_id)
  unfolding shown_group in_group
  some_of-shown_group [] = refl
  some_of-shown_group (g ∷ groups) =
      ground (arith, some_of-group_monitors g.monitor_ids, some_of-shown_group groups)

some_of-shown_single :
    (fetched : Map String UptimeDataHistorical) (n : String) (groups : List Group)
    (monitors : List Monitor)
    → some_of
        (shows n)
        (map (shown_single fetched) (keep (λ m. not (in_group groups m.id)) monitors))
      ≡ is_configured monitors n && not (in_group groups n)
unfolding shown_single single_monitor_of
some_of-shown_single fetched n groups [] = refl
some_of-shown_single fetched n groups (m ∷ monitors) =
    ground (arith, str_eq_iff m.id n, some_of-shown_single fetched n groups monitors)

grouped_or_single : (c g : Bool) → (g && (c || false)) || (c && not g) ≡ c
grouped_or_single false false = refl
grouped_or_single false true = refl
grouped_or_single true false = refl
grouped_or_single true true = refl

-- An entry for the one monitor with an ID.
abbrev pub stands_alone : String → UptimeDataHandlerMonitorGroup → Bool
stands_alone n g = is_single g.kind && g.id == n && length g.monitors == 1 && shows n g

some_of-in_group :
    (n : String) (groups : List Group)
    → in_group groups n ≡ some_of (λ g. contains g.monitor_ids n) groups
unfolding in_group
some_of-in_group n [] = refl
some_of-in_group n (g ∷ groups) = ground (arith, some_of-in_group n groups)

no_group_alone :
    (by_id : Map String Monitor) (fetched : Map String UptimeDataHistorical) (n : String)
    (groups : List Group)
    → count (stands_alone n) (map (shown_group by_id fetched) groups) ≡ 0
unfolding shown_group
no_group_alone by_id fetched n [] = refl
no_group_alone by_id fetched n (g ∷ groups) = ground (arith, no_group_alone by_id fetched n groups)

single_alone :
    (fetched : Map String UptimeDataHistorical) (n : String) (m : Monitor)
    → stands_alone n (shown_single fetched m) ≡ (m.id == n)
unfolding shown_single single_monitor_of
single_alone fetched n m = elim (Bool-cases (m.id == n)) [
  | inl e ↦ rw (e, stands_alone) (ground (arith, e))
  | inr e ↦ rw e (ground (arith, e))
]

singles_alone :
    (fetched : Map String UptimeDataHistorical) (n : String) (groups : List Group)
    (monitors : List Monitor)
    → count
        (stands_alone n)
        (map (shown_single fetched) (keep (λ m. not (in_group groups m.id)) monitors))
      ≡ (if in_group groups n then 0 else count (λ m. m.id == n) monitors)
singles_alone fetched n groups [] = ground arith
singles_alone fetched n groups (m ∷ monitors) =
    ground
      (arith, str_eq_iff m.id n, single_alone fetched n m, singles_alone fetched n groups monitors)

-- The status page shows exactly the configured monitors, whatever the groups say and whatever fails: an
-- ID of a group that is not configured is left out.  An ID that no group lists has one entry of its own
-- for each configured monitor with it, and an ID that a group lists has no entry of its own.
pub build_uptime_data_response_complete :
    (env : String → ReadEnv) (now : ℕ) (config : MonitorConfig) (db : Tables) (cache : DailyCache)
    (n : String)
    → let shown = (build_uptime_data_response env now config db cache).1.monitors in
      (some_of (shows n) shown ≡ contains (map (λ m. m.id) config.monitors) n)
      × (count (stands_alone n) shown ≡ (
          if some_of (λ g. contains g.monitor_ids n) config.groups
          then 0
          else count (λ m. m.id == n) config.monitors))
unfolding build_uptime_data_response shown_groups get
build_uptime_data_response_complete env now config db cache n =
    let fetched = (fetch_all env config.monitors config.monitors db cache []).1 in
    let by_id = index_monitors config.monitors [] in
    let gs = map (shown_group by_id fetched) config.groups in
    let ss =
      map (shown_single fetched) (keep (λ m. not (in_group config.groups m.id)) config.monitors) in
    (
      ap (ltb 0) (count-sort_by by_group_id (shows n) (gs ++ ss))
          ∙ some_of-append (shows n) gs ss
          ∙ ap₂ (λ a b. a || b)
              (some_of-shown_group by_id fetched n
                  (index_monitors-Indexed config.monitors [] (λ i m h. ground arith)) config.groups
                ∙ ap (λ f. in_group config.groups n && f)
                    (is_found-index_monitors n config.monitors []))
              (some_of-shown_single fetched n config.groups config.monitors)
          ∙ grouped_or_single (is_configured config.monitors n) (in_group config.groups n),
      count-sort_by by_group_id (stands_alone n) (gs ++ ss)
          ∙ count-append (stands_alone n) gs ss
          ∙ omega (
            arith,
            no_group_alone by_id fetched n config.groups,
            singles_alone fetched n config.groups config.monitors
                ∙ ap (λ b. if b then 0 else count (λ m. m.id == n) config.monitors)
                    (some_of-in_group n config.groups),
          ),
    )
