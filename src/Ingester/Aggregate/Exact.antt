-- ===== src/Ingester/Aggregate/Exact.antt =====
-- When a stored aggregate is the one that its rows give.
use eyrie.Base.{
  pair_eq, unique_from, contains-unique_from, ℕ, String, ◌≡◌, refl, ap, ◌∙◌, inl, inr, Bool, true,
  false, ◌&&◌, some, List, [], ◌∷◌, map, arith, ◌==◌, nat_eq, string_eq, str_eq_iff, if◌then◌else◌,
  Bool-cases, keep, contains, get, get-put, get-put_self,
}
use eyrie.History.{MonitorHistorical}
use eyrie.Ingester.Tables.{Sql, insert_row}
use eyrie.Ingester.Aggregate.{
  SuccessCountExpression, DailyTable, RegionTable, daily_aggregate, region_daily_aggregate,
  upsert_daily, upsert_region, upsert_regions, of_region,
}

-- Without rows the statements say nothing.
abbrev pub DailyExact :
    Sql → SuccessCountExpression → String → ℕ → List MonitorHistorical → DailyTable → Type 0
DailyExact sql e id date [] table = Unit
DailyExact sql e id date (h ∷ rest) table =
    get (id, date) table ≡ some (daily_aggregate sql e id date h rest)

abbrev pub RegionExact :
    Sql
    → SuccessCountExpression
    → String
    → String
    → ℕ
    → List MonitorHistorical
    → RegionTable
    → Type 0
RegionExact sql e id region date [] table = Unit
RegionExact sql e id region date (h ∷ rest) table =
    get ((id, region), date) table ≡ some (region_daily_aggregate sql e id region date h rest)

keep-of_region :
    (rows : List MonitorHistorical) (region : String)
    → contains (map (λ h. h.region) rows) region ≡ false
    → keep (of_region region) rows ≡ []
unfolding of_region
keep-of_region [] region h = refl
keep-of_region (r ∷ rows) region h = ground (arith, keep-of_region rows region)

-- A row that the WHERE clause does not select changes nothing for it.
pub keep-insert_row :
    (p : MonitorHistorical → Bool) (row : MonitorHistorical) (rows : List MonitorHistorical)
    → p row ≡ false
    → keep p (insert_row row rows) ≡ keep p rows
unfolding insert_row
keep-insert_row p row [] h = ground arith
keep-insert_row p row (r ∷ rows) h = ground (arith, keep-insert_row p row rows)

module _ (sql : Sql) (e : SuccessCountExpression) where
  pub upsert_daily-DailyExact :
      (id : String) (date : ℕ) (rows : List MonitorHistorical) (table : DailyTable)
      → DailyExact sql e id date rows (upsert_daily sql e id date rows table)
  unfolding upsert_daily
  upsert_daily-DailyExact id date [] table = tt
  upsert_daily-DailyExact id date (h ∷ rest) table =
      get-put_self (id, date) (daily_aggregate sql e id date h rest) table

  -- Another monitor's day, or another day, is not touched.
  pub upsert_daily_other :
      (id : String) (date : ℕ) (id' : String) (date' : ℕ) (rows : List MonitorHistorical)
      (table : DailyTable)
      → (id' == id && date' == date) ≡ false
      → get (id, date) (upsert_daily sql e id' date' rows table) ≡ get (id, date) table
  unfolding upsert_daily
  upsert_daily_other id date id' date' [] table h = refl
  upsert_daily_other id date id' date' (r ∷ rest) table h =
      get-put (id', date') (id, date) (daily_aggregate sql e id' date' r rest) table
      ∙ ap (λ b. if b then some (daily_aggregate sql e id' date' r rest) else get (id, date) table)
          h

  upsert_region-RegionExact :
      (id region : String) (date : ℕ) (rows : List MonitorHistorical) (table : RegionTable)
      → RegionExact sql e id region date rows (upsert_region sql e id region date rows table)
  unfolding upsert_region
  upsert_region-RegionExact id region date [] table = tt
  upsert_region-RegionExact id region date (h ∷ rest) table =
      get-put_self ((id, region), date) (region_daily_aggregate sql e id region date h rest) table

  upsert_region_other :
      (id region : String) (date : ℕ) (id' region' : String) (date' : ℕ)
      (rows : List MonitorHistorical) (table : RegionTable)
      → ((id' == id && region' == region) && date' == date) ≡ false
      → get ((id, region), date) (upsert_region sql e id' region' date' rows table)
        ≡ get ((id, region), date) table
  unfolding upsert_region
  upsert_region_other id region date id' region' date' [] table h = refl
  upsert_region_other id region date id' region' date' (r ∷ rest) table h =
      get-put ((id', region'), date') ((id, region), date)
        (region_daily_aggregate sql e id' region' date' r rest) table
      ∙ ap
          (λ b.
            if b
            then some (region_daily_aggregate sql e id' region' date' r rest)
            else get ((id, region), date) table)
          h

  pub upsert_regions_other :
      (id region : String) (date : ℕ) (id' : String) (date' : ℕ) (regions : List String)
      (rows : List MonitorHistorical) (table : RegionTable)
      → (id' == id && date' == date && contains regions region) ≡ false
      → get ((id, region), date) (upsert_regions sql e id' regions date' rows table)
        ≡ get ((id, region), date) table
  unfolding upsert_regions
  upsert_regions_other id region date id' date' [] rows table h = refl
  upsert_regions_other id region date id' date' (r ∷ rest) rows table h =
      upsert_regions_other id region date id' date' rest rows
        (upsert_region sql e id' r date' (keep (of_region r) rows) table) (ground arith)
      ∙ upsert_region_other id region date id' r date' (keep (of_region r) rows) table
          (ground arith)

  pub RegionExact-eq :
      (id region : String) (date : ℕ) (rows : List MonitorHistorical) (table table' : RegionTable)
      → get ((id, region), date) table' ≡ get ((id, region), date) table
      → RegionExact sql e id region date rows table
      → RegionExact sql e id region date rows table'
  RegionExact-eq id region date [] table table' eq x = tt
  RegionExact-eq id region date (h ∷ rest) table table' eq x = eq ∙ x

  upsert_regions_listed :
      (id region : String) (date : ℕ) (regions : List String) (rows : List MonitorHistorical)
      (table : RegionTable)
      → contains regions region ≡ true
      → RegionExact sql e id region date
          (keep (of_region region) rows)
          (upsert_regions sql e id regions date rows table)
  unfolding upsert_regions
  upsert_regions_listed id region date [] rows table h = cc
  upsert_regions_listed id region date (r ∷ rest) rows table h =
      elim (Bool-cases (contains rest region)) [
        | inl later ↦ upsert_regions_listed id region date rest rows _ later
        | inr last ↦
            let same : r ≡ region = ground (arith, str_eq_iff r region) in
            rw same (
              RegionExact-eq id region date (keep (of_region region) rows) _ _
                (upsert_regions_other id region date id date rest rows _ (rw last (ground arith)))
                (upsert_region-RegionExact id region date (keep (of_region region) rows) table))
      ]

  pub upsert_regions-RegionExact :
      (id region : String) (date : ℕ) (rows : List MonitorHistorical) (table : RegionTable)
      → RegionExact sql e id region date
          (keep (of_region region) rows)
          (upsert_regions sql e id (unique_from [] (map (λ h. h.region) rows)) date rows table)
  upsert_regions-RegionExact id region date rows table =
      elim (Bool-cases (contains (map (λ h. h.region) rows) region)) [
        | inl there ↦
            upsert_regions_listed id region date (unique_from [] (map (λ h. h.region) rows)) rows
              table (contains-unique_from region (map (λ h. h.region) rows) ∙ there)
        | inr absent ↦ rw (keep-of_region rows region absent) tt
      ]

  -- Exactness depends on the entry alone.
  pub DailyExact-eq :
      (id : String) (date : ℕ) (rows : List MonitorHistorical) (table table' : DailyTable)
      → get (id, date) table' ≡ get (id, date) table
      → DailyExact sql e id date rows table
      → DailyExact sql e id date rows table'
  DailyExact-eq id date [] table table' eq x = tt
  DailyExact-eq id date (h ∷ rest) table table' eq x = eq ∙ x
