-- ===== src/Ingester/Queue/Keys.antt =====
-- The keys under which tasks are queued.
use Prim.Native.String.{◌++◌}
use eyrie.Base.{
  pair_eq, contains_char, split_at_last, ℕ, ◌*◌, ◌/◌, String, ◌≡◌, sym, ap, ap₂, ◌∙◌, ◌↔◌, false,
  arith, nat_eq, string_eq,
}
use eyrie.Monitor.{day}
use eyrie.Ingester.Queue.{Calendar, normalize_aggregation_date, aggregation_task_key}

-- What the key needs of the date texts: no bar in them, and different texts for different days.
pub record CalendarLaws (calendar : Calendar) : Type 0 where
  pub no_bar : (date : ℕ) → contains_char "|" (calendar.format_date date) ≡ false
  pub injective :
      (i j : ℕ) → calendar.format_date (i * day) ≡ calendar.format_date (j * day) → i ≡ j

pub normalize_again :
    (t : ℕ)
    → normalize_aggregation_date (normalize_aggregation_date t) ≡ normalize_aggregation_date t
unfolding normalize_aggregation_date
normalize_again t = omega arith

normalize-eq : (t : ℕ) → normalize_aggregation_date t ≡ t / day * day
unfolding normalize_aggregation_date
normalize-eq t = omega arith

module _ (calendar : Calendar) (laws : CalendarLaws calendar) where
  same_day :
      (t u : ℕ)
      → calendar.format_date (normalize_aggregation_date t)
        ≡ calendar.format_date (normalize_aggregation_date u)
      → normalize_aggregation_date t ≡ normalize_aggregation_date u
  same_day t u e =
      normalize-eq t
      ∙ ap (λ i. i * day)
          (laws.injective (t / day) (u / day) (
            sym (ap calendar.format_date (normalize-eq t))
            ∙ e
            ∙ ap calendar.format_date (normalize-eq u)))
      ∙ sym (normalize-eq u)

  -- Two submissions share a queue entry exactly when they are of one monitor and one UTC day, whatever
  -- characters the monitor's id has.
  pub aggregation_task_key_unique :
      (id id' : String) (t t' : ℕ)
      → (aggregation_task_key calendar id t ≡ aggregation_task_key calendar id' t')
        ↔ ((id ≡ id') × (normalize_aggregation_date t ≡ normalize_aggregation_date t'))
  unfolding aggregation_task_key
  aggregation_task_key_unique id id' t t' = (
    λ e.
        let parts =
          split_at_last "|" id id' (calendar.format_date (normalize_aggregation_date t))
            (calendar.format_date (normalize_aggregation_date t')) (laws.no_bar _) (laws.no_bar _)
            e in
        (parts.0, same_day t t' parts.1),
    λ p. ap₂ (λ i d. i ++ String.◌∷◌ "|" (calendar.format_date d)) p.0 p.1,
  )
