-- ===== src/Ingester/Interleaving/Due.antt =====
-- Which days will be aggregated again: they are queued, about to be queued, or taken.
use eyrie.Base.{
  pair_eq, count-sort_by, ℕ, ◌≤◌, String, ◌≡◌, inl, inr, Bool, true, false, ◌&&◌, ◌||◌, Option,
  none, some, List, [], ◌∷◌, map, arith, leb, ◌==◌, nat_eq, string_eq, str_eq_iff, Option-cases,
  count, get, get-put,
}
use eyrie.Ingester.Queue.{
  Calendar, AggregationTask, TaskQueue, normalize_aggregation_date, aggregation_task_key,
  enqueue_aggregation_task, drain_aggregation_tasks, not_after,
}
use eyrie.Ingester.Queue.Keys.{CalendarLaws, aggregation_task_key_unique, normalize_again}
use eyrie.Ingester.Interleaving.{Shared}

unfoldable pub is_task : String → ℕ → AggregationTask → Bool
is_task id date task = task.monitor_id == id && task.date == date

abbrev option_is_task : String → ℕ → Option AggregationTask → Bool
option_is_task id date none = false
option_is_task id date (some task) = is_task id date task

-- The queue holds the task of a monitor and of the day of a time.
unfoldable pub is_queued : Calendar → String → ℕ → TaskQueue → Bool
is_queued calendar id t queue =
    option_is_task id (normalize_aggregation_date t)
      (get (aggregation_task_key calendar id t) queue)

abbrev pair_is_task : String → ℕ → Option (String × ℕ) → Bool
pair_is_task id date none = false
pair_is_task id date (some (monitor_id, timestamp)) =
    monitor_id == id && normalize_aggregation_date timestamp == date

unfoldable pub is_inserted : String → ℕ → Option (String × ℕ) → Bool
is_inserted id t inserted = pair_is_task id (normalize_aggregation_date t) inserted

unfoldable pub is_waiting : String → ℕ → List AggregationTask → Bool
is_waiting id t waiting = leb 1 (count (is_task id (normalize_aggregation_date t)) waiting)

unfoldable pub is_current : String → ℕ → Option AggregationTask → Bool
is_current id t current = option_is_task id (normalize_aggregation_date t) current

unfoldable pub is_due : Calendar → String → ℕ → Shared → Bool
is_due calendar id t s =
    is_queued calendar id t s.queue || is_inserted id t s.inserted || is_waiting id t s.waiting

module _ (calendar : Calendar) (laws : CalendarLaws calendar) where
  pub is_queued-enqueue :
      (id id' : String) (t t' : ℕ) (queue : TaskQueue)
      → is_queued calendar id t (enqueue_aggregation_task calendar id' t' queue) ≡ (
          (id' == id && normalize_aggregation_date t' == normalize_aggregation_date t)
          || is_queued calendar id t queue)
  unfolding is_queued enqueue_aggregation_task is_task
  is_queued-enqueue id id' t t' queue = ground (
    arith,
    aggregation_task_key_unique calendar laws id' id (normalize_aggregation_date t') t,
    str_eq_iff id' id,
    str_eq_iff (aggregation_task_key calendar id' (normalize_aggregation_date t'))
        (aggregation_task_key calendar id t),
    normalize_again t',
    get-put (aggregation_task_key calendar id' (normalize_aggregation_date t'))
        (aggregation_task_key calendar id t)
        (record { monitor_id = id'; date = normalize_aggregation_date t' }) queue,
  )

  count-values :
      (p : AggregationTask → Bool) (k : String) (queue : TaskQueue) (task : AggregationTask)
      → get k queue ≡ some task
      → p task ≡ true
      → 1 ≤ count p (map (λ entry. entry.1) queue)
  unfolding get
  count-values p k [] task g h = ground arith
  count-values p k ((j, w) ∷ queue) task g h = ground (arith, count-values p k queue task)

  -- What was queued is among the drained tasks.
  pub is_waiting-drain :
      (id : String) (t : ℕ) (queue : TaskQueue)
      → is_queued calendar id t queue ≡ true
      → is_waiting id t (drain_aggregation_tasks queue).0 ≡ true
  unfolding is_queued is_waiting drain_aggregation_tasks
  is_waiting-drain id t queue h =
      elim (Option-cases (get (aggregation_task_key calendar id t) queue)) [
        | inl e ↦ ground arith
        | inr e ↦ ground (
          arith,
          count-sort_by not_after (is_task id (normalize_aggregation_date t))
              (map (λ entry. entry.1) queue),
          count-values (is_task id (normalize_aggregation_date t))
              (aggregation_task_key calendar id t) queue e.0,
        )
      ]
