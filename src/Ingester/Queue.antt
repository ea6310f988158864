-- ===== src/Ingester/Queue.antt =====
-- worker_ingester.go: the queue of days whose aggregates have to be computed again.
-- The date texts of `time.Time.Format` are a parameter.
pub mod Keys
pub mod Order
use Prim.Native.String.{◌++◌}
use eyrie.Base.{
  pair_eq, contains_char, split_at_last, LinearOrder, sort_by, Ascending, sort_by-Perm,
  sort_by-Ascending, count-sort_by, unique_from, count-unique_from, insert_sorted_comm,
  String-discrete, ℕ, zero, suc, ◌+◌, ◌-◌, ◌*◌, ◌/◌, ◌%◌, ◌≤◌, ◌<◌, String, ◌≡◌, refl, sym, ap, ap₂,
  ◌∙◌, ◌≢◌, ◌↔◌, ◌⊎◌, inl, inr, Bool, true, false, not, ◌&&◌, ◌||◌, Option, none, some, List, [],
  ◌∷◌, map, Perm, arith, ltb, leb, Equality, ◌==◌, nat_eq, string_eq, str_eq_iff, nat_beq_iff,
  if◌then◌else◌, ltb→lt, leb→le, Bool-cases, Option-cases, length, is_empty, length-append, keep,
  length-keep, find_first, count, count-append, All, All-append, contains, concat, join,
  contains_text, trim_space, to_lower, itoa, text_leb, text_leb_total, text_leb_antisymm,
  text_leb_trans, sort, insert_sorted, sort-Perm, sort-sort, Map, get, put, get-put, get-put_self,
  equality_refl, UniqueKeys, put-UniqueKeys, length-put,
}
use eyrie.Monitor.{day}

-- What `Format("2006-01-02")` answers for the first instant of a day.
pub record Calendar : Type 0 where
  pub format_date : ℕ → String

pub record AggregationTask : Type 0 where
  pub monitor_id : String
  pub date : ℕ

abbrev pub TaskQueue : Type 0
TaskQueue = Map String AggregationTask

unfoldable pub normalize_aggregation_date : ℕ → ℕ
normalize_aggregation_date date = date - date % day

unfoldable pub less : AggregationTask → AggregationTask → Bool
less a b = if a.date == b.date then not (text_leb b.monitor_id a.monitor_id) else ltb a.date b.date

-- The order that the sort by `less` leaves behind.
unfoldable pub not_after : AggregationTask → AggregationTask → Bool
unfolding less
not_after a b = not (less b a)

-- The sorted tasks, and the emptied queue.
unfoldable pub drain_aggregation_tasks : TaskQueue → List AggregationTask × TaskQueue
drain_aggregation_tasks queue = (sort_by not_after (map (λ entry. entry.1) queue), [])

module _ (calendar : Calendar) where
  unfoldable pub aggregation_task_key : String → ℕ → String
  aggregation_task_key monitor_id date =
      monitor_id ++ String.◌∷◌ "|" (calendar.format_date (normalize_aggregation_date date))

  unfoldable pub enqueue_aggregation_task : String → ℕ → TaskQueue → TaskQueue
  enqueue_aggregation_task monitor_id date queue =
      let task : AggregationTask = record {
        monitor_id = monitor_id;
        date = normalize_aggregation_date date;
      } in
      put (aggregation_task_key task.monitor_id task.date) task queue
