-- ===== src/Ingester/Queue/Order.antt =====
-- The order in which tasks are drained.
use eyrie.Base.{
  pair_eq, LinearOrder, Ascending, sort_by-Perm, sort_by-Ascending, String-discrete, ◌≡◌, ap, true,
  false, [], map, Perm, arith, nat_eq, string_eq, text_leb_total, text_leb_antisymm, text_leb_trans,
}
use mathlib.Core.List.Perm
use native.Mathlib.Decide.{ℕ_discrete}
use eyrie.Ingester.Queue.{AggregationTask, TaskQueue, less, not_after, drain_aggregation_tasks}

task_le_total : (a b : AggregationTask) → not_after a b ≡ false → not_after b a ≡ true
unfolding not_after less
task_le_total a b h = ground (arith, text_leb_total a.monitor_id b.monitor_id)

task_le_antisymm : (a b : AggregationTask) → not_after a b ≡ true → not_after b a ≡ true → a ≡ b
unfolding not_after less
task_le_antisymm a b h k = ground (arith, text_leb_antisymm a.monitor_id b.monitor_id)

task_le_trans :
    (a b c : AggregationTask) → not_after a b ≡ true → not_after b c ≡ true → not_after a c ≡ true
unfolding not_after less
task_le_trans a b c h k = ground (arith, text_leb_trans a.monitor_id b.monitor_id c.monitor_id)

abbrev task_order : LinearOrder AggregationTask
task_order = record {
  le = not_after;
  le_total = task_le_total;
  le_antisymm = task_le_antisymm;
  le_trans = task_le_trans;
}

AggregationTask-discrete : Discrete AggregationTask
AggregationTask-discrete = hlevel (String-discrete, ℕ_discrete)

-- The drained tasks come by date, and within a day by monitor, and the order in which Go walks
-- the map has no influence: two queues with the same entries in any order are drained to the same list.
pub drain_sorted :
    (q q' : TaskQueue)
    → Perm q q'
    → Ascending not_after (drain_aggregation_tasks q).0
      × (drain_aggregation_tasks q ≡ drain_aggregation_tasks q')
unfolding drain_aggregation_tasks
drain_sorted q q' p = (
  sort_by-Ascending task_order (map (λ entry. entry.1) q),
  ap (λ l. (l, []))
      (sort_by-Perm task_order AggregationTask-discrete (Perm.map (λ entry. entry.1) p)),
)
