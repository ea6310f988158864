-- ===== src/Cleanup/Batch.antt =====
-- The loop over the statements of a day ends, and removes what it says.
use eyrie.Base.{
  pair_eq, ℕ, zero, suc, ◌+◌, ◌≤◌, ◌<◌, ◌≡◌, refl, inl, inr, Bool, true, false, ◌&&◌, ◌||◌, some,
  List, [], ◌∷◌, arith, ltb, nat_eq, string_eq, Bool-cases, length, keep,
}
use eyrie.History.{MonitorHistorical}
use eyrie.Cleanup.{CleanupEnv, Deletion, delete_first, in_range, delete_batches, delete_day_range}

-- No statement removes more rows than the limit, and what it says it removed is gone.
pub delete_first_bounds :
    (p : MonitorHistorical → Bool) (limit : ℕ) (rows : List MonitorHistorical)
    → ((delete_first p limit rows).1 ≤ limit)
      × (length (delete_first p limit rows).0 + (delete_first p limit rows).1 ≡ length rows)
unfolding delete_first
delete_first_bounds p zero rows = omega arith
delete_first_bounds p (suc limit) [] = omega arith
delete_first_bounds p (suc limit) (r ∷ rows) =
    ground (arith, delete_first_bounds p limit rows, delete_first_bounds p (suc limit) rows)

-- Rows outside the test stay, in order.
pub delete_first_keeps :
    (p q : MonitorHistorical → Bool) (disjoint : (h : MonitorHistorical) → (p h && q h) ≡ false)
    (limit : ℕ) (rows : List MonitorHistorical)
    → keep q (delete_first p limit rows).0 ≡ keep q rows
unfolding delete_first
delete_first_keeps p q disjoint zero rows = refl
delete_first_keeps p q disjoint (suc limit) [] = refl
delete_first_keeps p q disjoint (suc limit) (r ∷ rows) = ground (
  arith,
  disjoint r,
  delete_first_keeps p q disjoint limit rows,
  delete_first_keeps p q disjoint (suc limit) rows,
)

-- A statement that removes fewer rows than the limit leaves none.
pub delete_first_last :
    (p : MonitorHistorical → Bool) (limit : ℕ) (rows : List MonitorHistorical)
    → (delete_first p limit rows).1 < limit
    → keep p (delete_first p limit rows).0 ≡ []
unfolding delete_first
delete_first_last p zero rows h = elim h [ ]
delete_first_last p (suc limit) [] h = refl
delete_first_last p (suc limit) (r ∷ rows) h =
    ground (arith, delete_first_last p limit rows, delete_first_last p (suc limit) rows)

module _ (env : CleanupEnv) (batch_size : ℕ) (positive : 0 < batch_size) where
  delete_batches_ends :
      (fuel start end number total : ℕ) (rows : List MonitorHistorical)
      → length rows < fuel
      → (d : Deletion) × (delete_batches env batch_size fuel start end number total rows ≡ some d)
  unfolding delete_batches
  delete_batches_ends zero start end number total rows h = elim h [ ]
  delete_batches_ends (suc fuel) start end number total rows h =
      let cut = delete_first (in_range start end) batch_size rows in
      elim (Bool-cases (env.delete_fails start number)) [
        | inl failing ↦ (
          record { rows = rows; total = total; failed = true },
          rw (failing, delete_batches) refl,
        )
        | inr fine ↦
            elim (Bool-cases (ltb cut.1 batch_size || env.cancelled_after_batch start number)) [
              | inl last ↦ (
                record { rows = cut.0; total = total + cut.1; failed = false },
                rw (fine, last, delete_batches) refl,
              )
              | inr more ↦
                  let bounds = delete_first_bounds (in_range start end) batch_size rows in
                  rw (fine, more, delete_batches)
                    (delete_batches_ends fuel start end (suc number) (total + cut.1) cut.0
                      (ground arith))
            ]
      ]

  -- With a batch size above 0, the statements of a day come to an end, whatever fails.
  pub delete_day_range_ends :
      (start end : ℕ) (rows : List MonitorHistorical)
      → (d : Deletion) × (delete_day_range env batch_size start end rows ≡ some d)
  unfolding delete_day_range
  delete_day_range_ends start end rows =
      delete_batches_ends (suc (length rows)) start end 0 0 rows (omega arith)

module _ (env : CleanupEnv) (batch_size : ℕ) where
  delete_batches_keeps :
      (q : MonitorHistorical → Bool) (fuel start end number total : ℕ)
      (rows : List MonitorHistorical) (d : Deletion)
      → ((h : MonitorHistorical) → (in_range start end h && q h) ≡ false)
      → delete_batches env batch_size fuel start end number total rows ≡ some d
      → keep q d.rows ≡ keep q rows
  unfolding delete_batches
  delete_batches_keeps q zero start end number total rows d disjoint e = cc
  delete_batches_keeps q (suc fuel) start end number total rows d disjoint e =
      let cut = delete_first (in_range start end) batch_size rows in
      ground (
        arith,
        delete_first_keeps (in_range start end) q disjoint batch_size rows,
        delete_batches_keeps q fuel start end (suc number) (total + cut.1) cut.0 d disjoint,
      )

  delete_batches_counts :
      (fuel start end number total : ℕ) (rows : List MonitorHistorical) (d : Deletion)
      → delete_batches env batch_size fuel start end number total rows ≡ some d
      → length d.rows + d.total ≡ length rows + total
  unfolding delete_batches
  delete_batches_counts zero start end number total rows d e = cc
  delete_batches_counts (suc fuel) start end number total rows d e =
      let cut = delete_first (in_range start end) batch_size rows in
      ground (
        arith,
        delete_first_bounds (in_range start end) batch_size rows,
        delete_batches_counts fuel start end (suc number) (total + cut.1) cut.0 d,
      )

  delete_batches_empties :
      (fuel start end number total : ℕ) (rows : List MonitorHistorical) (d : Deletion)
      → ((n : ℕ) → env.cancelled_after_batch start n ≡ false)
      → delete_batches env batch_size fuel start end number total rows ≡ some d
      → d.failed ≡ false
      → keep (in_range start end) d.rows ≡ []
  unfolding delete_batches
  delete_batches_empties zero start end number total rows d calm e f = cc
  delete_batches_empties (suc fuel) start end number total rows d calm e f =
      let cut = delete_first (in_range start end) batch_size rows in
      ground (
        arith,
        calm number,
        delete_first_last (in_range start end) batch_size rows,
        delete_batches_empties fuel start end (suc number) (total + cut.1) cut.0 d calm,
      )

  pub delete_day_range_keeps :
      (q : MonitorHistorical → Bool) (start end : ℕ) (rows : List MonitorHistorical) (d : Deletion)
      → ((h : MonitorHistorical) → (in_range start end h && q h) ≡ false)
      → delete_day_range env batch_size start end rows ≡ some d
      → keep q d.rows ≡ keep q rows
  unfolding delete_day_range
  delete_day_range_keeps q start end rows d disjoint e =
      delete_batches_keeps q (suc (length rows)) start end 0 0 rows d disjoint e

  pub delete_day_range_counts :
      (start end : ℕ) (rows : List MonitorHistorical) (d : Deletion)
      → delete_day_range env batch_size start end rows ≡ some d
      → length d.rows + d.total ≡ length rows
  unfolding delete_day_range
  delete_day_range_counts start end rows d e =
      let c = delete_batches_counts (suc (length rows)) start end 0 0 rows d e in omega arith

  pub delete_day_range_empties :
      (start end : ℕ) (rows : List MonitorHistorical) (d : Deletion)
      → ((n : ℕ) → env.cancelled_after_batch start n ≡ false)
      → delete_day_range env batch_size start end rows ≡ some d
      → d.failed ≡ false
      → keep (in_range start end) d.rows ≡ []
  unfolding delete_day_range
  delete_day_range_empties start end rows d calm e f =
      delete_batches_empties (suc (length rows)) start end 0 0 rows d calm e f
