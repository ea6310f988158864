-- ===== src/Processor/Evaluate/Promote.antt =====
-- `shouldPromoteLocalDegraded` against its meaning: the length of the streak of degraded minutes.
use eyrie.Base.{
  ℕ, suc, ◌+◌, ◌-◌, ◌*◌, ◌≤◌, ◌<◌, ◌≡◌, refl, ap, Bool, true, false, ◌&&◌, ◌||◌, List, [], ◌∷◌,
  arith, ltb, leb, ◌==◌, nat_eq, string_eq, if◌then◌else◌, get,
}
use eyrie.Monitor.{minute}
use eyrie.Config.{Float64, DatasetConfig}
use eyrie.Processor.Times.{times_back}
use eyrie.Processor.Times.Range.{Spaced, times_back-Spaced}
use eyrie.Processor.Buckets.{Buckets}
use eyrie.Processor.Evaluate.{continues_streak, promote_from, should_promote_local_degraded}

module _ (fl : Float64) (cfg : DatasetConfig fl) (buckets : Buckets) where
  -- How many minutes, from the newest back and without a gap, are degraded in some regions only.
  unfoldable pub streak : List ℕ → ℕ
  streak [] = 0
  streak (t ∷ ts) =
      let rest = streak ts in if continues_streak fl cfg (get t buckets) then suc rest else 0

  -- The thresholds, for a streak of `n` minutes.
  unfoldable pub long_enough : ℕ → ℕ → Bool
  long_enough interval n =
      let consecutive = cfg.degraded_threshold_consecutive_buckets in
      let duration = cfg.degraded_threshold_minutes * minute in
      ltb 0 n
      && ((ltb 0 consecutive && leb consecutive n)
          || (ltb 0 duration && leb duration (n * interval)))

  long_enough_mono :
      (interval n m : ℕ) → n ≤ m → long_enough interval n ≡ true → long_enough interval m ≡ true
  unfolding long_enough
  long_enough_mono interval n m h k =
      let scaled : n * interval ≤ m * interval = grind arith in ground arith

  -- The tests of one round are the thresholds for the minutes counted so far.
  round_tests :
      (latest interval n t : ℕ)
      → latest ≡ t + n * interval
      → (rest : Bool)
      → (if ltb 0 cfg.degraded_threshold_consecutive_buckets
            && leb cfg.degraded_threshold_consecutive_buckets (n + 1)
          then true
          else if ltb 0 (cfg.degraded_threshold_minutes * minute)
              && leb (cfg.degraded_threshold_minutes * minute) (latest - t + interval)
          then true
          else rest)
        ≡ (if long_enough interval (n + 1) then true else rest)
  unfolding long_enough
  round_tests latest interval n t p rest =
      let far : latest - t + interval ≡ (n + 1) * interval = omega (arith, p) in
      rw far (ground arith)

  add_one_later : (n r : ℕ) → n + 1 + r ≡ n + suc r
  add_one_later n r = omega arith

  promote_from-streak :
      (latest interval n : ℕ) (ts : List ℕ)
      → Spaced latest interval n ts
      → long_enough interval n ≡ false
      → promote_from fl cfg buckets latest interval n ts
        ≡ (ltb 0 (streak ts) && long_enough interval (n + streak ts))
  unfolding promote_from streak
  promote_from-streak latest interval n [] p q = refl
  promote_from-streak latest interval n (t ∷ ts) p q = rw (round_tests latest interval n t p.0) (
      ground (
        arith,
        promote_from-streak latest interval (n + 1) ts p.1,
        long_enough_mono interval (n + 1) (n + suc (streak ts)),
        ap (long_enough interval) (add_one_later n (streak ts)),
      ))

  -- The loop promotes exactly when the streak that ends in the newest minute has reached the number of
  -- minutes, or the duration, that is configured (or when neither is).
  pub promote_exact :
      (latest earliest interval : ℕ)
      → earliest ≤ latest
      → 0 < interval
      → should_promote_local_degraded fl cfg buckets latest earliest interval ≡ (
          (cfg.degraded_threshold_consecutive_buckets == 0 && cfg.degraded_threshold_minutes == 0)
          || long_enough interval (streak (times_back latest earliest interval)))
  unfolding should_promote_local_degraded long_enough
  promote_exact latest earliest interval h k = ground (
    arith,
    promote_from-streak latest interval 0 (times_back latest earliest interval)
        (times_back-Spaced latest earliest interval),
  )
