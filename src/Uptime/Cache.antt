-- ===== src/Uptime/Cache.antt =====
-- uptime_cache.go: a cache whose entries expire.  The clock is read twice by `get`, and the values are
-- of any type.  One call runs at a time: what `singleflight` shares between concurrent calls is not
-- modelled, and no call comes between the two looks at the cache of `getOrLoad`.
pub mod Fresh
use eyrie.Base.{
  pair_eq, ℕ, ◌+◌, String, not, Option, none, some, [], ltb, ◌==◌, nat_eq, string_eq, if◌then◌else◌,
  keep, Map, get, put,
}

pub record TtlCacheEntry {ℓ} (T : Type ℓ) : Type ℓ where
  pub value : T
  pub expires_at : ℕ

pub record TtlCache {ℓ} (T : Type ℓ) : Type ℓ where
  pub ttl : ℕ
  pub entries : Map String (TtlCacheEntry T)

module _ {ℓ} {T : Type ℓ} where
  unfoldable pub new_ttl_cache : ℕ → TtlCache T
  new_ttl_cache ttl = record { ttl = ttl; entries = [] }

  -- `delete(entries, key)`
  unfoldable pub remove : String → Map String (TtlCacheEntry T) → Map String (TtlCacheEntry T)
  remove key entries = keep (λ e. not (e.0 == key)) entries

  -- An entry that is found: fresh by the first clock, or looked at again under the lock.
  unfoldable pub look_at :
      ℕ → ℕ → String → TtlCache T → Option (TtlCacheEntry T) → TtlCache T × Option T
  unfolding remove
  look_at now later key c none = (c, none)
  look_at now later key c (some entry) =
      if ltb now entry.expires_at
      then (c, some entry.value)
      else if ltb entry.expires_at later
      then (record c { entries = remove key c.entries }, none)
      else (c, some entry.value)

  unfoldable pub cache_get : ℕ → ℕ → String → TtlCache T → TtlCache T × Option T
  unfolding look_at
  cache_get now later key c = look_at now later key c (get key c.entries)

  -- Storing drops what has expired.
  unfoldable pub cache_set : ℕ → String → T → TtlCache T → TtlCache T
  cache_set now key value c = record c {
    entries =
        put key (record { value = value; expires_at = now + c.ttl })
          (keep (λ e. not (ltb e.1.expires_at now)) c.entries);
  }

  -- After a miss; a loader that fails leaves nothing behind.
  unfoldable pub load_into : ℕ → String → Option T → TtlCache T → TtlCache T × Option T
  unfolding cache_set
  load_into now key none c = (c, none)
  load_into now key (some value) c = (cache_set now key value c, some value)

  -- The second look, before the loader runs.
  unfoldable pub missed :
      ℕ × ℕ → ℕ → String → Option T → TtlCache T × Option T → TtlCache T × Option T
  unfolding cache_get load_into
  missed second stored key loaded (c, some value) = (c, some value)
  missed second stored key loaded (c, none) =
      let (c', again) = cache_get second.0 second.1 key c in
      elim again [ none ↦ load_into stored key loaded c' | some value ↦ (c', some value) ]

  -- The times are those of the clocks of the two looks, and of the store after the load.
  unfoldable pub get_or_load :
      ℕ × ℕ → ℕ × ℕ → ℕ → String → Option T → TtlCache T → TtlCache T × Option T
  unfolding missed
  get_or_load first second stored key loaded c =
      missed second stored key loaded (cache_get first.0 first.1 key c)
