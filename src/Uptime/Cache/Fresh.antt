-- ===== src/Uptime/Cache/Fresh.antt =====
-- How long the cache serves a value.
use eyrie.Base.{
  pair_eq, ℕ, ◌+◌, ◌≤◌, ◌<◌, String, ◌≡◌, refl, ◌∙◌, Bool, true, false, not, Option, none, some, [],
  ◌∷◌, arith, ltb, ◌==◌, nat_eq, string_eq, if◌then◌else◌, keep, Map, get, get-put, get-put_self,
}
use eyrie.Uptime.Cache.{TtlCache, TtlCacheEntry, cache_get, cache_set, missed, get_or_load, remove}

module _ {ℓ} {T : Type ℓ} where
  get-keep :
      (q : TtlCacheEntry T → Bool) (key : String) (m : Map String (TtlCacheEntry T))
      (e : TtlCacheEntry T)
      → get key m ≡ some e
      → q e ≡ true
      → get key (keep (λ x. q x.1) m) ≡ some e
  unfolding get
  get-keep q key [] e g h = ground arith
  get-keep q key ((j, w) ∷ m) e g h = ground (arith, get-keep q key m e)

  -- A stored value, and what another store leaves of it.
  cache_set_stored :
      (now : ℕ) (key : String) (value : T) (c : TtlCache T)
      → get key (cache_set now key value c).entries
        ≡ some (record { value = value; expires_at = now + c.ttl })
  unfolding cache_set
  cache_set_stored now key value c =
      get-put_self key (record { value = value; expires_at = now + c.ttl }) _

  cache_set_other :
      (now : ℕ) (key other : String) (value : T) (c : TtlCache T) (e : TtlCacheEntry T)
      → (other == key) ≡ false
      → get key c.entries ≡ some e
      → now ≤ e.expires_at
      → get key (cache_set now other value c).entries ≡ some e
  unfolding cache_set
  cache_set_other now key other value c e differ g le =
      get-put other key (record { value = value; expires_at = now + c.ttl })
        (keep (λ x. not (ltb x.1.expires_at now)) c.entries)
      ∙ rw differ (get-keep (λ x. not (ltb x.expires_at now)) key c.entries e g (ground arith))

  get_or_load_fresh :
      (first second : ℕ × ℕ) (stored : ℕ) (key : String) (loaded : Option T) (c : TtlCache T)
      (e : TtlCacheEntry T)
      → get key c.entries ≡ some e
      → first.0 < e.expires_at
      → get_or_load first second stored key loaded c ≡ (c, some e.value)
  unfolding get_or_load cache_get
  get_or_load_fresh first second stored key loaded c e g fresh =
      rw (g, cache_get) (served (ltb first.0 e.expires_at) (ground arith))
    where
      served :
          (b : Bool)
          → b ≡ true
          → missed second stored key loaded (
              if b
              then (c, some e.value)
              else if ltb e.expires_at first.1
              then (record c { entries = remove key c.entries }, none)
              else (c, some e.value))
            ≡ (c, some e.value)
      served true h = refl
      served false h = cc

  -- A stored value is served, without asking the loader again, until its time to live is over: also
  -- when another key is stored meanwhile.
  pub loaded_value_served :
      (at again : ℕ) (first second : ℕ × ℕ) (stored : ℕ) (key other : String)
      (value other_value : T) (loaded : Option T) (c : TtlCache T)
      → (other == key) ≡ false
      → again ≤ at + c.ttl
      → first.0 < at + c.ttl
      → get_or_load first second stored key loaded
          (cache_set again other other_value (cache_set at key value c))
        ≡ (cache_set again other other_value (cache_set at key value c), some value)
  loaded_value_served at again first second stored key other value other_value loaded c differ le
        lt =
      get_or_load_fresh first second stored key loaded _
        (record { value = value; expires_at = at + c.ttl })
        (cache_set_other again key other other_value (cache_set at key value c)
          (record { value = value; expires_at = at + c.ttl }) differ
          (cache_set_stored at key value c) le)
        lt
