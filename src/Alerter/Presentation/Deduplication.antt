-- ===== src/Alerter/Presentation/Deduplication.antt =====
-- The keys by which the receivers of alerts recognise them.
use eyrie.Base.{
  pair_eq, ◌≡◌, refl, ◌≢◌, ◌⊎◌, inl, inr, Perm, arith, nat_eq, string_eq, str_eq_iff, sort,
  sort-Perm,
}
use eyrie.Alert.{AlertMessage}
use eyrie.Alerter.Presentation.{Texts, build_deduplication_key}

-- All alerts of one incident have one key, whatever their status; without an incident, alerts with the
-- same monitor, status and scope have one key in whichever order their regions come.
pub build_deduplication_key_same :
    (texts : Texts) (a b : AlertMessage)
    → a.incident_id ≡ b.incident_id
    → (a.incident_id ≢ "")
      ⊎ ((a.monitor_id ≡ b.monitor_id)
          × (a.status ≡ b.status)
          × (a.scope ≡ b.scope)
          × Perm a.affected_regions b.affected_regions)
    → build_deduplication_key texts a ≡ build_deduplication_key texts b
unfolding build_deduplication_key
build_deduplication_key_same texts a b same (inl incident) =
    ground (arith, str_eq_iff a.incident_id "", str_eq_iff b.incident_id "")
build_deduplication_key_same texts a b same (inr parts) =
    let sorted : sort a.affected_regions ≡ sort b.affected_regions = sort-Perm parts.3 in
    rw (same, parts.0, parts.1, parts.2, sorted) refl
