-- ===== src/Reason/Named.antt =====
-- The categories and their display names.
use eyrie.Base.{
  String, ◌≡◌, refl, Bool, true, false, ◌==◌, nat_eq, string_eq, if◌then◌else◌, to_lower,
}
use eyrie.Reason.{
  any_part, network_parts, refused_parts, timeout_parts, tls_parts, auth_parts, dns_parts,
  http_parts, categorize_failure_reason, friendly_failure_reason_name,
}

Named : String → Type 0
Named category = (friendly_failure_reason_name category == "Unknown Error") ≡ false

if-Named : (b : Bool) (x y : String) → Named x → Named y → Named (if b then x else y)
if-Named true x y h k = h
if-Named false x y h k = k

-- Every category that a failure can be put in has a display name other than
-- the one for unknown categories.
pub categories_are_named :
    (reason : String)
    → (friendly_failure_reason_name (categorize_failure_reason reason) == "Unknown Error") ≡ false
unfolding friendly_failure_reason_name categorize_failure_reason Named
categories_are_named reason =
    let l = to_lower reason in
    if-Named (reason == "") "generic_error" _ refl (
      if-Named (any_part l network_parts) "network_unreachable" _ refl (
        if-Named (any_part l refused_parts) "connection_refused" _ refl (
          if-Named (any_part l timeout_parts) "timeout" _ refl (
            if-Named (any_part l tls_parts) "tls_error" _ refl (
              if-Named (any_part l auth_parts) "auth_error" _ refl (
                if-Named (any_part l dns_parts) "dns_error" _ refl
                  (if-Named (any_part l http_parts) "http_error" "generic_error" refl refl)))))))
