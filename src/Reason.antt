-- ===== src/Reason.antt =====
-- failure_reason.go: the category of a raw error text, and the category's display name.
pub mod Named
use eyrie.Base.{
  String, Bool, false, ◌||◌, List, [], ◌∷◌, ◌==◌, nat_eq, string_eq, if◌then◌else◌, contains_text,
  to_lower,
}

-- Whether the text has one of the parts: the source's chain of `strings.Contains` joined by `||`.
unfoldable pub any_part : String → List String → Bool
any_part s [] = false
any_part s (part ∷ rest) = contains_text s part || any_part s rest

abbrev pub network_parts : List String
network_parts =
    "unreachable" ∷ "no route to host" ∷ "network is unreachable" ∷ "host unreachable" ∷ []

abbrev pub refused_parts : List String
refused_parts = "connection refused" ∷ "econnrefused" ∷ "connection reset" ∷ "port not open" ∷ []

abbrev pub timeout_parts : List String
timeout_parts =
    "timeout" ∷ "context deadline exceeded" ∷ "dial timeout" ∷ "read timeout" ∷ "write timeout"
    ∷ "i/o timeout" ∷ []

abbrev pub tls_parts : List String
tls_parts = "tls" ∷ "certificate" ∷ "cert" ∷ "ssl" ∷ "expired" ∷ "x509" ∷ "handshake" ∷ []

abbrev pub auth_parts : List String
auth_parts =
    "invalid credentials" ∷ "auth" ∷ "permission denied" ∷ "unauthorized" ∷ "access denied"
    ∷ "forbidden" ∷ "401" ∷ "403" ∷ []

abbrev pub dns_parts : List String
dns_parts = "dns" ∷ "lookup" ∷ "name resolution" ∷ "getaddrinfo" ∷ []

abbrev pub http_parts : List String
http_parts = "http" ∷ "status code" ∷ "4xx" ∷ "5xx" ∷ []

unfoldable pub categorize_failure_reason : String → String
unfolding any_part
categorize_failure_reason reason =
    let lower_reason = to_lower reason in
    if reason == ""
    then "generic_error"
    else if any_part lower_reason network_parts
    then "network_unreachable"
    else if any_part lower_reason refused_parts
    then "connection_refused"
    else if any_part lower_reason timeout_parts
    then "timeout"
    else if any_part lower_reason tls_parts
    then "tls_error"
    else if any_part lower_reason auth_parts
    then "auth_error"
    else if any_part lower_reason dns_parts
    then "dns_error"
    else if any_part lower_reason http_parts
    then "http_error"
    else "generic_error"

unfoldable pub friendly_failure_reason_name : String → String
friendly_failure_reason_name category =
    if category == "network_unreachable"
    then "Network Unreachable"
    else if category == "connection_refused"
    then "Connection Refused"
    else if category == "timeout"
    then "Timeout"
    else if category == "tls_error"
    then "TLS/Certificate Error"
    else if category == "auth_error"
    then "Authentication Error"
    else if category == "dns_error"
    then "DNS Error"
    else if category == "http_error"
    then "HTTP Error"
    else if category == "generic_error"
    then "Generic Error"
    else "Unknown Error"
