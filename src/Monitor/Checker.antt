-- ===== src/Monitor/Checker.antt =====
-- The part of the configuration that a checker gets, and its validation.
use eyrie.Base.{
  unique_from, count-unique_from, insert_sorted_comm, String-discrete, ℕ, zero, suc, ◌+◌, ◌-◌, ◌*◌,
  ◌/◌, ◌%◌, ◌≤◌, ◌<◌, String, ◌≡◌, refl, sym, ap, ap₂, ◌∙◌, ◌≢◌, ◌↔◌, ◌⊎◌, inl, inr, Bool, true,
  false, not, ◌&&◌, ◌||◌, Option, none, some, List, [], ◌∷◌, ◌++◌, map, Perm, arith, ltb, leb,
  Equality, ◌==◌, nat_eq, string_eq, str_eq_iff, nat_beq_iff, if◌then◌else◌, ltb→lt, leb→le,
  Bool-cases, Option-cases, length, is_empty, length-append, keep, length-keep, find_first, count,
  count-append, All, All-append, contains, concat, join, contains_text, trim_space, to_lower, itoa,
  text_leb, text_leb_total, text_leb_antisymm, text_leb_trans, sort, insert_sorted, sort-Perm,
  sort-sort, Map, get, put, get-put, get-put_self, equality_refl, UniqueKeys, put-UniqueKeys,
  length-put,
}
use eyrie.Monitor.{
  Monitor, Group, MonitorConfig, RegisteredChecker, effective_name, effective_type, effective_http,
  runs_on_checker,
}
pub mod Selected

abbrev pub ids_of : List Monitor → List String
ids_of [] = []
ids_of (m ∷ rest) = m.id ∷ ids_of rest

-- The loop over the groups: a group without a monitor left is dropped.
unfoldable pub filter_groups : List String → List Group → List Group
filter_groups allowed [] = []
filter_groups allowed (group ∷ rest) =
    let filtered = keep (λ id. contains allowed id) group.monitor_ids in
    let others = filter_groups allowed rest in
    if is_empty filtered then others else record group { monitor_ids = filtered } ∷ others

unfoldable pub for_checker : MonitorConfig → String → MonitorConfig
unfolding filter_groups runs_on_checker
for_checker c checker_name =
    let monitors = keep (λ m. runs_on_checker m checker_name) c.monitors in
    record { monitors = monitors; groups = filter_groups (ids_of monitors) c.groups }

-- What `Validate` refuses; the texts of the errors are left out.
pub data ValidationError : Type 0 where
  url_required client_cert_and_key_together password_requires_key target_required unsupported_type
        duplicate_checker unknown_checker :
      ValidationError

-- A target that must not be empty.
abbrev required : String → Option ValidationError
required target = if target == "" then some target_required else none

abbrev differ : Bool → Bool → Bool
differ true b = not b
differ false b = b

unfoldable pub validate : Monitor → Option ValidationError
unfolding effective_type effective_http
validate m =
    let t = effective_type m in
    let http = effective_http m in
    if t == "http"
    then (if http.url == ""
        then some url_required
        else if differ (http.client_cert_path == "") (http.client_key_path == "")
        then some client_cert_and_key_together
        else if not (http.client_key_password == "") && http.client_key_path == ""
        then some password_requires_key
        else none)
    else if t == "tcp"
    then required m.tcp.address
    else if t == "icmp"
    then required m.icmp.host
    else if t == "redis"
    then required m.redis.address
    else if t == "postgres"
    then required m.postgres.dsn
    else if t == "mysql"
    then required m.mysql.dsn
    else if t == "mssql"
    then required m.mssql.dsn
    else if t == "clickhouse"
    then required m.clickhouse.dsn
    else if t == "grpc"
    then required m.grpc.address
    else some unsupported_type

-- The loop over the checker names of a monitor.
unfoldable pub validate_names : List String → List String → List String → Option ValidationError
validate_names known seen [] = none
validate_names known seen (name ∷ rest) =
    let others = validate_names known (name ∷ seen) rest in
    if contains seen name
    then some duplicate_checker
    else if not (contains known name)
    then some unknown_checker
    else others

abbrev pub or_error : Option ValidationError → Option ValidationError → Option ValidationError
or_error none next = next
or_error (some err) next = some err

unfoldable pub validate_monitors : List String → List Monitor → Option ValidationError
unfolding validate validate_names
validate_monitors known [] = none
validate_monitors known (m ∷ rest) =
    or_error (validate m)
      (or_error (validate_names known [] m.checker_names) (validate_monitors known rest))

abbrev pub effective_names : List RegisteredChecker → List String
effective_names [] = []
effective_names (c ∷ rest) = effective_name c ∷ effective_names rest

-- `MonitorConfig.Validate`
unfoldable pub validate_config : MonitorConfig → List RegisteredChecker → Option ValidationError
unfolding validate_monitors effective_name
validate_config c registered_checkers =
    validate_monitors (effective_names registered_checkers) c.monitors

-- `FindRegisteredChecker`; comparing in constant time is comparing.
unfoldable pub find_registered_checker :
    List RegisteredChecker → String → String → String → Option RegisteredChecker
unfolding effective_name
find_registered_checker registered name region api_key =
    find_first
      (λ c. c.api_key == api_key && c.region == region && (name == "" || name == effective_name c))
      registered
