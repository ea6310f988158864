-- ===== src/Monitor/Names.antt =====
-- `EffectiveAlertNames`: the alert targets of a monitor, trimmed, without blanks or repetitions.
pub mod Once
use eyrie.Base.{String, List, [], ◌∷◌, ◌==◌, nat_eq, string_eq, if◌then◌else◌, contains, trim_space}
use eyrie.Monitor.{Monitor}

-- The loop, with the names seen so far.  A nil slice and an empty one are both `[]`.
unfoldable pub names_from : List String → List String → List String
names_from seen [] = []
names_from seen (alert_name ∷ rest) =
    let trimmed = trim_space alert_name in
    let skipped = names_from seen rest in
    let taken = trimmed ∷ names_from (trimmed ∷ seen) rest in
    if trimmed == "" then skipped else if contains seen trimmed then skipped else taken

unfoldable pub effective_alert_names : Monitor → List String
unfolding names_from
effective_alert_names m = names_from [] m.alert_names
