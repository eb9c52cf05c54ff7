-- ===== src/Trail/Newest.antt =====
-- internal/audit/log.go: the entries that a page of the trail shows.
use pilam.Prelude.{ℕ, List, length, ltb, if◌then◌else◌}
use pilam.Prelude.Sort.{IsSorted, sort_by}
use pilam.Schema.{Tables, Entry}
use pilam.World.{World}
use pilam.Trail.{Scope, newest_first, read_scopes}

abbrev IsNewest : List Entry → Type 0
IsNewest entries = IsSorted newest_first entries

-- The rows of the scopes, as `Scopes` merges them.
abbrev merged : List Scope → ℕ → Tables → List Entry
merged scopes n t =
    let entries = read_scopes scopes n t in
    if ltb 1 (length scopes) then sort_by newest_first entries else entries
