-- ===== src/Milestones/Store/Names.antt =====
-- The order of the two name queries of db/queries/milestone.sql.
use pilam.Prelude.{Bool, true, false, ℕ_eq, List_eq}
use pilam.Prelude.Text.{Text, more}
use pilam.World.{Env}

-- ORDER BY name, in the collation of the database.
abbrev pub by_name : Env → Text → Text → Bool
by_name env a b = elim (env.collation a b) [ more ↦ false | _ ↦ true ]
