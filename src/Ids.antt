-- ===== src/Ids.antt =====
-- internal/platform/ids/ids.go: an identifier is 128 bits, read as a number in the byte order by which
-- both Postgres and the canonical text compare it.
use pilam.Prelude.{ℕ, ◌<◌}

abbrev pub Uuid : Type 0
Uuid = ℕ

-- `ids.Nil`
abbrev pub nil_id : Uuid
nil_id = 0

-- A number that 128 bits hold.
abbrev pub IsUuid : Uuid → Type 0
IsUuid id = id < 340282366920938463463374607431768211456
