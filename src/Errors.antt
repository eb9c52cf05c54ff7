-- ===== src/Errors.antt =====
-- The errors of the program: input rejections (internal/platform/validate) and the sentinel errors
-- of the domain packages. `fmt.Errorf` with `%w` adds text for the log, and `errors.Is` sees the
-- sentinel below it, so an error here is its sentinel.
use pilam.Prelude.{String, List}
use pilam.Prelude.Text.{Text}

-- `validate.Code`, with the constants of its block.
pub data Code : Type 0 where
  required too_long too_short too_small too_big not_a_number not_a_date : Code
  not_allowed immutable incorrect mismatch taken : Code

-- `validate.FieldError`
pub record FieldError : Type 0 where
  pub field : String
  pub code : Code
  pub arg : Text

-- `validate.FieldErrors`
abbrev pub FieldErrors : Type 0
FieldErrors = List FieldError

-- `commit_failed` is a deferred constraint that does not hold at commit, `constraint_failed` any
-- other constraint that the adapters have no name for.
pub data Error : Type 0 where
  rejected : FieldErrors → Error
  no_user email_taken user_id_taken self_lockout : Error
  not_resolved unknown_subject inactive_user stale_epoch : Error
  no_season no_drop no_model no_photo : Error
  season_name_taken drop_name_taken catalog_id_taken photo_order : Error
  no_type no_template no_item no_milestone no_calendar_model : Error
  name_taken milestone_id_taken type_in_template type_on_model item_order : Error
  no_actor no_entity no_entity_id no_action : Error
  invalid_hash : Error
  commit_failed constraint_failed : Error

pub data Result (A : Type 0) : Type 0 where
  ok : A → Result A
  err : Error → Result A
