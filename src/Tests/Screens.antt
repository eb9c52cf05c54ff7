-- ===== src/Tests/Screens.antt =====
-- A root user changes a password on the screen, and the forms of a season are refused.
use pilam.Prelude.{
  ℤ, pos, ◌+ℤ◌, ◌≡◌, refl, true, false, some, [], ◌∷◌, arith, ◌==◌, ℕ_eq, List_eq, if◌then◌else◌,
  String_eq,
}
use pilam.Prelude.Int.{floor_div}
use pilam.Prelude.Text.{Text, codes, trim_space, is_space}
use pilam.Validate.{err_of, require, max_len, min_len}
use pilam.Accounts.Logins.{change_password}
use pilam.World.{in_tx, can_commit}
use pilam.Accounts.{by_id, update_row, is_valid_role, actor}
use pilam.Trail.{record_changes}
use pilam.Date.Gregorian.{times}
use pilam.Session.{issue, verify, second}
use pilam.Session.Laws.{verify-issue}
use pilam.World.{World}
use pilam.Accounts.{principal_of}
use pilam.Accounts.Principals.{principal_text}
use pilam.Middleware.{served}
use pilam.Middleware.Cookies.{principal_text-bytes}
use pilam.Screens.{Form, Answer, set}
use pilam.Screens.Account.{submit_change}
use pilam.Screens.Account.Renewal.{IsHolder, IsRenewed, submit_change-IsRenewed}
use pilam.Screens.Pages.Laws.{SendsOnOrKeeps}
use pilam.Screens.Seasons as Seasons
use pilam.Screens.Seasons.Laws as SeasonLaws
use pilam.Screens.Drops as Drops
use pilam.Screens.Drops.Laws.{create_drop-SendsOnOrKeeps}
use pilam.Screens.Models as Models
use pilam.Screens.Models.Laws.{Ends, create-Ends}
use pilam.Tests.Base.{env, me, user, world, plain_passwords, passwd}
use pilam.Tests.Rules.{on}
use pilam.Tests.Accounts.{next}
use pilam.Tests.Sessions.{sum_of, sum_of-bytes, form, form-IsCanonical, ttl}

abbrev change_form : Form
change_form = record {
  value = λ field. if field == "current_passwd" then passwd else next;
  values = λ field. [];
}

abbrev old : Text
old = issue sum_of ttl env.now.instant (principal_text form (principal_of user))

abbrev renewed : Text
renewed =
    issue sum_of ttl env.now.instant (principal_text form (record { user_id = 1; epoch = pos 4 }))

abbrev soon : ℤ
soon = pos 63909648001000000000

ends_at : floor_div (env.now.instant +ℤ pos ttl) second ≡ pos 63909651600
unfolding floor_div ◌+ℤ◌
ends_at = refl

abbrev changed : Answer × World
changed = submit_change sum_of ttl form plain_passwords env false (some me) change_form world

sends : changed.0.cookie ≡ set renewed
unfolding submit_change err_of require trim_space is_space change_password by_id max_len min_len
    in_tx update_row is_valid_role record_changes actor can_commit ◌+ℤ◌
sends = refl

user-IsHolder : IsHolder user
unfolding ◌+ℤ◌
user-IsHolder = (omega arith, refl, refl, omega arith, omega arith)

held : verify sum_of soon old ≡ some (principal_text form (principal_of user))
unfolding times
held =
    verify-issue sum_of sum_of-bytes ttl env.now.instant soon
      (principal_text form (principal_of user)) 63909651600
      (principal_text-bytes form (principal_of user) form-IsCanonical (omega arith)) ends_at
      (omega arith)

submit_change-IsRenewed_example :
    IsRenewed sum_of ttl form plain_passwords env false me change_form world changed.1 changed.0
      renewed soon old []
      (codes "/p")
      (codes "/users")
      served
      user
      63909651600
submit_change-IsRenewed_example =
    submit_change-IsRenewed sum_of ttl form plain_passwords env false me change_form world changed.1
      changed.0 renewed soon old [] (codes "/p") (codes "/users") served user 63909651600 refl sends
      refl user-IsHolder sum_of-bytes form-IsCanonical held ends_at (omega arith)

abbrev season_form : Form
season_form = record {
  value = λ field. if field == "name" then codes "SS27" else codes "next week";
  values = λ field. [];
}

abbrev with_season : World
with_season = record world {
  tables = record world.tables {
    seasons = record { id = 3; name = codes "AW26"; start_date = on 739000; active = true } ∷ [];
  };
}

abbrev three : Text
three = form.text 3

save-SendsOnOrKeeps_example :
    SendsOnOrKeeps with_season (Seasons.save form env three season_form with_season)
save-SendsOnOrKeeps_example =
    SeasonLaws.save-SendsOnOrKeeps form env three season_form with_season refl

abbrev drop_form : Form
drop_form = record {
  value = λ field. if field == "season_id" then three else codes "next week";
  values = λ field. [];
}

create_drop-SendsOnOrKeeps_example :
    SendsOnOrKeeps with_season (Drops.create form env drop_form with_season)
create_drop-SendsOnOrKeeps_example = create_drop-SendsOnOrKeeps form env drop_form with_season refl

-- A drop that a model can go into, and the form of a model with the default template.
abbrev with_drop : World
with_drop = record with_season {
  tables = record with_season.tables {
    drops =
        record { id = 4; season_id = 3; name = codes "D"; target_date = on 739900; active = true }
        ∷ [];
  };
}

abbrev model_form : Form
model_form = record {
  value = λ field.
      if field == "drop_id"
      then form.text 4
      else if field == "template"
      then form.text 7
      else codes "A-1";
  values = λ field. [];
}

create-Ends_example :
    Ends form env model_form with_drop (Models.create form env model_form with_drop)
create-Ends_example = create-Ends form env model_form with_drop refl
