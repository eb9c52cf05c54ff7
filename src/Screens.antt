-- ===== src/Screens.antt =====
-- internal/http: what the handlers read from a request and what they answer. The views, the log and
-- the headers of a page are left out.
use pilam.Prelude.{
  ℕ, ℤ, String, Bool, true, false, not, Option, none, some, List, [], ◌∷◌, ◌++◌, if◌then◌else◌,
  ◌==◌, List_eq, ℕ_eq, String_eq, any,
}
use pilam.Prelude.Text.{Text, trim_space, codes, contains}
use mathlib.Core.Option as Option
use pilam.Prelude.Numerals.{parse_int}
use pilam.Errors.{Error, FieldErrors, rejected, not_a_number, not_a_date, not_allowed}
use pilam.Date.{parse}
use pilam.Date.Gregorian.{Time, zero_time}
use pilam.Ids.{Uuid, nil_id}
use pilam.Validate.{fail, ready, merge, err_of}
use pilam.Accounts.Principals.{UuidForm, parse_id}
use pilam.Screens.Trails.{Event}
pub mod Trails
pub mod Pages
pub mod Account
pub mod Seasons
pub mod Drops
pub mod Models
pub mod Calendar
pub mod Templates
pub mod Photos
pub mod Users

-- What the answer does to the session cookie.
pub data Cookie : Type 0 where
  kept dropped : Cookie
  set : Text → Cookie

-- `location` is where the browser is sent, if it is, and `errs` and `trail` are what the page shows.
pub record Answer : Type 0 where
  pub status : ℕ
  pub location : Text
  pub cookie : Cookie
  pub errs : FieldErrors
  pub trail : List Event

abbrev pub shown : ℕ → FieldErrors → Answer
shown status errs = record {
  status = status;
  location = [];
  cookie = kept;
  errs = errs;
  trail = [];
}

-- `http.Redirect` with 303, and `WriteServerError` and `http.NotFound`.
abbrev pub redirect : Text → Answer
redirect path = record { status = 303; location = path; cookie = kept; errs = []; trail = [] }

-- `SendTo`: a request of htmx is sent on by a header of a 200.
abbrev pub send_to : Bool → Text → Answer
send_to htmx path = record (redirect path) { status = if htmx then 200 else 303 }

abbrev pub server_error : Answer
server_error = shown 500 []

abbrev pub not_found : Answer
not_found = shown 404 []

-- `RedirectSaved`
unfoldable pub redirect_saved : Text → Answer
redirect_saved path =
    redirect
      (path ++ ((if contains path (codes "?") then codes "&" else codes "?") ++ codes "saved=1"))

-- A submitted form: the first value of a field, which is empty where there is none, and all of them.
pub record Form : Type 0 where
  pub value : String → Text
  pub values : String → List Text

-- A date box and a date of a query. An empty one is the zero date.
unfoldable pub read_day : String → Text → Time × Option Error
read_day field posted =
    let raw = trim_space posted in
    if raw == [] then (zero_time, none) else elim (parse raw) [
      | some day ↦ (day, none)
      | none ↦ (zero_time, some (fail field not_a_date))
    ]

-- `PostedDay` (and `QueriedDay`, over the values of the query).
abbrev pub posted_day : Form → String → Time × Option Error
posted_day form field = read_day field (form.value field)

-- `PostedNumber`: the number, and whether the box held one.
unfoldable pub posted_number : Form → String → ℤ × Bool × Option Error
posted_number form field =
    let raw = trim_space (form.value field) in
    if raw == [] then (ℤ.pos 0, false, none) else elim (parse_int raw) [
      | some n ↦ (n, true, none)
      | none ↦ (ℤ.pos 0, false, some (fail field not_a_number))
    ]

-- `PostedID`, and `ParsedID`.
unfoldable pub posted_id : UuidForm → Form → String → Uuid × Option Error
posted_id ids form field =
    let raw = trim_space (form.value field) in
    if raw == [] then (nil_id, none) else elim (parse_id ids raw) [
      | some id ↦ (id, none)
      | none ↦ (nil_id, some (fail field not_allowed))
    ]

unfoldable pub parsed_id : UuidForm → Text → Uuid
parsed_id ids raw = elim (parse_id ids (trim_space raw)) [ some id ↦ id | none ↦ nil_id ]

-- `PostedOrder`, with `none` for ErrInvalid.
unfoldable pub read_order : UuidForm → List Text → Option (List Uuid)
read_order ids [] = some []
read_order ids (raw ∷ rest) =
    let ordered = read_order ids rest in
    elim (parse_id ids (trim_space raw)) [
      | none ↦ none
      | some id ↦ Option.map (λ l. id ∷ l) ordered
    ]

abbrev pub posted_order : UuidForm → Form → String → Option (List Uuid)
posted_order ids form field = read_order ids (form.values field)

-- `FlagOf`, over `strconv.ParseBool`, and `PostedFlag`.
unfoldable pub flag_of : Text → Option Bool
flag_of raw =
    let s = trim_space raw in
    if any (λ t. s == codes t) ("1" ∷ "t" ∷ "T" ∷ "true" ∷ "TRUE" ∷ "True" ∷ [])
    then some true
    else if any (λ t. s == codes t) ("0" ∷ "f" ∷ "F" ∷ "false" ∷ "FALSE" ∷ "False" ∷ [])
    then some false
    else none

abbrev pub posted_flag : Form → String → Bool
posted_flag form field = not (form.value field == [])

-- `Rejections`, with `none` where an error is no rejection of fields.
abbrev pub is_rejection : Error → Bool
is_rejection (rejected errs) = true
is_rejection _ = false

unfoldable pub gather : FieldErrors → List (Option Error) → Option FieldErrors
gather held [] = some held
gather held (none ∷ errs) = gather held errs
gather held (some e ∷ errs) =
    let rest = gather (merge (record { errs = held }) (some e)).errs errs in
    if is_rejection e then rest else none

abbrev pub rejections : List (Option Error) → Option FieldErrors
rejections errs = gather [] errs

-- `errors.Join` of two rejections: `errors.As` finds the first.
abbrev pub joined : Option Error → Option Error → Option Error
joined none e = e
joined (some d) e = some d
