-- ===== src/Lib.antt =====
-- pilam keeps the time and action calendar of a clothing brand: seasons, drops and models, and for each
-- model the milestones that lead to the target date of its drop. This library models its core in Go,
-- under internal/.
--
--   Validate      platform/validate/validate.go: the validator that collects field rejections. A check is
--                 a function that returns the new validator with its answer.
--   Date          platform/date/date.go over what it uses of Go's time package (Date/Gregorian): an
--                 instant with an offset, and the proleptic Gregorian calendar by day numbers. `days` has
--                 the saturation of `time.Sub`.
--   Ids, Errors   the identifiers, which are numbers of 128 bits in their byte order, and the sentinel
--                 errors. The text that `%w` adds is for the log and is left out.
--   Schema        the rows of the database as the adapters of internal/postgres hand them out.
--   World         the state that a service runs on: the tables, whether a transaction is open, the
--                 identifiers and the random bytes that were drawn, and the throttle. An action is a
--                 function of the world that returns a result. `in_tx` is internal/postgres/tx.go: a
--                 failure puts the tables back, and the deferred constraints are read at the commit.
--   Trail         internal/audit with internal/postgres/audit.go and internal/shared: the trail.
--   Auth/Throttle internal/auth/throttle.go: the throttle of the logins, with the int64 shift of `window`.
--   Accounts      internal/auth/auth.go with internal/postgres/users.go: `Logins` has the login and the
--                 passwords, `Edits` the users section, and `Directory` its reads and the actors.
--                 `Liveness` and `Sessions/Handed` are about the logins that succeed.
--   Rearranges    `rearranges` of internal/milestones/templates.go (and of internal/catalog/photo.go).
--   Slots         the numbered rows of an owner, which the proofs on photos are about.
--   Catalog       internal/catalog with internal/postgres/catalog*.go: `Seasons`, `Drops`, `Models` and
--                 `Photos` have the operations, `Current` has CurrentSeason, and `Store` the tables.
--   Media         internal/platform/media: the keys and the policies, and `Store` for Put and Open of
--                 local.go over a directory. A file is its bytes, and each call of the file system that
--                 may fail is a flag of the run.
--   Session       internal/platform/session/session.go over base64 (Prelude/Base64) and decimal
--                 numbers (Prelude/Numerals). A string of it is the list of its bytes.
--   Password      internal/platform/password/password.go: the text of a hash, Hash and Verify. A failure
--                 of it is `none`.
--   Middleware    the session, the identity and the guards of internal/http/middleware, chained as
--                 internal/http/router.go chains them. A handler is a function of the visit, and the
--                 links that write the log or a header are left out.
--   Screens       the handlers of internal/http over the services: what they read from a path and from a
--                 form, the status, the address, the cookie and the rejections that they answer, and
--                 the tables after them. `Pages` and `Trails` have what the sections share, `Account`
--                 account, `Seasons` seasons, `Drops` drops, `Models`, `Photos` and `Calendar` models,
--                 `Templates` milestones and `Users` users. The boxes that a page draws again and the
--                 texts of its notices are left to the views.
--   Milestones    internal/milestones: `Rules` has state.go, cascade.go and apply.go, `Types` type.go,
--                 `Templates` and `Items` templates.go, `Calendar` calendar.go, `Listed` list.go, and
--                 `Store` the adapters internal/postgres/milestone*.go with the constraints of their
--                 tables.
--
-- A service calls the rules, the store and the trail as the Go code does, and every write runs in
-- `in_tx` with its entries of the trail. A text is the list of its code points. A loop is structural
-- recursion on the list that it walks, so no definition takes fuel except `digits_of`, whose fuel is the
-- number that it prints. `InRange` names two dates that a duration of 64 bits can lie between; a
-- date has no other bound.
--
-- Parameters: argon2 with its version (the services take the hashes whole, as `Passwords`), the clock,
-- the offset of the business zone, the identifier generator and the collation of the database (`Env`),
-- and the signature of a session (HMAC-SHA256), which is only taken to be bytes. `UuidForm` is the text
-- of github.com/google/uuid: `IsCanonical` says that the text of 128 bits is 36 bytes without a colon,
-- and reads back. Failures of the connection to the database are not modelled, nor is a second process
-- on the same tables: a transaction runs alone.
--
-- The detection of a content type (net/http) and SHA-256 are parameters of the media store.
--
-- Bounds: `as_stored` keeps the 32 bits of the column of the epoch of a user, as the store writes it.
-- `to_lower` lowers ASCII, Latin-1 and Russian letters, where the source lowers every letter of Unicode:
-- an address or a search with other capitals is outside the model.
--
-- Not modelled: the configuration, the labels, the views, the list of the models with its filter and the
-- page of the milestone list, the router and the links that write the log or a header, and the
-- commands. They are input and output, texts of screens, or glue around the operations above.
pub mod Prelude
pub mod Ids
pub mod Errors
pub mod Validate
pub mod Date
pub mod Schema
pub mod World
pub mod Auth
pub mod Trail
pub mod Accounts
pub mod Rearranges
pub mod Session
pub mod Password
pub mod Slots
pub mod Media
pub mod Catalog
pub mod Middleware
pub mod Screens
pub mod Milestones
pub mod Tests
