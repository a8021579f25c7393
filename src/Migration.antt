-- ===== src/Migration.antt =====
-- The running of migrations, internal/pkg/migration/module.go, over the package golang-migrate, which
-- is a parameter: its operations on a database in `M`.
use Prim.Native.String.{◌++◌ as append}
use my_go.Common.{
  ℕ, ℤ, pos, String, Option, none, some, Bool, false, if◌then◌else◌, Fallible, ok, err,
}

-- `no_change` is `migrate.ErrNoChange` and `nil_version` is `migrate.ErrNilVersion`.
pub data MigrateError : Type 0 where
  no_change nil_version : MigrateError
  migrate_error : String → MigrateError

abbrev text_of : MigrateError → String
text_of no_change = "no change"
text_of nil_version = "no migration"
text_of (migrate_error e) = e

-- A version with whether it is dirty; `close` gives the errors of the source and of the database.
pub record Migrate (M : Type 0) : Type 0 where
  pub up : M → M × Option MigrateError
  pub down : M → M × Option MigrateError
  pub steps : ℤ → M → M × Option MigrateError
  pub version : M → Fallible MigrateError (ℕ × Bool)
  pub force : ℤ → M → M × Option MigrateError
  pub close : M → M × (Option MigrateError × Option MigrateError)

-- An error with its prefix; that nothing changed is no error.
abbrev unless_no_change : String → Option MigrateError → Option String
unless_no_change prefix none = none
unless_no_change prefix (some no_change) = none
unless_no_change prefix (some nil_version) = some (append prefix "no migration")
unless_no_change prefix (some (migrate_error e)) = some (append prefix e)

abbrev prefixed : String → Option MigrateError → Option String
prefixed prefix none = none
prefixed prefix (some e) = some (append prefix (text_of e))

abbrev version_or_none : Fallible MigrateError (ℕ × Bool) → Fallible String (ℕ × Bool)
version_or_none (ok v) = ok v
version_or_none (err nil_version) = ok (0, false)
version_or_none (err no_change) = err "get version: no change"
version_or_none (err (migrate_error e)) = err (append "get version: " e)

abbrev close_error : Option MigrateError × Option MigrateError → Option String
close_error (some e, db) = some (append "close source: " (text_of e))
close_error (none, some e) = some (append "close database: " (text_of e))
close_error (none, none) = none

abbrev wrapped_text : String → Option String → Option String
wrapped_text prefix none = none
wrapped_text prefix (some e) = some (append prefix e)

module _ {M : Type 0} (migrate : Migrate M) where
  unfoldable pub up : M → M × Option String
  up m = let (m', e) = migrate.up m in (m', unless_no_change "migrate up: " e)

  unfoldable pub down : M → M × Option String
  down m = let (m', e) = migrate.down m in (m', unless_no_change "migrate down: " e)

  unfoldable pub steps : ℤ → M → M × Option String
  steps n m = let (m', e) = migrate.steps n m in (m', unless_no_change "migrate steps: " e)

  unfoldable pub version : M → Fallible String (ℕ × Bool)
  version m = version_or_none (migrate.version m)

  unfoldable pub force : ℤ → M → M × Option String
  force n m = let (m', e) = migrate.force n m in (m', prefixed "force version: " e)

  unfoldable pub close : M → M × Option String
  close m = let (m', es) = migrate.close m in (m', close_error es)

  -- `Up` at the end of `RunMigrations`; the last reading of the version is only logged.
  abbrev run_up : M → M × Option String
  run_up m = let (m', e) = up m in (m', wrapped_text "run migrations: " e)

  abbrev after_force : M × Option String → M × Option String
  after_force (m, some e) = (m, some (append "force version: " e))
  after_force (m, none) = run_up m

  abbrev at_version : Fallible String (ℕ × Bool) → M → M × Option String
  at_version (err e) m = (m, some (append "get migration version: " e))
  at_version (ok (n, dirty)) m =
      let clean = run_up m in
      let forced = after_force (force (pos n) m) in if dirty then forced else clean

  abbrev and_close : M × Option String → M × Option String
  and_close (m, e) = ((close m).0, e)

  -- `RunMigrations`, on what `NewMigrator` gives; the error of `Close` is only logged.
  unfoldable pub run_migrations : Fallible String M → M → M × Option String
  run_migrations (err e) m = (m, some (append "create migrator: " e))
  run_migrations (ok opened) m = and_close (at_version (version opened) opened)
