-- ===== src/Migrate/Directory.antt =====
-- cmd/migrate.go: where the files of the migrations are looked for.
use e5renew.Prelude.{Bool, Option, none, some, List, [], ◌∷◌, ◌++◌, if◌then◌else◌}
use e5renew.Text.{Bytes, codes, is_empty, trim_space}
use e5renew.Engine.{Engine, engine_text}
use e5renew.Migrate.FilePath.{join, dir}

-- The configuration of the migrations' directory, and what the system tells of directories; an
-- error of the system is `none`.
pub record Directories : Type 0 where
  pub configured : Bytes
  pub env_dir : Bytes
  pub executable : Option Bytes
  pub working_directory : Option Bytes
  pub caller : Option Bytes
  pub absolute : Bytes → Option Bytes
  pub is_directory : Bytes → Bool

abbrev pub or_else : Option Bytes → Bytes → Bytes
or_else none d = d
or_else (some s) d = s

abbrev pub root_of : (Bytes → Option Bytes) → Option Bytes → Bytes
root_of absolute none = codes "."
root_of absolute (some filename) = or_else (absolute (dir (dir filename))) (dir (dir filename))

abbrev pub app_migrations : Bytes
app_migrations = codes "/app/migrations"

abbrev pub if_known : Option Bytes → List Bytes
if_known none = []
if_known (some base) = join base (codes "migrations") ∷ []

abbrev pub next_to : Option Bytes → List Bytes
next_to none = []
next_to (some exe) = join (dir exe) (codes "migrations") ∷ []

module _ (d : Directories) where
  unfoldable pub module_root : Bytes
  unfolding dir
  module_root = root_of d.absolute d.caller

  unfoldable pub candidates : List Bytes
  unfolding module_root join dir
  candidates =
      app_migrations
      ∷ (next_to d.executable
          ++ (if_known d.working_directory
              ++ (if is_empty module_root then [] else join module_root (codes "migrations") ∷ [])))

  -- The loop over the candidates
  unfoldable pub first_existing : Bytes → List Bytes → Option Bytes
  unfolding join
  first_existing engine [] = none
  first_existing engine (base ∷ bases) =
      let rest = first_existing engine bases in
      if d.is_directory (join base engine) then some (join base engine) else rest

  unfoldable pub migrations_path : Engine → Bytes
  unfolding trim_space join first_existing candidates
  migrations_path engine =
      let name = engine_text engine in
      if is_empty (trim_space d.configured)
      then if is_empty (trim_space d.env_dir)
        then or_else (first_existing name candidates) (join app_migrations name)
        else join (trim_space d.env_dir) name
      else join (trim_space d.configured) name
