-- ===== src/Migrate/Candidates.antt =====
-- Which directory cmd/migrate.go takes, and that the migrator is opened for the dialect of the
-- database.
use e5renew.Prelude.{
  ◌⊎◌, Option, none, some, ◌++◌, ◌≡◌, refl, inl, inr, Bool, true, false, List, [], ◌∷◌, Bool-cases,
  if◌then◌else◌,
}
use e5renew.Text.{Bytes, codes, is_empty, trim_space}
use e5renew.Engine.{Engine, engine_text}
use e5renew.Migrate.FilePath.{join, dir}
use e5renew.Migrate.Directory.{
  Directories, app_migrations, root_of, if_known, next_to, module_root, or_else, candidates,
  first_existing, migrations_path,
}

-- The path found by looking through bases: below the first base where it is a directory, and below
-- /app/migrations where it is one nowhere
pub data Search (d : Directories) (name : Bytes) : List Bytes → Bytes → Type 0 where
  found :
      {base path : Bytes} {bases : List Bytes}
      → path ≡ join base name
      → d.is_directory path ≡ true
      → Search d name (base ∷ bases) path
  later :
      {base path : Bytes} {bases : List Bytes}
      → d.is_directory (join base name) ≡ false
      → Search d name bases path
      → Search d name (base ∷ bases) path
  nowhere : {path : Bytes} → path ≡ join (codes "/app/migrations") name → Search d name [] path

module _ (d : Directories) where
  first_existing-Search :
      (name : Bytes) (bases : List Bytes)
      → Search d name bases (or_else (first_existing d name bases) (join app_migrations name))
  unfolding first_existing
  first_existing-Search name [] = nowhere refl
  first_existing-Search name (base ∷ bases) = elim (Bool-cases (d.is_directory (join base name))) [
    | inl is ↦ rw is (found refl is)
    | inr isnt ↦ rw isnt (later isnt (first_existing-Search name bases))
  ]

-- The one path that is made of a path if the system knows it, and none otherwise
pub data Known (o : Option Bytes) (make : Bytes → Bytes) : List Bytes → Type 0 where
  unknown : o ≡ none → Known o make []
  known : (s : Bytes) → o ≡ some s → Known o make (make s ∷ [])

-- The root of the module: two directories above the source file that calls, made absolute where that
-- can be, and "." where the file is not known
pub data Root (d : Directories) : Bytes → Type 0 where
  no_caller : d.caller ≡ none → Root d (codes ".")
  above :
      (file root : Bytes)
      → d.caller ≡ some file
      → d.absolute (dir (dir file)) ≡ some root
      → Root d root
  above_relative :
      (file : Bytes)
      → d.caller ≡ some file
      → d.absolute (dir (dir file)) ≡ none
      → Root d (dir (dir file))

-- Where the migrations are looked for: in /app/migrations, then in the directory "migrations" beside
-- the executable, below the working directory, and below the root of the module
pub record Places (d : Directories) (bases : List Bytes) : Type 0 where
  beside : List Bytes
  below : List Bytes
  at_root : List Bytes
  root : Bytes
  in_order : bases ≡ codes "/app/migrations" ∷ (beside ++ (below ++ at_root))
  executable : Known d.executable (λ file. join (dir file) (codes "migrations")) beside
  working : Known d.working_directory (λ wd. join wd (codes "migrations")) below
  rooted : Root d root
  there :
      ((is_empty root ≡ true) × (at_root ≡ []))
      ⊎ ((is_empty root ≡ false) × (at_root ≡ join root (codes "migrations") ∷ []))

next_to-Known :
    (o : Option Bytes) → Known o (λ file. join (dir file) (codes "migrations")) (next_to o)
next_to-Known none = unknown refl
next_to-Known (some file) = known file refl

if_known-Known : (o : Option Bytes) → Known o (λ wd. join wd (codes "migrations")) (if_known o)
if_known-Known none = unknown refl
if_known-Known (some wd) = known wd refl

module _ (d : Directories) where
  above-Root :
      (file : Bytes) (o : Option Bytes)
      → d.caller ≡ some file
      → d.absolute (dir (dir file)) ≡ o
      → Root d (or_else o (dir (dir file)))
  above-Root file none e a = above_relative file e a
  above-Root file (some root) e a = above file root e a

  root_of-Root : (o : Option Bytes) → d.caller ≡ o → Root d (root_of d.absolute o)
  root_of-Root none e = no_caller e
  root_of-Root (some file) e = above-Root file (d.absolute (dir (dir file))) e refl

  module_root-Root : Root d (module_root d)
  unfolding module_root
  module_root-Root = root_of-Root d.caller refl

  candidates-Places : Places d (candidates d)
  unfolding candidates
  candidates-Places = record {
    beside = next_to d.executable;
    below = if_known d.working_directory;
    at_root =
        if is_empty (module_root d) then [] else join (module_root d) (codes "migrations") ∷ [];
    root = module_root d;
    in_order = refl;
    executable = next_to-Known d.executable;
    working = if_known-Known d.working_directory;
    rooted = module_root-Root;
    there = elim (Bool-cases (is_empty (module_root d))) [
      | inl empty ↦ inl (empty, rw empty refl)
      | inr full ↦ inr (full, rw full refl)
    ];
  }

-- How a path is chosen: below the configured directory, below that of the environment variable, or
-- by the search
pub data Chosen (d : Directories) (name : Bytes) (path : Bytes) : Type 0 where
  by_configuration :
      is_empty (trim_space d.configured) ≡ false
      → path ≡ join (trim_space d.configured) name
      → Chosen d name path
  by_environment :
      is_empty (trim_space d.configured) ≡ true
      → is_empty (trim_space d.env_dir) ≡ false
      → path ≡ join (trim_space d.env_dir) name
      → Chosen d name path
  by_search :
      is_empty (trim_space d.configured) ≡ true
      → is_empty (trim_space d.env_dir) ≡ true
      → {bases : List Bytes} → Places d bases
      → Search d name bases path
      → Chosen d name path

-- The choice by the two tests, with their outcomes written apart
choice :
    (d : Directories) (name : Bytes) (unset env_unset : Bool)
    → is_empty (trim_space d.configured) ≡ unset
    → is_empty (trim_space d.env_dir) ≡ env_unset
    → Chosen d name (
        if unset
        then if env_unset
          then or_else (first_existing d name (candidates d)) (join app_migrations name)
          else join (trim_space d.env_dir) name
        else join (trim_space d.configured) name)
choice d name false e p q = by_configuration p refl
choice d name true false p q = by_environment p q refl
choice d name true true p q =
    by_search p q (candidates-Places d) (first_existing-Search d name (candidates d))

-- The directory of the migrations is the one for the engine below the configured directory, whether
-- or not it exists; if that is blank, below the one of the environment variable; and if both are,
-- below the first place where it is a directory, of /app/migrations, the directory "migrations" beside
-- the executable, below the working directory and below the root of the module, as far as the system
-- knows them; and below /app/migrations where it is one nowhere.
pub migrations_path-Chosen :
    (d : Directories) (engine : Engine) → Chosen d (engine_text engine) (migrations_path d engine)
unfolding migrations_path
migrations_path-Chosen d engine = choice d (engine_text engine) _ _ refl refl
