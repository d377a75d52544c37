-- ===== src/Migrations.antt =====
-- internal/database/migrate.go: Migrate, over the statements it runs in Postgres.
pub mod Order
pub mod Pending
pub mod Progress
pub mod Resume
use cb_back.Prelude.{
  ℕ, ◌≡◌, Bool, true, false, ◌&&◌, ◌||◌, ◌⊎◌, Option, none, some, List, [], ◌∷◌, ◌++◌, Text, null,
  ltb, ◌==◌, if◌then◌else◌,
}
use cb_back.Prelude.Strings.{among}
use cb_back.Prelude.Results.{Result, done, failed}
use cb_back.Prelude.Stateful.{Step, ◌>>=◌, pure, raise}

-- Why a migration fails; the error of a file has its name.
pub data Failure : Type 0 where
  no_files no_migrations no_connection no_lock no_table no_versions : Failure
  read_failed begin_failed apply_failed record_failed commit_failed : Text → Failure

-- Go's order of strings.
unfoldable pub text_leb : Text → Text → Bool
text_leb [] b = true
text_leb (x ∷ a) [] = false
text_leb (x ∷ a) (y ∷ b) = ltb x y || (x == y && text_leb a b)

unfoldable pub insert_sorted : Text → List Text → List Text
insert_sorted a [] = a ∷ []
insert_sorted a (b ∷ bs) =
    let rest = insert_sorted a bs in if text_leb a b then a ∷ b ∷ bs else b ∷ rest

-- sort.Strings
unfoldable pub sort : List Text → List Text
sort [] = []
sort (a ∷ as') = insert_sorted a (sort as')

-- The files that are not recorded yet, in their order.
unfoldable pub pending : List Text → List Text → List Text
pending vs [] = []
pending vs (name ∷ names) =
    let rest = pending vs names in if among vs name then rest else name ∷ rest

-- The embedded files and the statements of Migrate as Postgres answers them. `versions` are the rows
-- of schema_migrations in the order in which they came in, none where the table is missing; a file's
-- own statements leave them alone. A transaction works on its own copy of the state; a commit that
-- reports an error may have taken effect or not. The rows are read in any order. The advisory lock blocks
-- while other replicas migrate, so that it may be granted with rows that were not there before: those of the
-- first of the pending files, as far as the others came.
pub record Postgres : Type 1 where
  pub State : Type 0
  pub versions : State → List Text
  pub glob : Option (List Text)
  pub read_file : Text → Option Text
  pub acquire : State → Bool × State
  pub lock : State → Bool × State
  pub create_table : State → Bool × State
  pub select_versions : State → Option (List Text)
  pub begin : State → Option State
  pub execute : Text → State → Bool × State
  pub insert_version : Text → State → Bool × State
  pub commit : State → State → Bool × State
  pub unlock : State → State
  pub release : State → State
  pub versions-acquire : (s : State) → versions (acquire s).1 ≡ versions s
  pub versions-lock :
      (s : State) (names : List Text)
      → glob ≡ some names
      → (front : List Text) × (rest : List Text) × (front ++ rest
          ≡ pending (versions s) (sort names))
        × (versions (lock s).1 ≡ versions s ++ front)
  pub versions-create : (s : State) → versions (create_table s).1 ≡ versions s
  pub versions-unlock : (s : State) → versions (unlock s) ≡ versions s
  pub versions-release : (s : State) → versions (release s) ≡ versions s
  pub select_lem :
      (s : State) (vs : List Text) (name : Text)
      → select_versions s ≡ some vs
      → among vs name ≡ among (versions s) name
  pub versions-begin : (s t : State) → begin s ≡ some t → versions t ≡ versions s
  pub versions-execute : (body : Text) (t : State) → versions (execute body t).1 ≡ versions t
  pub versions-insert :
      (name : Text) (t : State)
      → (insert_version name t).0 ≡ true
      → versions (insert_version name t).1 ≡ versions t ++ name ∷ []
  pub commit_done : (t s : State) → (commit t s).0 ≡ true → (commit t s).1 ≡ t
  pub commit_any : (t s : State) → ((commit t s).1 ≡ t) ⊎ ((commit t s).1 ≡ s)

abbrev pub some_files : List Text → Result Failure (List Text)
some_files names = if null names then failed no_migrations else done (sort names)

abbrev pub migration_files : Option (List Text) → Result Failure (List Text)
migration_files none = failed no_files
migration_files (some names) = some_files names

module _ (db : Postgres) where
  open db use {
    State, glob, read_file, acquire, lock, create_table, select_versions, begin, execute,
    insert_version, commit, unlock, release,
  }

  -- The rest of the transaction, on its copy `t`; leaving it without a commit drops the copy.
  abbrev pub committed : Text → Bool × State → Result Failure (Unit {0}) × State
  committed name (true, s) = (done tt, s)
  committed name (false, s) = (failed (commit_failed name), s)

  abbrev pub recorded : Text → State → Bool × State → Result Failure (Unit {0}) × State
  recorded name s (false, t) = (failed (record_failed name), s)
  recorded name s (true, t) = committed name (commit t s)

  abbrev pub executed : Text → State → Bool × State → Result Failure (Unit {0}) × State
  executed name s (false, t) = (failed (apply_failed name), s)
  executed name s (true, t) = recorded name s (insert_version name t)

  abbrev pub begun : Text → Text → State → Option State → Result Failure (Unit {0}) × State
  begun name body s none = (failed (begin_failed name), s)
  begun name body s (some t) = executed name s (execute body t)

  abbrev pub file_read : Text → Option Text → State → Result Failure (Unit {0}) × State
  file_read name none s = (failed (read_failed name), s)
  file_read name (some body) s = begun name body s (begin s)

  unfoldable pub apply_migration : Text → Step State Failure (Unit {0})
  apply_migration name s = file_read name (read_file name) s

  -- The loop of Migrate.
  unfoldable pub apply_all : List Text → List Text → Step State Failure (Unit {0})
  apply_all applied [] = pure tt
  apply_all applied (name ∷ names) =
      let rest = apply_all applied names in
      if among applied name then rest else apply_migration name >>= λ _. rest

  abbrev pub with_applied : List Text → Option (List Text) → Step State Failure (Unit {0})
  with_applied files none = raise no_versions
  with_applied files (some applied) = apply_all applied files

  abbrev pub with_table : List Text → Bool × State → Result Failure (Unit {0}) × State
  with_table files (false, s) = (failed no_table, s)
  with_table files (true, s) = with_applied files (select_versions s) s

  -- The deferred release of the lock.
  abbrev pub unlocked : Result Failure (Unit {0}) × State → Result Failure (Unit {0}) × State
  unlocked (r, s) = (r, unlock s)

  abbrev pub with_lock : List Text → Bool × State → Result Failure (Unit {0}) × State
  with_lock files (false, s) = (failed no_lock, s)
  with_lock files (true, s) = unlocked (with_table files (create_table s))

  abbrev pub released : Result Failure (Unit {0}) × State → Result Failure (Unit {0}) × State
  released (r, s) = (r, release s)

  abbrev pub with_connection : List Text → Bool × State → Result Failure (Unit {0}) × State
  with_connection files (false, s) = (failed no_connection, s)
  with_connection files (true, s) = released (with_lock files (lock s))

  abbrev pub with_files : Result Failure (List Text) → Step State Failure (Unit {0})
  with_files (failed e) s = (failed e, s)
  with_files (done files) s = with_connection files (acquire s)

  unfoldable pub migrate : Step State Failure (Unit {0})
  migrate = with_files (migration_files glob)
