-- ===== src/Migrations/Progress.antt =====
-- internal/database/migrate.go: what a run of Migrate leaves in schema_migrations.
use cb_back.Prelude.{
  ◌≡◌, refl, sym, ap, subst, ◌∙◌, Bool, true, false, ◌⊎◌, inl, inr, Option, none, some, List, [],
  ◌∷◌, ◌++◌, append-nil, append_assoc, Text, arith, Bool-cases,
}
use cb_back.Prelude.Strings.{among, IsOnce}
use cb_back.Migrations.Pending.{sort-IsOnce, pending_rest, pending_same}
use cb_back.Prelude.Results.{Result, done, failed}
use cb_back.Prelude.Stateful.{Step, ◌>>=◌}
use cb_back.Migrations.{
  Postgres, Failure, sort, pending, apply_migration, file_read, begun, executed, recorded,
  committed, apply_all, with_applied, with_table, with_lock, with_connection, with_files, migrate,
  migration_files, some_files,
}

module _ (db : Postgres) where
  open db use {
    State, versions, begin, execute, insert_version, commit, select_versions, versions-begin,
    versions-execute, versions-insert, commit_done, commit_any,
  }

  -- One file: it is recorded or nothing is, and it is if no error is reported.
  abbrev IsApplied : Text → List Text → Result Failure (Unit {0}) × State → Type 0
  IsApplied name vs (done a, s') = versions s' ≡ vs ++ name ∷ []
  IsApplied name vs (failed e, s') = (versions s' ≡ vs) ⊎ (versions s' ≡ vs ++ name ∷ [])

  committed-IsApplied :
      (name : Text) (vs : List Text) (t s : State) (r : Bool × State)
      → versions t ≡ vs ++ name ∷ []
      → versions s ≡ vs
      → commit t s ≡ r
      → IsApplied name vs (committed db name r)
  committed-IsApplied name vs t s (true, s') n h c =
      let reported : (commit t s).0 ≡ true = ap (λ r. r.0) c in
      ap versions (sym (ap (λ r. r.1) c) ∙ commit_done t s reported) ∙ n
  committed-IsApplied name vs t s (false, s') n h c = elim (commit_any t s) [
    | inl p ↦ inr (ap versions (sym (ap (λ r. r.1) c) ∙ p) ∙ n)
    | inr p ↦ inl (ap versions (sym (ap (λ r. r.1) c) ∙ p) ∙ h)
  ]

  recorded-IsApplied :
      (name : Text) (vs : List Text) (t s : State) (r : Bool × State)
      → versions t ≡ vs
      → versions s ≡ vs
      → insert_version name t ≡ r
      → IsApplied name vs (recorded db name s r)
  recorded-IsApplied name vs t s (false, t') n h c = inl h
  recorded-IsApplied name vs t s (true, t') n h c =
      let reported : (insert_version name t).0 ≡ true = ap (λ r. r.0) c in
      committed-IsApplied name vs t' s (commit t' s)
        (ap versions (sym (ap (λ r. r.1) c))
          ∙ versions-insert name t reported
          ∙ ap (λ ws. ws ++ name ∷ []) n)
        h refl

  executed-IsApplied :
      (name : Text) (vs : List Text) (s : State) (r : Bool × State)
      → versions r.1 ≡ vs
      → versions s ≡ vs
      → IsApplied name vs (executed db name s r)
  executed-IsApplied name vs s (false, t) n h = inl h
  executed-IsApplied name vs s (true, t) n h =
      recorded-IsApplied name vs t s (insert_version name t) n h refl

  begun-IsApplied :
      (name body : Text) (vs : List Text) (s : State) (r : Option State)
      → begin s ≡ r
      → versions s ≡ vs
      → IsApplied name vs (begun db name body s r)
  begun-IsApplied name body vs s none c h = inl h
  begun-IsApplied name body vs s (some t) c h =
      executed-IsApplied name vs s (execute body t)
        (versions-execute body t ∙ versions-begin s t c ∙ h) h

  read-IsApplied :
      (name : Text) (vs : List Text) (body : Option Text) (s : State)
      → versions s ≡ vs
      → IsApplied name vs (file_read db name body s)
  read-IsApplied name vs none s h = inl h
  read-IsApplied name vs (some body) s h = begun-IsApplied name body vs s (begin s) refl h

  -- Some of the files that were pending are recorded, in their order and behind those that were
  -- there, and all of them if no error is reported.
  pub record IsProgress (todo vs : List Text) (r : Result Failure (Unit {0}) × State) : Type 0 where
    pub front : List Text
    pub rest : List Text
    pub in_order : front ++ rest ≡ todo
    pub versions_after : versions r.1 ≡ vs ++ front
    pub complete : r.0 ≡ done tt → rest ≡ []

  -- Nothing done.
  unchanged-IsProgress :
      (todo vs : List Text) (e : Failure) (s : State)
      → versions s ≡ vs
      → IsProgress todo vs (failed e, s)
  unchanged-IsProgress todo vs e s h = record {
    front = [];
    rest = todo;
    in_order = refl;
    versions_after = h ∙ sym (append-nil vs);
    complete = λ k. ground (arith, k);
  }

  one_more :
      (name : Text) (todo vs : List Text) (r : Result Failure (Unit {0}) × State)
      → IsProgress todo (vs ++ name ∷ []) r
      → IsProgress (name ∷ todo) vs r
  one_more name todo vs r p = record {
    front = name ∷ p.front;
    rest = p.rest;
    in_order = ap (◌∷◌ name) p.in_order;
    versions_after = p.versions_after ∙ append_assoc vs (name ∷ []) p.front;
    complete = p.complete;
  }

  next-IsProgress :
      (name : Text) (todo vs : List Text) (x : Result Failure (Unit {0}) × State)
      (go : Step State Failure (Unit {0}))
      → IsApplied name vs x
      → ((s : State) → versions s ≡ vs ++ name ∷ [] → IsProgress todo (vs ++ name ∷ []) (go s))
      → IsProgress (name ∷ todo) vs (((λ (s : State). x) >>= λ _. go) x.1)
  next-IsProgress name todo vs (done a, s) go h k = one_more name todo vs (go s) (k s h)
  next-IsProgress name todo vs (failed e, s) go (inl h) k =
      unchanged-IsProgress (name ∷ todo) vs e s h
  next-IsProgress name todo vs (failed e, s) go (inr h) k =
      one_more name todo vs (failed e, s) (unchanged-IsProgress todo (vs ++ name ∷ []) e s h)

  apply_all-IsProgress :
      (applied files vs : List Text) (s : State)
      → versions s ≡ vs
      → IsProgress (pending applied files) vs (apply_all db applied files s)
  unfolding apply_all pending apply_migration
  apply_all-IsProgress applied [] vs s h = record {
    front = [];
    rest = [];
    in_order = refl;
    versions_after = h ∙ sym (append-nil vs);
    complete = λ k. refl;
  }
  apply_all-IsProgress applied (name ∷ files) vs s h = elim (Bool-cases (among applied name)) [
    | inl p ↦ rw p (apply_all-IsProgress applied files vs s h)
    | inr p ↦ rw p (
        next-IsProgress name (pending applied files) vs (apply_migration db name s)
          (apply_all db applied files) (read-IsApplied name vs _ s h)
          (λ s' h'. apply_all-IsProgress applied files (vs ++ name ∷ []) s' h'))
  ]

  module _ (vs files : List Text) where
    abbrev Progresses : Result Failure (Unit {0}) × State → Type 0
    Progresses = IsProgress (pending vs files) vs

    applied-IsProgress :
        (found : Option (List Text)) (s : State)
        → versions s ≡ vs
        → ((ws : List Text) (name : Text) → found ≡ some ws → among ws name ≡ among vs name)
        → Progresses (with_applied db files found s)
    applied-IsProgress none s h k = unchanged-IsProgress _ vs _ s h
    applied-IsProgress (some ws) s h k =
        subst (λ todo. IsProgress todo vs (apply_all db ws files s))
          (pending_same ws vs files (λ name. k ws name refl)) (apply_all-IsProgress ws files vs s h)

    table-IsProgress : (r : Bool × State) → versions r.1 ≡ vs → Progresses (with_table db files r)
    table-IsProgress (false, s) h = unchanged-IsProgress _ vs _ s h
    table-IsProgress (true, s) h =
        applied-IsProgress (select_versions s) s h
          (λ ws name k. db.select_lem s ws name k ∙ ap (λ us. among us name) h)

    -- The deferred calls change no row.
    deferred-IsProgress :
        (f : State → State) (r : Result Failure (Unit {0}) × State)
        → ((s : State) → versions (f s) ≡ versions s)
        → Progresses r
        → Progresses (r.0, f r.1)
    deferred-IsProgress f r k p = record {
      front = p.front;
      rest = p.rest;
      in_order = p.in_order;
      versions_after = k r.1 ∙ p.versions_after;
      complete = p.complete;
    }

    lock-IsProgress : (r : Bool × State) → versions r.1 ≡ vs → Progresses (with_lock db files r)
    lock-IsProgress (false, s) h = unchanged-IsProgress _ vs _ s h
    lock-IsProgress (true, s) h =
        deferred-IsProgress db.unlock _ db.versions-unlock
          (table-IsProgress (db.create_table s) (db.versions-create s ∙ h))

  -- What others recorded before the lock was granted comes first.
  after_others :
      (files vs front rest : List Text) (r : Result Failure (Unit {0}) × State)
      → IsOnce files
      → front ++ rest ≡ pending vs files
      → IsProgress (pending (vs ++ front) files) (vs ++ front) r
      → IsProgress (pending vs files) vs r
  after_others files vs front rest r d h p = record {
    front = front ++ p.front;
    rest = p.rest;
    in_order =
        append_assoc front p.front p.rest
        ∙ ap (λ xs. front ++ xs) (p.in_order ∙ pending_rest files vs front rest d h)
        ∙ h;
    versions_after = p.versions_after ∙ append_assoc vs front p.front;
    complete = p.complete;
  }

  module _ (names : List Text) (given : db.glob ≡ some names) (once : IsOnce names) where
    connection-IsProgress :
        (vs : List Text) (r : Bool × State)
        → versions r.1 ≡ vs
        → IsProgress (pending vs (sort names)) vs (with_connection db (sort names) r)
    connection-IsProgress vs (false, s) h = unchanged-IsProgress _ vs _ s h
    connection-IsProgress vs (true, s) h =
        let (front, rest, in_order, granted) = db.versions-lock s names given in
        after_others (sort names) vs front rest _ (sort-IsOnce names once)
          (in_order ∙ ap (λ us. pending us (sort names)) h)
          (deferred-IsProgress (vs ++ front) (sort names) db.release _ db.versions-release (
            lock-IsProgress (vs ++ front) (sort names) (db.lock s)
              (granted ∙ ap (λ us. us ++ front) h)))

  files-IsProgress :
      (names : List Text) (s : State)
      → db.glob ≡ some names
      → IsOnce names
      → IsProgress
          (pending (versions s) (sort names))
          (versions s)
          (with_files db (some_files names) s)
  files-IsProgress [] s given once =
      unchanged-IsProgress (pending (versions s) (sort [])) (versions s) _ s refl
  files-IsProgress (name ∷ names) s given once =
      connection-IsProgress (name ∷ names) given once (versions s) (db.acquire s)
        (db.versions-acquire s)

  -- However a run of Migrate comes out, it or those that it waited for have recorded the first of the files
  -- that were pending, in ascending order and behind the ones that were there, and all of them if it reports
  -- no error.
  pub migrate-IsProgress :
      (names : List Text) (s : State)
      → db.glob ≡ some names
      → IsOnce names
      → IsProgress (pending (versions s) (sort names)) (versions s) (migrate db s)
  unfolding migrate
  migrate-IsProgress names s h once =
      subst
        (λ found.
          IsProgress (pending (versions s) (sort names)) (versions s)
            (with_files db (migration_files found) s))
        (sym h) (files-IsProgress names s h once)
