-- ===== src/Migrations/Resume.antt =====
-- internal/database/migrate.go: a run after others goes on where they stopped.
use cb_back.Prelude.{
  ℕ, zero, suc, ◌≡◌, refl, sym, ap, ◌∙◌, some, List, [], ◌++◌, append-nil, append_assoc, Text,
}
use cb_back.Prelude.Strings.{IsOnce}
use cb_back.Prelude.Results.{done}
use cb_back.Migrations.{Postgres, sort, migrate, pending}
use cb_back.Migrations.Progress.{migrate-IsProgress}
use cb_back.Migrations.Pending.{sort-IsOnce, pending_rest}

module _ (db : Postgres) where
  open db use {State, versions}

  -- The state after a number of runs, whatever became of them.
  abbrev pub after_runs : ℕ → State → State
  after_runs zero s = s
  after_runs (suc n) s = after_runs n (migrate db s).1

  module _ (names : List Text) (given : db.glob ≡ some names) (once : IsOnce names) where
    -- What the runs have left of the files.
    record IsUnderway (s s' : State) : Type 0 where
      front : List Text
      rest : List Text
      in_order : front ++ rest ≡ pending (versions s) (sort names)
      versions_after : versions s' ≡ versions s ++ front

    left_over : (s s' : State) (u : IsUnderway s s') → pending (versions s') (sort names) ≡ u.rest
    left_over s s' u =
        ap (λ vs. pending vs (sort names)) u.versions_after
        ∙ pending_rest (sort names) (versions s) u.front u.rest (sort-IsOnce names once) u.in_order

    run-IsUnderway : (s : State) → IsUnderway s (migrate db s).1
    run-IsUnderway s =
        let p = migrate-IsProgress db names s given once in
        record {
          front = p.front;
          rest = p.rest;
          in_order = p.in_order;
          versions_after = p.versions_after;
        }

    IsUnderway-trans : (s t u : State) → IsUnderway s t → IsUnderway t u → IsUnderway s u
    IsUnderway-trans s t u a b = record {
      front = a.front ++ b.front;
      rest = b.rest;
      in_order =
          append_assoc a.front b.front b.rest
          ∙ ap (λ xs. a.front ++ xs) (b.in_order ∙ left_over s t a)
          ∙ a.in_order;
      versions_after =
          b.versions_after
          ∙ ap (λ vs. vs ++ b.front) a.versions_after
          ∙ append_assoc (versions s) a.front b.front;
    }

    runs-IsUnderway : (n : ℕ) (s : State) → IsUnderway s (after_runs n s)
    runs-IsUnderway zero s = record {
      front = [];
      rest = pending (versions s) (sort names);
      in_order = refl;
      versions_after = sym (append-nil (versions s));
    }
    runs-IsUnderway (suc n) s =
        IsUnderway-trans s (migrate db s).1 _ (run-IsUnderway s)
          (runs-IsUnderway n (migrate db s).1)

    -- With the files named once each: after any number of runs, also failed ones, and also where others
    -- migrated while a run waited for its lock, a run that reports no error leaves what a single run
    -- would have left: every file that was pending at the start, once and in ascending order.
    pub migrate_resumes :
        (n : ℕ) (s : State)
        → (migrate db (after_runs n s)).0 ≡ done tt
        → versions (migrate db (after_runs n s)).1 ≡ versions s ++ pending (versions s) (sort names)
    migrate_resumes n s h =
        let t = after_runs n s in
        let u = runs-IsUnderway n s in
        let p = migrate-IsProgress db names t given once in
        let all_left : p.front ≡ u.rest =
          sym (append-nil p.front)
          ∙ ap (λ xs. p.front ++ xs) (sym (p.complete h))
          ∙ p.in_order
          ∙ left_over s t u in
        p.versions_after
        ∙ ap (λ xs. versions t ++ xs) all_left
        ∙ ap (λ vs. vs ++ u.rest) u.versions_after
        ∙ append_assoc (versions s) u.front u.rest
        ∙ ap (λ xs. versions s ++ xs) u.in_order
