-- ===== src/Tests/Start.antt =====
-- Migrations in memory, of which the second has failed before, and a credential for the relay.
use cb_back.Prelude.{
  append-nil, ℕ, ◌≡◌, refl, false, true, Bool, not, ◌&&◌, ◌==◌, sym, suc, inl, Option, some, List,
  [], ◌∷◌, ◌++◌, Text, codes, arith, text_eq, null, ap,
}
use cb_back.Prelude.Strings.{among}
use cb_back.Migrations.{
  Postgres, migrate, sort, text_leb, insert_sorted, apply_migration, apply_all,
}
use cb_back.Migrations.{pending}
use cb_back.Migrations.Resume.{after_runs, migrate_resumes}
use cb_back.Turn.{Handlers, mint, credentials}
use cb_back.Turn.Username.{IsCredential, credentials-IsCredential}

pub some_lem : (vs ws : List Text) → ◌≡◌ {A = Option (List Text)} (some vs) (some ws) → ws ≡ vs
some_lem vs ws h = ground (arith, h)

-- The versions, and how many more statements of a file succeed.
abbrev pub Schema : Type 0
Schema = List Text × ℕ

pub begin_lem : (s t : Schema) → ◌≡◌ {A = Option Schema} (some s) (some t) → t.0 ≡ s.0
begin_lem s t h = let same : s ≡ t = ground (arith, h) in ap (λ (x : Schema). x.0) (sym same)

-- The file 2.sql fails once.
abbrev pub execute : Text → Schema → Bool × Schema
execute body (vs, n) = (not (text_eq body (codes "2.sql") && n == 0), (vs, n))

abbrev pub postgres : Postgres
postgres = record {
  State = Schema;
  versions = λ s. s.0;
  glob = some (codes "2.sql" ∷ codes "1.sql" ∷ []);
  read_file = λ name. some name;
  acquire = λ s. (true, s);
  lock = λ s. (true, s);
  create_table = λ s. (true, s);
  select_versions = λ s. some s.0;
  begin = λ s. some s;
  execute = execute;
  insert_version = λ name s. (true, (s.0 ++ name ∷ [], s.1));
  commit = λ t s. (true, t);
  unlock = λ s. s;
  release = λ s. (s.0, suc s.1);
  versions-acquire = λ s. refl;
  versions-lock = λ s names h. ([], pending s.0 (sort names), refl, sym (append-nil s.0));
  versions-create = λ s. refl;
  versions-unlock = λ s. refl;
  versions-release = λ s. refl;
  select_lem = λ s vs name h. ap (λ us. among us name) (some_lem s.0 vs h);
  versions-begin = λ s t h. begin_lem s t h;
  versions-execute = λ body s. refl;
  versions-insert = λ name s h. refl;
  commit_done = λ t s h. refl;
  commit_any = λ t s. inl refl;
}

migrate_resumes_example :
    (migrate postgres (after_runs postgres 1 ([], 0))).1.0
    ≡ [] ++ pending [] (sort (codes "2.sql" ∷ codes "1.sql" ∷ []))
unfolding migrate sort insert_sorted text_leb apply_all apply_migration among text_eq
migrate_resumes_example =
    migrate_resumes postgres (codes "2.sql" ∷ codes "1.sql" ∷ []) refl (refl, (refl, tt)) 1 ([], 0)
      refl

abbrev handlers : Handlers
handlers = record {
  secret = codes "s";
  urls = codes "turn:relay" ∷ [];
  ttl = 60000000000;
  hmac = λ k t. k ++ t;
  encode = λ t. t;
}

-- An id with a colon in it.
credentials-IsCredential_example :
    (null handlers.secret ≡ false)
    × ((id : Text) × (some (codes "a:b") ≡ some id)
        × IsCredential handlers 5000000000 id (mint handlers 5000000000 (codes "a:b")))
unfolding credentials
credentials-IsCredential_example =
    credentials-IsCredential handlers 5000000000 (some (codes "a:b"))
      (mint handlers 5000000000 (codes "a:b")) refl
