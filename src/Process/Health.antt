-- ===== src/Process/Health.antt =====
-- cmd/server/main.go: the answers of /healthz and /readyz.
use cb_back.Prelude.{
  ℕ, ◌≡◌, ◌↔◌, refl, Option, none, some, [], ◌∷◌, Text, codes, Dict, insert, lookup, delete,
  text_eq, arith,
}
use cb_back.Prelude.Int.{ℤ}

pub record Health : Type 0 where
  pub status : Text
  pub clients : ℤ
  pub inboxes : ℤ

-- With the counts of the two hubs.
unfoldable pub health : ℤ → ℤ → ℕ × Health
health clients inboxes = (200, record { status = codes "ok"; clients = clients; inboxes = inboxes })

-- The checks of one store, by the error of its Ping.
abbrev pub checked : Text → Option Text → ℕ × Dict Text → ℕ × Dict Text
checked name none r = r
checked name (some e) (status, checks) = (503, insert name e checks)

unfoldable pub ready : Option Text → Option Text → ℕ × Dict Text
ready postgres redis = checked (codes "redis") redis (
    checked (codes "postgres") postgres
      (200, (codes "postgres", codes "ok") ∷ (codes "redis", codes "ok") ∷ []))

-- What a check reports.
abbrev pub report_of : Option Text → Text
report_of none = codes "ok"
report_of (some e) = e

-- The server is ready while both stores answer, and each check is told, also where both fail.
pub ready_lem :
    (postgres redis : Option Text)
    → (((ready postgres redis).0 ≡ 200) ↔ ((postgres ≡ none) × (redis ≡ none)))
      × (lookup (codes "postgres") (ready postgres redis).1 ≡ some (report_of postgres))
      × (lookup (codes "redis") (ready postgres redis).1 ≡ some (report_of redis))
unfolding ready insert lookup delete text_eq
ready_lem none none = (ground arith, refl, refl)
ready_lem none (some f) = (ground arith, refl, refl)
ready_lem (some e) none = (ground arith, refl, refl)
ready_lem (some e) (some f) = (ground arith, refl, refl)
