-- ===== src/Turn/Username.antt =====
-- internal/turn/handlers.go: the relay reads from a username what mint put there.
use cb_back.Prelude.{
  ℕ, ◌+◌, ◌*◌, ◌≤◌, ◌<◌, ◌≡◌, refl, false, Option, none, some, [], Text, null, arith, ◌==◌,
  AllOf-mono, Bool-cases, inl, inr, subst,
}
use cb_back.Prelude.Strings.{cut}
use cb_back.Prelude.Strings.Parts.{Lacks, cut-append}
use cb_back.Prelude.Decimal.{print, scan_digits}
use cb_back.Prelude.Decimal.RoundTrip.{IsDigit, print-IsDigit, scan-print}
use cb_back.Turn.{Handlers, Credentials, granted, expiry, mint, credentials}

print-Lacks : (n : ℕ) → Lacks 58 (print n)
print-Lacks n =
    AllOf-mono IsDigit (λ c. c == 58 ≡ false) (print n) (λ c d. ground (arith, d)) (print-IsDigit n)

-- What the relay makes of a username and its credential: the user before which the first colon
-- stands, the second up to which it may be used, and the code of both under the shared secret.
pub record IsCredential (h : Handlers) (now : ℕ) (user : Text) (c : Credentials) : Type 0 where
  pub second : ℕ
  pub digits : Text
  pub parts : cut 58 c.username ≡ some (digits, user)
  pub read_back : scan_digits digits 0 ≡ (second, [])
  pub not_later : second * 1000000000 ≤ now + h.ttl
  pub not_earlier : now + h.ttl < (second + 1) * 1000000000
  pub coded : c.credential ≡ h.encode (h.hmac h.secret c.username)

mint-IsCredential :
    (h : Handlers) (now : ℕ) (user : Text) → IsCredential h now user (mint h now user)
unfolding mint
mint-IsCredential h now user = record {
  second = expiry h now;
  digits = print (expiry h now);
  parts = cut-append 58 (print (expiry h now)) user (print-Lacks (expiry h now));
  read_back = scan-print (expiry h now) [] tt;
  not_later = omega arith;
  not_earlier = omega arith;
  coded = refl;
}

-- A credential is granted to a session's user only and while a secret is configured; from its
-- username the user is read back whatever the id, with the second at which the lifetime ends.
pub credentials-IsCredential :
    (h : Handlers) (now : ℕ) (user : Option Text) (c : Credentials)
    → credentials h now user ≡ granted c
    → (null h.secret ≡ false) × ((id : Text) × (user ≡ some id) × IsCredential h now id c)
unfolding credentials
credentials-IsCredential h now none c e = ground (arith, e)
credentials-IsCredential h now (some id) c e = elim (Bool-cases (null h.secret)) [
  | inl p ↦ ground (arith, e, p)
  | inr p ↦
      let same : mint h now id ≡ c = ground (arith, e, p) in
      (p, (id, refl, subst (IsCredential h now id) same (mint-IsCredential h now id)))
]
