-- ===== src/Prelude/Stateful.antt =====
-- Steps that change a state and may fail; the state that a failure leaves is kept.
use mathlib.Core.Path.{◌≡◌, refl, subst, ap}
use native.Mathlib.Omega.{arith}
use mathlib.Core.Bool.{Bool, true, false}
use cb_back.Prelude.Tests.{if◌then◌else◌}
use cb_back.Prelude.Results.{Result, done, failed}

abbrev pub Step {ℓ κ ι} : Type ℓ → Type κ → Type ι → Type (ℓ ⊔ κ ⊔ ι)
Step S E A = S → Result E A × S

abbrev pub resume {ℓ κ ι ν} :
    {S : Type ℓ} {E : Type κ} {A : Type ι} {B : Type ν}
    → (A → Step S E B)
    → Result E A × S
    → Result E B × S
resume f (done a, s) = f a s
resume f (failed e, s) = (failed e, s)

infixl 5 ◌>>=◌
abbrev pub ◌>>=◌ {ℓ κ ι ν} :
    {S : Type ℓ} {E : Type κ} {A : Type ι} {B : Type ν} → Step S E A → (A → Step S E B) → Step S E B
m >>= f = λ s. resume f (m s)

-- Go on whatever the value.
infixl 5 ◌>>◌
abbrev pub ◌>>◌ {ℓ κ ι ν} :
    {S : Type ℓ} {E : Type κ} {A : Type ι} {B : Type ν} → Step S E A → Step S E B → Step S E B
m >> n = m >>= λ _. n

abbrev pub pure {ℓ κ ι} : {S : Type ℓ} {E : Type κ} {A : Type ι} → A → Step S E A
pure a = λ s. (done a, s)

abbrev pub raise {ℓ κ ι} : {S : Type ℓ} {E : Type κ} {A : Type ι} → E → Step S E A
raise e = λ s. (failed e, s)

module _ {ℓ κ ι} {S : Type ℓ} {E : Type κ} {A : Type ι} where
  -- If the step succeeds, then with a value and a state of which `P` holds.
  abbrev pub Succeeds : (A → S → Type 0) → Result E A × S → Type 0
  Succeeds P (done a, s) = P a s
  Succeeds P (failed e, s) = Unit {0}

  pub Succeeds-done :
      (P : A → S → Type 0) (r : Result E A × S) (a : A) → Succeeds P r → r.0 ≡ done a → P a r.1
  Succeeds-done P (done b, s) a p h = subst (λ x. P x s) (ground (arith, h)) p
  Succeeds-done P (failed e, s) a p h = ground (arith, h)

resume-Succeeds {ℓ κ ι ν} :
    {S : Type ℓ} {E : Type κ} {A : Type ι} {B : Type ν} (P : A → S → Type 0) (Q : B → S → Type 0)
    (r : Result E A × S) (f : A → Step S E B)
    → Succeeds P r
    → ((a : A) (s : S) → P a s → Succeeds Q (f a s))
    → Succeeds Q (resume f r)
resume-Succeeds P Q (done a, s) f p k = k a s p
resume-Succeeds P Q (failed e, s) f p k = tt

pub Succeeds-bind {ℓ κ ι ν} :
    {S : Type ℓ} {E : Type κ} {A : Type ι} {B : Type ν} (P : A → S → Type 0) (Q : B → S → Type 0)
    (m : Step S E A) (f : A → Step S E B) (s : S)
    → Succeeds P (m s)
    → ((a : A) (s' : S) → P a s' → Succeeds Q (f a s'))
    → Succeeds Q ((m >>= f) s)
Succeeds-bind P Q m f s p k = resume-Succeeds P Q (m s) f p k

-- A step that is known by what its success means.
pub done-Succeeds {ℓ κ ι} :
    {S : Type ℓ} {E : Type κ} {A : Type ι} (P : A → S → Type 0) (r : Result E A × S)
    → ((a : A) → r.0 ≡ done a → P a r.1)
    → Succeeds P r
done-Succeeds P (done a, s) k = k a refl
done-Succeeds P (failed e, s) k = tt

pub Succeeds-if {ℓ κ ι} :
    {S : Type ℓ} {E : Type κ} {A : Type ι} (P : A → S → Type 0) (b : Bool) (m n : Result E A × S)
    → (b ≡ true → Succeeds P m)
    → (b ≡ false → Succeeds P n)
    → Succeeds P (if b then m else n)
Succeeds-if P true m n p q = p refl
Succeeds-if P false m n p q = q refl

-- A step that succeeds goes on from its value and its state.
pub resume_done {ℓ κ ι ν} :
    {S : Type ℓ} {E : Type κ} {A : Type ι} {B : Type ν} (f : A → Step S E B) (r : Result E A × S)
    (a : A)
    → r.0 ≡ done a
    → resume f r ≡ f a r.1
resume_done f (done b, s) a h = let same : b ≡ a = ground (arith, h) in ap (λ x. f x s) same
resume_done f (failed e, s) a h = ground (arith, h)

pub Succeeds-mono {ℓ κ ι} :
    {S : Type ℓ} {E : Type κ} {A : Type ι} (P Q : A → S → Type 0) (r : Result E A × S)
    → Succeeds P r
    → ((a : A) (s : S) → P a s → Q a s)
    → Succeeds Q r
Succeeds-mono P Q (done a, s) p k = k a s p
Succeeds-mono P Q (failed e, s) p k = tt

-- What holds of the state whether or not the steps succeed.
pub resume_keeps {ℓ κ ι ν} :
    {S : Type ℓ} {E : Type κ} {A : Type ι} {B : Type ν} (P : S → Type 0) (f : A → Step S E B)
    (r : Result E A × S)
    → P r.1
    → ((a : A) (s : S) → P s → P (f a s).1)
    → P (resume f r).1
resume_keeps P f (done a, s) p k = k a s p
resume_keeps P f (failed e, s) p k = p
