-- ===== src/Base/Results.antt =====
-- Go's pair of a value and an error, as one value: an operation returns `ok` or an error.
use mathlib.Core.Path.{◌≡◌, refl, ap, ◌∙◌}
use mathlib.Core.Logic.{◌↔◌}
use mathlib.Core.Bool.{Bool, true, false}
use mathlib.Core.Option.{Option, none, some}

pub data Result {ℓ κ} (E : Type ℓ) (A : Type κ) : Type (ℓ ⊔ κ) where
  ok : A → Result E A
  err : E → Result E A

infixl 5 ◌>>=◌ ◌>>◌
abbrev pub ◌>>=◌ {ℓ κ μ} :
    {E : Type ℓ} {A : Type κ} {B : Type μ} → Result E A → (A → Result E B) → Result E B
ok a >>= f = f a
err e >>= f = err e

abbrev pub ◌>>◌ {ℓ μ} : {E : Type ℓ} {B : Type μ} → Result E (Unit {0}) → Result E B → Result E B
m >> k = m >>= λ _. k

-- `if !test { return e }`
abbrev pub guard {ℓ} : {E : Type ℓ} → Bool → E → Result E (Unit {0})
guard true e = ok tt
guard false e = err e

-- A library call that reports only that it failed.
abbrev pub require {ℓ κ} : {E : Type ℓ} {A : Type κ} → Option A → E → Result E A
require none e = err e
require (some a) e = ok a

-- `fmt.Errorf("...: %w", err)`
abbrev pub wrap {ℓ κ μ} : {E : Type ℓ} {F : Type κ} {A : Type μ} → (E → F) → Result E A → Result F A
wrap f (ok a) = ok a
wrap f (err e) = err (f e)

pub >>=-eq-ok {ℓ κ μ} :
    {E : Type ℓ} {A : Type κ} {B : Type μ} (m : Result E A) (next : A → Result E B) {out : B}
    → (m >>= next) ≡ ok out
    → (x : A) × (m ≡ ok x) × (next x ≡ ok out)
>>=-eq-ok (err e) next done = cc
>>=-eq-ok (ok x) next done = (x, refl, done)

pub >>-eq-ok {ℓ μ} :
    {E : Type ℓ} {B : Type μ} (m : Result E (Unit {0})) (n : Result E B) {out : B}
    → (m >> n) ≡ ok out
    → (m ≡ ok tt) × (n ≡ ok out)
>>-eq-ok (ok a) n h = (refl, h)
>>-eq-ok (err e) n h = cc

pub guard-eq-ok {ℓ} : {E : Type ℓ} (b : Bool) (e : E) → guard b e ≡ ok tt → b ≡ true
guard-eq-ok true e h = refl
guard-eq-ok false e h = cc

pub wrap-eq-ok {ℓ κ μ} :
    {E : Type ℓ} {F : Type κ} {A : Type μ} (f : E → F) (m : Result E A) {a : A}
    → wrap f m ≡ ok a
    → m ≡ ok a
wrap-eq-ok f (ok a) h = cc
wrap-eq-ok f (err e) h = cc

-- A sequence of checks passes exactly when each of them does.
module _ {ℓ} {E : Type ℓ} where
  pub then_iff : (m n : Result E (Unit {0})) → ((m >> n) ≡ ok tt) ↔ ((m ≡ ok tt) × (n ≡ ok tt))
  then_iff (ok a) n = (λ h. (refl, h), λ h. h.1)
  then_iff (err e) n = (λ h. cc, λ h. cc (h.0))

  pub guard_iff : (b : Bool) (e : E) → (guard b e ≡ ok tt) ↔ (b ≡ true)
  guard_iff true e = (λ h. refl, λ h. refl)
  guard_iff false e = (λ h. cc, λ h. cc)

  pub wrap_iff {κ} :
      {F : Type κ} (f : E → F) (m : Result E (Unit {0})) → (wrap f m ≡ ok tt) ↔ (m ≡ ok tt)
  wrap_iff f (ok a) = (λ h. refl, λ h. refl)
  wrap_iff f (err e) = (λ h. cc, λ h. cc)

-- Composition of equivalences of statements.
pub iff_trans {ℓ κ μ} : {A : Type ℓ} {B : Type κ} {C : Type μ} → A ↔ B → B ↔ C → A ↔ C
iff_trans e f = (λ a. f.0 (e.0 a), λ c. e.1 (f.1 c))

pub iff_pair {ℓ κ μ ν} :
    {A : Type ℓ} {B : Type κ} {C : Type μ} {D : Type ν} → A ↔ B → C ↔ D → (A × C) ↔ (B × D)
iff_pair e f = (λ h. (e.0 h.0, f.0 h.1), λ h. (e.1 h.0, f.1 h.1))

pub ok_inj {ℓ κ} : {E : Type ℓ} {A : Type κ} {a b : A} → ◌≡◌ {A = Result E A} (ok a) (ok b) → a ≡ b
ok_inj h = cc

pub require-eq-ok {ℓ κ} :
    {E : Type ℓ} {A : Type κ} (o : Option A) (e : E) {a : A} → require o e ≡ ok a → o ≡ some a
require-eq-ok none e h = cc
require-eq-ok (some a) e h = cc

pub some_inj {κ} : {A : Type κ} {a b : A} → ◌≡◌ {A = Option A} (some a) (some b) → a ≡ b
some_inj h = cc

-- A result that is not an error.
abbrev pub Succeeds {ℓ κ} : {E : Type ℓ} {A : Type κ} → Result E A → Type (ℓ ⊔ κ)
Succeeds {A = A} m = (a : A) × (m ≡ ok a)

pub bind-Succeeds {ℓ κ μ} :
    {E : Type ℓ} {A : Type κ} {B : Type μ} (m : Result E A) (f : A → Result E B)
    → Succeeds (m >>= f) ↔ ((a : A) × ((m ≡ ok a) × Succeeds (f a)))
bind-Succeeds (ok a) f =
    (λ (b, h). (a, (refl, (b, h))), λ (c, (same, (b, h))). (b, ap f (ok_inj same) ∙ h))
bind-Succeeds (err e) f = (λ (b, h). cc, λ (a, (h, rest)). cc)
