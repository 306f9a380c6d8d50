-- ===== src/Prelude/Fallible.antt =====
-- Fallible code: a C++ function that may throw returns `ok` of its value or `err` of what it throws.
use mathlib.Core.Path.{◌≡◌, refl, ap}
use mathlib.Core.Logic.{◌⊎◌, inl, inr}
use mathlib.Core.Bool.{Bool, true, false}
use mathlib.Core.Option.{Option, none, some}
use pipeline_lab.Prelude.Tests.{if◌then◌else◌}

pub data Result {ℓ κ} (E : Type ℓ) (A : Type κ) : Type (ℓ ⊔ κ) where
  ok : A → Result E A
  err : E → Result E A

infixl 5 ◌>>=◌ ◌>>◌
abbrev pub ◌>>=◌ {ℓ κ μ} :
    {E : Type ℓ} {A : Type κ} {B : Type μ} → Result E A → (A → Result E B) → Result E B
ok a >>= k = k a
err e >>= k = err e

abbrev pub ◌>>◌ {ℓ κ} : {E : Type ℓ} {B : Type κ} → Result E (Unit {0}) → Result E B → Result E B
m >> k = m >>= λ _. k

-- `if (!b) throw e;`
abbrev pub guard {ℓ} : {E : Type ℓ} → Bool → E → Result E (Unit {0})
guard true e = ok tt
guard false e = err e

-- What follows from the success of a chain: its first step succeeded, and so did the rest.
pub >>=-eq-ok {ℓ κ μ} :
    {E : Type ℓ} {A : Type κ} {B : Type μ} (m : Result E A) (k : A → Result E B) {b : B}
    → (m >>= k) ≡ ok b
    → (a : A) × (m ≡ ok a) × (k a ≡ ok b)
>>=-eq-ok (ok a) k h = (a, refl, h)
>>=-eq-ok (err e) k h = cc

pub err-injective {ℓ κ} :
    {E : Type ℓ} {A : Type κ} {e f : E} → ◌≡◌ {A = Result E A} (err e) (err f) → e ≡ f
err-injective h = cc

-- What follows from its exception: its first step threw it, or succeeded and the rest threw it.
pub >>=-eq-err {ℓ κ μ} :
    {E : Type ℓ} {A : Type κ} {B : Type μ} (m : Result E A) (k : A → Result E B) {e : E}
    → (m >>= k) ≡ err e
    → (m ≡ err e) ⊎ ((a : A) × (m ≡ ok a) × (k a ≡ err e))
>>=-eq-err (ok a) k h = inr (a, refl, h)
>>=-eq-err (err e) k h = inl (ap err (err-injective h))

pub ok-injective {ℓ κ} :
    {E : Type ℓ} {A : Type κ} {a b : A} → ◌≡◌ {A = Result E A} (ok a) (ok b) → a ≡ b
ok-injective h = cc

-- A result whose value satisfies `P`, or whose exception satisfies `F`.
abbrev pub Yields {ℓ κ} :
    {E : Type ℓ} {A : Type κ} → (E → Type 0) → (A → Type 0) → Result E A → Type 0
Yields F P (ok a) = P a
Yields F P (err e) = F e

module _ {ℓ κ} {E : Type ℓ} {A : Type κ} (F : E → Type 0) (P : A → Type 0) where
  pub Yields->>= {μ} :
      {B : Type μ} (Q : B → Type 0) (m : Result E A) (k : A → Result E B)
      → Yields F P m
      → ((a : A) → P a → Yields F Q (k a))
      → Yields F Q (m >>= k)
  Yields->>= Q (ok a) k h next = next a h
  Yields->>= Q (err e) k h next = h

  pub Yields-weaken :
      (Q : A → Type 0) (m : Result E A) → ((a : A) → P a → Q a) → Yields F P m → Yields F Q m
  Yields-weaken Q (ok a) less h = less a h
  Yields-weaken Q (err e) less h = h

  pub Yields-elim :
      (b : Bool) (x y : Result E A)
      → (b ≡ true → Yields F P x)
      → (b ≡ false → Yields F P y)
      → Yields F P (elim b [ true ↦ x | false ↦ y ])
  Yields-elim true x y h k = h refl
  Yields-elim false x y h k = k refl

  pub Yields-if :
      (b : Bool) (x y : Result E A)
      → (b ≡ true → Yields F P x)
      → (b ≡ false → Yields F P y)
      → Yields F P (if b then x else y)
  Yields-if true x y h k = h refl
  Yields-if false x y h k = k refl

  pub Yields-option {μ} :
      {B : Type μ} (o : Option B) (x : Result E A) (y : B → Result E A)
      → Yields F P x
      → ((b : B) → o ≡ some b → Yields F P (y b))
      → Yields F P (elim o [ none ↦ x | some b ↦ y b ])
  Yields-option none x y h k = h
  Yields-option (some b) x y h k = k b refl

pub Yields-guard {ℓ} :
    {E : Type ℓ} (F : E → Type 0) (b : Bool) (e : E) → F e → Yields F (λ _. b ≡ true) (guard b e)
Yields-guard F true e h = refl
Yields-guard F false e h = h
