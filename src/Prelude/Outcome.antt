-- ===== src/Prelude/Outcome.antt =====
-- The exceptions of the package, and the value of a call that may raise one. The text of an
-- exception is not modelled: a `str(e)` in the source is the exception itself here.
use mathlib.Core.Path.{◌≡◌, refl, ap, ◌∙◌}
use native.Mathlib.Omega.{arith}
use Prim.Native.Nat.{ℕ}
use mathlib.Core.Logic.{◌⊎◌, inl, inr}

pub data Exception : Type 0 where
  value_error index_error key_error attribute_error : Exception
  http_error : Exception
  http_status_error : ℕ → Exception
  connection_error posting_error confirmation_error client_error : Exception
  service_error consumer_error type_error : Exception
  database_error : Exception
  -- A loop of the model ran out of its fuel: no exception of the program.
  diverges : Exception

pub data Result {ℓ} (A : Type ℓ) : Type ℓ where
  ok : A → Result A
  err : Exception → Result A

module _ {ℓ κ} {A : Type ℓ} {B : Type κ} where
  infixl 5 ◌>>=◌
  abbrev pub ◌>>=◌ : Result A → (A → Result B) → Result B
  ◌>>=◌ (err x) next = err x
  ◌>>=◌ (ok value) next = next value

  -- What a block went through that returned.
  pub bind_returned :
      (first : Result A) (next : A → Result B) {y : B}
      → first >>= next ≡ ok y
      → (value : A) × (first ≡ ok value) × (next value ≡ ok y)
  bind_returned (err x) next h = absurd (ground arith)
  bind_returned (ok value) next h = (value, refl, h)

abbrev pub map_result {ℓ κ} : {A : Type ℓ} {B : Type κ} → (A → B) → Result A → Result B
map_result f (ok a) = ok (f a)
map_result f (err e) = err e

pub map_result-eq-ok {ℓ κ} :
    {A : Type ℓ} {B : Type κ} (f : A → B) (m : Result A) {b : B}
    → map_result f m ≡ ok b
    → (a : A) × (m ≡ ok a) × (f a ≡ b)
map_result-eq-ok f (ok a) h = (a, refl, ground arith)
map_result-eq-ok f (err e) h = absurd (ground arith)

-- To split on a result and keep the equation.
pub Result-cases {ℓ} :
    {A : Type ℓ} (m : Result A) → ((a : A) × (m ≡ ok a)) ⊎ ((e : Exception) × (m ≡ err e))
Result-cases (ok a) = inl (a, refl)
Result-cases (err e) = inr (e, refl)

module _ {ℓ κ μ} {A : Type ℓ} {B : Type κ} {C : Type μ} where
  pub bind-map_result :
      (m : Result A) (f : A → B) (g : B → Result C) → (map_result f m >>= g) ≡ (m >>= λ a. g (f a))
  bind-map_result (ok a) f g = refl
  bind-map_result (err e) f g = refl

  pub map_result-bind :
      (m : Result A) (f : B → C) (g : A → Result B)
      → map_result f (m >>= g) ≡ (m >>= λ a. map_result f (g a))
  map_result-bind (ok a) f g = refl
  map_result-bind (err e) f g = refl

  pub bind_assoc :
      (m : Result A) (f : A → Result B) (g : B → Result C)
      → (m >>= f >>= g) ≡ (m >>= λ a. f a >>= g)
  bind_assoc (ok a) f g = refl
  bind_assoc (err e) f g = refl

-- One step of a `do` block whose first call is known.
pub bind-ok {ℓ κ} :
    {A : Type ℓ} {B : Type κ} {m : Result A} {a : A} {r : Result B} (f : A → Result B)
    → m ≡ ok a
    → f a ≡ r
    → (m >>= f) ≡ r
bind-ok f e h = ap (λ m. m >>= f) e ∙ h

pub bind-err {ℓ κ} :
    {A : Type ℓ} {B : Type κ} {m : Result A} {x : Exception} (f : A → Result B)
    → m ≡ err x
    → (m >>= f) ≡ err x
bind-err f e = ap (λ m. m >>= f) e

pub ok_injective {ℓ} : {A : Type ℓ} {a b : A} → ok a ≡ ok b → a ≡ b
ok_injective e = cc
