-- ===== src/Base/Effects.antt =====
-- Go's `(value, error)` results, over a state: what a call did before it failed stays done, so the
-- state comes back beside the error too.
use Prim.Native.Nat.{ℕ}
use Prim.Native.String.{String}
use mathlib.Core.Path.{◌≡◌, refl, ap}
use mathlib.Core.Logic.{◌⊎◌, inl, inr}
use mathlib.Core.Bool.{Bool, true, false}

-- The errors that the code tells apart: sentinel values of the libraries, MySQL's errors by their
-- number, the sentinel of the package redis, and `errors.New`.
pub data Error : Type 0 where
  breaker_open : Error
  redis_nil : Error
  open_state : Error
  too_many_requests : Error
  record_not_found : Error
  mysql : ℕ → Error
  message : String → Error

pub data Result {ℓ} (A : Type ℓ) : Type ℓ where
  ok : A → Result A
  err : Error → Result A

abbrev pub Exec {ℓ κ} : Type ℓ → Type κ → Type (ℓ ⊔ κ)
Exec W A = W → Result A × W

module _ {ℓ κ} {W : Type ℓ} {A : Type κ} where
  unfoldable pub pure : A → Exec W A
  pure a w = (ok a, w)

  unfoldable pub raise : Error → Exec W A
  raise e w = (err e, w)

  -- A result that is at hand.
  unfoldable pub give : Result A → Exec W A
  give r w = (r, w)

  -- The error as a value, for code that looks at `err` and goes on.
  unfoldable pub attempt : Exec W A → Exec W (Result A)
  attempt m w = let (r, w') = m w in (ok r, w')

  -- `_ = m`, and `if err := m; err != nil { log }`.
  unfoldable pub ignore : Exec W A → Exec W (Unit {0})
  ignore m w = let (r, w') = m w in (ok tt, w')

  -- A look at the state.
  unfoldable pub gets : (W → A) → Exec W A
  gets f w = (ok (f w), w)

module _ {ℓ κ κ'} {W : Type ℓ} {A : Type κ} {B : Type κ'} where
  abbrev pub continue : Result A → (A → Exec W B) → Exec W B
  continue (ok a) f w = f a w
  continue (err e) f w = (err e, w)

  infixl 5 ◌>>=◌ ◌>>◌
  -- Opening this opens the actions above too.
  unfoldable pub ◌>>=◌ : Exec W A → (A → Exec W B) → Exec W B
  unfolding pure raise give attempt ignore gets
  ◌>>=◌ m f w = let (r, w') = m w in continue r f w'

  abbrev pub ◌>>◌ : Exec W A → Exec W B → Exec W B
  m >> n = m >>= λ _. n

abbrev pub is_ok {κ} : {A : Type κ} → Result A → Bool
is_ok (ok a) = true
is_ok (err e) = false

pub Result-cases {κ} :
    {A : Type κ} (r : Result A) → ((e : Error) × (r ≡ err e)) ⊎ ((a : A) × (r ≡ ok a))
Result-cases (err e) = inl (e, refl)
Result-cases (ok a) = inr (a, refl)

pub ok_same : {A : Type 0} (a b : A) → Path (Result A) (ok a) (ok b) → a ≡ b
ok_same {A} a b q = ap from q
  where
    from : Result A → A
    from (ok x) = x
    from (err e) = a
