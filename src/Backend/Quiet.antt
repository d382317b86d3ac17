-- ===== src/Backend/Quiet.antt =====
-- Actions that leave the tables alone, with one rule for each way to build an action.
use feed_system_golang.Base.{
  ◌≡◌, refl, ◌∙◌, Bool, true, false, Error, Result, ok, err, Exec, pure, raise, give, attempt,
  ignore, gets, continue, ◌>>=◌, if◌then◌else◌,
}
use feed_system_golang.Backend.{Backend}

-- The tables after the action are those before it, whether it succeeds or fails.
pub record Quiet {κ} {W : Type 0} {A : Type κ} (env : Backend W) (m : Exec W A) : Type 0 where
  pub at : (w : W) → env.tables (m w).1 ≡ env.tables w

module _ {κ} {W : Type 0} {A : Type κ} {env : Backend W} where
  pub Quiet-pure : (a : A) → Quiet env (pure a)
  unfolding pure
  Quiet-pure a = record { at = λ w. refl }

  pub Quiet-raise : (e : Error) → Quiet env (raise {A = A} e)
  unfolding raise
  Quiet-raise e = record { at = λ w. refl }

  pub Quiet-give : (r : Result A) → Quiet env (give r)
  unfolding give
  Quiet-give r = record { at = λ w. refl }

  pub Quiet-gets : (f : W → A) → Quiet env (gets f)
  unfolding gets
  Quiet-gets f = record { at = λ w. refl }

  pub Quiet-attempt : {m : Exec W A} → Quiet env m → Quiet env (attempt m)
  unfolding attempt
  Quiet-attempt q = record { at = λ w. q.at w }

  pub Quiet-ignore : {m : Exec W A} → Quiet env m → Quiet env (ignore m)
  unfolding ignore
  Quiet-ignore q = record { at = λ w. q.at w }

  pub Quiet-if :
      (b : Bool) {m n : Exec W A} → Quiet env m → Quiet env n → Quiet env (if b then m else n)
  Quiet-if true p q = p
  Quiet-if false p q = q

module _ {κ κ'} {W : Type 0} {A : Type κ} {B : Type κ'} {env : Backend W} where
  continue-tables :
      (r : Result A) (f : A → Exec W B) (w : W)
      → ((a : A) → Quiet env (f a))
      → env.tables (continue r f w).1 ≡ env.tables w
  continue-tables (ok a) f w q = (q a).at w
  continue-tables (err e) f w q = refl

  pub Quiet-bind :
      {m : Exec W A} {f : A → Exec W B}
      → Quiet env m
      → ((a : A) → Quiet env (f a))
      → Quiet env (m >>= f)
  unfolding ◌>>=◌
  Quiet-bind {m = m} {f = f} p q = record { at = λ w. continue-tables (m w).0 f (m w).1 q ∙ p.at w }

pub ruleset quiet_rules = (
  Quiet-pure, Quiet-raise, Quiet-give, Quiet-gets, Quiet-attempt, Quiet-ignore, Quiet-if,
  Quiet-bind,
)
