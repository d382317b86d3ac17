-- ===== src/Backend/Raises.antt =====
-- Which errors an action can end with, with one rule for each way to build an action.
use feed_system_golang.Base.{
  ◌≡◌, subst, Bool, true, false, Error, Result, ok, err, Exec, pure, raise, gets, ignore, attempt,
  continue, ◌>>=◌, if◌then◌else◌, arith,
}

-- Every error of the action is one of those.
pub record Raises {κ} {W : Type 0} {A : Type κ} (P : Error → Type 0) (m : Exec W A) : Type κ where
  pub at : (w : W) (e : Error) → (m w).0 ≡ err e → P e

module _ {κ} {W : Type 0} {A : Type κ} {P : Error → Type 0} where
  pub Raises-pure : (a : A) → Raises {W = W} P (pure a)
  unfolding pure
  Raises-pure a = record { at = λ w e h. absurd (ground (arith, h)) }

  pub Raises-gets : (f : W → A) → Raises {W = W} P (gets f)
  unfolding gets
  Raises-gets f = record { at = λ w e h. absurd (ground (arith, h)) }

  pub Raises-attempt : (m : Exec W A) → Raises P (attempt m)
  unfolding attempt
  Raises-attempt m = record { at = λ w e h. absurd (ground (arith, h)) }

  pub Raises-ignore : (m : Exec W A) → Raises P (ignore m)
  unfolding ignore
  Raises-ignore m = record { at = λ w e h. absurd (ground (arith, h)) }

  pub Raises-raise : (e : Error) → P e → Raises {W = W} {A = A} P (raise e)
  unfolding raise
  Raises-raise e p = record { at = λ w e' h. subst P (ground (arith, h)) p }

  pub Raises-if :
      (b : Bool) {m n : Exec W A} → Raises P m → Raises P n → Raises P (if b then m else n)
  Raises-if true p q = p
  Raises-if false p q = q

module _ {κ κ'} {W : Type 0} {A : Type κ} {B : Type κ'} {P : Error → Type 0} where
  pub Raises-continue :
      (r : Result A) (f : A → Exec W B) (w : W) (e : Error)
      → ((e : Error) → r ≡ err e → P e)
      → ((a : A) → Raises P (f a))
      → (continue r f w).0 ≡ err e
      → P e
  Raises-continue (ok a) f w e p q h = (q a).at w e h
  Raises-continue (err e') f w e p q h = p e (ground (arith, h))

  pub Raises-bind :
      {m : Exec W A} {f : A → Exec W B}
      → Raises P m
      → ((a : A) → Raises P (f a))
      → Raises P (m >>= f)
  unfolding ◌>>=◌
  Raises-bind {m = m} {f = f} p q = record {
    at = λ w e h. Raises-continue (m w).0 f (m w).1 e (p.at w) q h;
  }

pub ruleset raises_rules =
    (Raises-pure, Raises-gets, Raises-attempt, Raises-ignore, Raises-raise, Raises-if, Raises-bind)

-- What follows a reading that is looked at, whether it fails or not.
pub Raises-attempted :
    {W A B : Type 0} {P Q : Error → Type 0} {m : Exec W A} (f : Result A → Exec W B)
    → Raises Q m
    → ((r : Result A) → ((e : Error) → r ≡ err e → Q e) → Raises P (f r))
    → Raises P (attempt m >>= f)
unfolding attempt ◌>>=◌
Raises-attempted {m = m} f q p = record { at = λ w e h. (p (m w).0 (q.at w)).at (m w).1 e h }
