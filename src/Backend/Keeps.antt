-- ===== src/Backend/Keeps.antt =====
-- Actions that keep an invariant of the tables, and what a successful action went through.
use feed_system_golang.Base.{
  ◌≡◌, refl, sym, subst, ap, ◌∙◌, inl, inr, Bool, true, false, Error, Result, ok, err, Exec,
  attempt, ignore, continue, ◌>>=◌, if◌then◌else◌,
}
use feed_system_golang.Backend.{Backend}
use feed_system_golang.Backend.Sql.{Tables}
use feed_system_golang.Backend.Quiet.{Quiet}
use feed_system_golang.Backend.Laws.{MysqlLaws}

pub record Keeps {κ} {W : Type 0} {A : Type κ} (env : Backend W) (P : Tables → Type 0)
    (m : Exec W A) : Type 0 where
  pub at : (w : W) → P (env.tables w) → P (env.tables (m w).1)

module _ {κ} {W : Type 0} {A : Type κ} {env : Backend W} {P : Tables → Type 0} where
  pub Keeps-Quiet : {m : Exec W A} → Quiet env m → Keeps env P m
  Keeps-Quiet q = record { at = λ w h. subst P (sym (q.at w)) h }

  pub Keeps-attempt : {m : Exec W A} → Keeps env P m → Keeps env P (attempt m)
  unfolding attempt
  Keeps-attempt q = record { at = λ w h. q.at w h }

  pub Keeps-ignore : {m : Exec W A} → Keeps env P m → Keeps env P (ignore m)
  unfolding ignore
  Keeps-ignore q = record { at = λ w h. q.at w h }

  pub Keeps-if :
      (b : Bool) {m n : Exec W A} → Keeps env P m → Keeps env P n → Keeps env P (if b then m else n)
  Keeps-if true p q = p
  Keeps-if false p q = q

module _ {κ κ'} {W : Type 0} {A : Type κ} {B : Type κ'} {env : Backend W}
    {P : Tables → Type 0} where
  continue-keeps :
      (r : Result A) (f : A → Exec W B) (w : W)
      → ((a : A) → Keeps env P (f a))
      → P (env.tables w)
      → P (env.tables (continue r f w).1)
  continue-keeps (ok a) f w q h = (q a).at w h
  continue-keeps (err e) f w q h = h

  pub Keeps-bind :
      {m : Exec W A} {f : A → Exec W B}
      → Keeps env P m
      → ((a : A) → Keeps env P (f a))
      → Keeps env P (m >>= f)
  unfolding ◌>>=◌
  Keeps-bind {m = m} {f = f} p q = record {
    at = λ w h. continue-keeps (m w).0 f (m w).1 q (p.at w h);
  }

-- A transaction keeps what its body keeps when the body succeeds.
pub Keeps-transaction :
    {W : Type 0} {env : Backend W} (P : Tables → Type 0)
    → MysqlLaws env
    → (body : Exec W (Unit {0}))
    → ((w : W) → P (env.tables w) → (body w).0 ≡ ok tt → P (env.tables (body w).1))
    → Keeps env P (env.transaction body)
Keeps-transaction {env = env} P laws body keep = record { at = go }
  where
    go : (w : _) → P (env.tables w) → P (env.tables (env.transaction body w).1)
    go w h = elim (laws.transaction_cases body w) [
      | inl (e, r, t) ↦ subst P (sym t) h
      | inr (begun, b, done, r, t) ↦ subst P (sym t) (keep begun (subst P (sym b) h) done)
    ]

module _ {κ κ'} {W : Type 0} {A : Type κ} {B : Type κ'} where
  continue_ok :
      (r : Result A) (f : A → Exec W B) (w : W) (b : B)
      → (continue r f w).0 ≡ ok b
      → (a : A) × (r ≡ ok a) × (continue r f w ≡ f a w)
  continue_ok (ok a) f w b h = (a, refl, refl)
  continue_ok (err e) f w b h = cc

  -- A chain that succeeds went on from a success of its first part.
  pub bind_ok :
      (m : Exec W A) (f : A → Exec W B) (w : W) (b : B)
      → ((m >>= f) w).0 ≡ ok b
      → (a : A) × ((m w).0 ≡ ok a) × ((m >>= f) w ≡ f a (m w).1)
  unfolding ◌>>=◌
  bind_ok m f w b h = continue_ok (m w).0 f (m w).1 b h

-- To prove `P` of the outcome of a chain, prove it of its first part's error and of the rest.
pub bind_both {κ κ'} :
    {W : Type 0} {A : Type κ} {B : Type κ'} (P : Result B × W → Type 0) (m : Exec W A)
    (f : A → Exec W B) (w : W)
    → ((e : Error) → (m w).0 ≡ err e → P (err e, (m w).1))
    → ((a : A) → (m w).0 ≡ ok a → P (f a (m w).1))
    → P ((m >>= f) w)
unfolding ◌>>=◌
bind_both P m f w failed went_on = go (m w).0 refl
  where
    go : (r : Result _) → (m w).0 ≡ r → P (continue (m w).0 f (m w).1)
    go (ok a) q = rw q (went_on a q)
    go (err e) q = rw q (failed e q)

-- The same, where the first part leaves the tables alone and `P` holds of every refusal.
pub quiet_then {κ κ'} :
    {W : Type 0} {A : Type κ} {B : Type κ'} {env : Backend W} (t : Tables)
    (P : Result B × W → Type 0)
    → ((e : Error) (w : W) → env.tables w ≡ t → P (err e, w))
    → (m : Exec W A) (f : A → Exec W B) (w : W) → Quiet env m
    → env.tables w ≡ t
    → ((a : A) → (m w).0 ≡ ok a → env.tables (m w).1 ≡ t → P (f a (m w).1))
    → P ((m >>= f) w)
quiet_then t P refused m f w q h k =
    bind_both P m f w (λ e r. refused e (m w).1 (q.at w ∙ h)) (λ a r. k a r (q.at w ∙ h))

-- To prove `P` after a chain that succeeds, prove it after the rest of the chain.
pub bind_then {κ κ'} :
    {W : Type 0} {A : Type κ} {B : Type κ'} (P : W → Type 0) (m : Exec W A) (f : A → Exec W B)
    (w : W) (b : B)
    → ((m >>= f) w).0 ≡ ok b
    → ((a : A) → (m w).0 ≡ ok a → (f a (m w).1).0 ≡ ok b → P (f a (m w).1).1)
    → P ((m >>= f) w).1
bind_then P m f w b h k =
    let (a, q, e) = bind_ok m f w b h in
    subst (λ r. P r.1) (sym e) (k a q (ap (λ r. r.0) (sym e) ∙ h))

pub ruleset keeps_rules = (Keeps-Quiet, Keeps-attempt, Keeps-ignore, Keeps-if, Keeps-bind)
