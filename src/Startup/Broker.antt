-- ===== src/Startup/Broker.antt =====
-- What is relied on of RabbitMQ's bindings, and rules for the actions that keep and make them.
use feed_system_golang.Base.{
  ℕ, String, ◌≡◌, Bool, true, false, List, Elem, Error, Result, ok, err, Exec, pure, raise, attempt,
  continue, ◌>>=◌, if◌then◌else◌,
}
use feed_system_golang.Backend.Keeps.{bind_then}
use feed_system_golang.Startup.Connection.{Drivers, Topology}

module _ {W : Type 0} (drivers : Drivers W) (bindings : W → List Topology) where
  -- What RabbitMQ documents: a named queue is declared under its name, a binding that was made is
  -- there, and no call takes one away.
  pub record BrokerLaws : Type 0 where
    pub queue_declare_name :
        (queue name : String) (w : W) → (drivers.queue_declare queue w).0 ≡ ok name → name ≡ queue
    pub queue_bind_binds :
        (queue key exchange : String) (w : W)
        → (drivers.queue_bind queue key exchange w).0 ≡ ok tt
        → Elem
            (record { exchange = exchange; queue = queue; binding_key = key })
            (bindings (drivers.queue_bind queue key exchange w).1)
    pub exchange_declare_keeps :
        (exchange : String) (w : W) (t : Topology)
        → Elem t (bindings w)
        → Elem t (bindings (drivers.exchange_declare exchange w).1)
    pub queue_declare_keeps :
        (queue : String) (w : W) (t : Topology)
        → Elem t (bindings w)
        → Elem t (bindings (drivers.queue_declare queue w).1)
    pub queue_bind_keeps :
        (queue key exchange : String) (w : W) (t : Topology)
        → Elem t (bindings w)
        → Elem t (bindings (drivers.queue_bind queue key exchange w).1)
    pub qos_keeps :
        (n : ℕ) (w : W) (t : Topology) → Elem t (bindings w) → Elem t (bindings (drivers.qos n w).1)

-- An action that takes no binding away.
pub record Stays {W A : Type 0} (bindings : W → List Topology) (m : Exec W A) : Type 0 where
  pub at : (w : W) (t : Topology) → Elem t (bindings w) → Elem t (bindings (m w).1)

-- A success binds the topology.
abbrev pub Binds : {W A : Type 0} → (W → List Topology) → Topology → Exec W A → Type 0
Binds bindings t m = (w : _) (a : _) → (m w).0 ≡ ok a → Elem t (bindings (m w).1)

module _ {W : Type 0} {bindings : W → List Topology} where
  pub Stays-pure : {A : Type 0} (a : A) → Stays bindings (pure a)
  unfolding pure
  Stays-pure a = record { at = λ w t i. i }

  pub Stays-raise : {A : Type 0} (e : Error) → Stays bindings (raise {A = A} e)
  unfolding raise
  Stays-raise e = record { at = λ w t i. i }

  pub Stays-attempt : {A : Type 0} {m : Exec W A} → Stays bindings m → Stays bindings (attempt m)
  unfolding attempt
  Stays-attempt q = record { at = λ w t i. q.at w t i }

  pub Stays-if :
      {A : Type 0} (b : Bool) {m n : Exec W A}
      → Stays bindings m
      → Stays bindings n
      → Stays bindings (if b then m else n)
  Stays-if true p q = p
  Stays-if false p q = q

  continue-Stays :
      {A B : Type 0} (r : Result A) (f : A → Exec W B) (w : W) (t : Topology)
      → ((a : A) → Stays bindings (f a))
      → Elem t (bindings w)
      → Elem t (bindings (continue r f w).1)
  continue-Stays (ok a) f w t q i = (q a).at w t i
  continue-Stays (err e) f w t q i = i

  pub Stays-bind :
      {A B : Type 0} {m : Exec W A} {f : A → Exec W B}
      → Stays bindings m
      → ((a : A) → Stays bindings (f a))
      → Stays bindings (m >>= f)
  unfolding ◌>>=◌
  Stays-bind {m = m} {f = f} p q = record {
    at = λ w t i. continue-Stays (m w).0 f (m w).1 t q (p.at w t i);
  }

  pub ruleset stays_rules = (Stays-pure, Stays-raise, Stays-attempt, Stays-if, Stays-bind)

module _ {W : Type 0} (bindings : W → List Topology) where
  -- What the first part of a chain has bound stays bound, and so does what the rest binds.
  pub first-Binds :
      {A B : Type 0} (t : Topology) (m : Exec W A) (f : A → Exec W B)
      → Binds bindings t m
      → ((a : A) → Stays bindings (f a))
      → Binds bindings t (m >>= f)
  first-Binds t m f p q w b h =
      bind_then (λ v. Elem t (bindings v)) m f w b h (λ a done _. (q a).at _ t (p w a done))

  pub then-Binds :
      {A B : Type 0} (t : Topology) (m : Exec W A) (f : A → Exec W B)
      → ((a : A) → Binds bindings t (f a))
      → Binds bindings t (m >>= f)
  then-Binds t m f q w b h =
      bind_then (λ v. Elem t (bindings v)) m f w b h (λ a _ done. q a _ b done)

  pub Binds-raise : {A : Type 0} (t : Topology) (e : Error) → Binds bindings t (raise {A = A} e)
  unfolding raise
  Binds-raise t e w a h = cc

  pub Binds-if :
      {A : Type 0} (t : Topology) (b : Bool) (m n : Exec W A)
      → Binds bindings t m
      → Binds bindings t n
      → Binds bindings t (if b then m else n)
  Binds-if t true m n p q = p
  Binds-if t false m n p q = q
