-- ===== src/Cache/Breaking.antt =====
-- What the breaker's wrapper lets through.
use feed_system_golang.Base.{
  ◌≡◌, refl, ◌∙◌, ◌⊎◌, inl, inr, Bool, true, false, Option, none, some, Error, breaker_open, Result,
  ok, err, Exec, ◌>>=◌, Bool-cases, Result-cases, arith,
}
use feed_system_golang.Backend.{Backend}
use feed_system_golang.Backend.Redis.{Reply}
use feed_system_golang.Cache.{
  Breaker, is_miss, is_rejection, report, reported, settle, guarded, execute,
}

-- A result that is no failure of Redis.
abbrev pub is_healthy : Result Reply → Bool
is_healthy (ok r) = true
is_healthy (err e) = is_miss e

module _ {W : Type 0} (env : Backend W) where
  -- gobreaker's `Execute` refuses the call, or makes it and hands its result on.
  pub record BreakerLaws : Type 0 where
    pub execute_cases :
        (m : Exec W (Result Reply)) (w : W)
        → ((e : Error) × ((env.breaker_execute m w).0 ≡ err e) × (is_rejection e ≡ true))
          ⊎ ((called : W) × ((env.breaker_execute m w).0 ≡ (m called).0))

  reported_cases :
      (fn : Exec W Reply) (w : W)
      → ((is_healthy (fn w).0 ≡ true) × ((reported env fn w).0 ≡ ok (fn w).0))
        ⊎ ((e : Error) × ((fn w).0 ≡ err e) × ((reported env fn w).0 ≡ err e) × (is_miss e ≡ false))
  unfolding reported report ◌>>=◌
  reported_cases fn w = elim (Result-cases (fn w).0) [
    | inl (e, q) ↦ elim (Bool-cases (is_miss e)) [
      | inl miss ↦ inl (ground arith, ground arith)
      | inr hit ↦ inr (e, q, ground arith, hit)
    ]
    | inr (r, q) ↦ inl (ground arith, ground arith)
  ]

  module _ (laws : BreakerLaws) where
    abbrev FromCall : Exec W Reply → Result Reply → Type 0
    FromCall fn r = (r ≡ err breaker_open) ⊎ ((called : W) × (r ≡ (fn called).0))

    guarded-settle :
        (fn : Exec W Reply) (w : W) (r : Result (Result Reply))
        → (env.breaker_execute (reported env fn) w).0 ≡ r
        → (guarded env fn w).0 ≡ (settle env r (env.breaker_execute (reported env fn) w).1).0
    unfolding guarded ◌>>=◌
    guarded-settle fn w r q = rw q

    settle_called :
        (fn : Exec W Reply) (w called : W) → FromCall fn (settle env (reported env fn called).0 w).0
    unfolding settle ◌>>=◌
    settle_called fn w called = elim (reported_cases fn called) [
      | inl (healthy, q) ↦ inr (called, rw (q, settle))
      | inr (e, p, q, hit) ↦ elim (Bool-cases (is_rejection e)) [
        | inl rejected ↦ inl (ground arith)
        | inr other ↦ inr (called, ground arith)
      ]
    ]

    guarded_result : (fn : Exec W Reply) (w : W) → FromCall fn (guarded env fn w).0
    guarded_result fn w = elim (laws.execute_cases (reported env fn) w) [
      | inl (e, q, rejected) ↦
          inl (guarded-settle fn w (err e) q ∙ unfold settle ◌>>=◌ in rw (rejected, settle))
      | inr (called, q) ↦
          rw (guarded-settle fn w (reported env fn called).0 q)
            (settle_called fn (env.breaker_execute (reported env fn) w).1 called)
    ]

    -- The caller gets the wrapped function's own result, a miss included, or ErrBreakerOpen.
    pub execute_result :
        (b : Option Breaker) (fn : Exec W Reply) (w : W)
        → ((execute env b fn w).0 ≡ err breaker_open)
          ⊎ ((called : W) × ((execute env b fn w).0 ≡ (fn called).0))
    unfolding execute
    execute_result none fn w = inr (w, refl)
    execute_result (some b) fn w = elim (Bool-cases b.has_cb) [
      | inl cb ↦ rw (cb, execute) (guarded_result fn w)
      | inr no_cb ↦ rw (no_cb, execute) (inr (w, refl))
    ]
