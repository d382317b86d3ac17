-- ===== src/RateLimit/Refusal.antt =====
-- When the sliding window of sliding_window.go refuses.
use feed_system_golang.Base.{
  ℕ, pos, ◌≡◌, inl, inr, String, true, false, Option, some, ok, ℤ, ◌>>=◌, arith, Bool-cases,
  Option-cases, Result-cases, ◌=ℤ◌,
}
use feed_system_golang.Backend.{Backend}
use feed_system_golang.Cache.{Client, has_redis, is_breaker_open}
use feed_system_golang.RateLimit.Limiter.{
  refused, Context, KeyFunc, Limiting, is_off, subject_of, build_sliding_key, ask_script, by_script,
  slide_subject, sliding_window_limit,
}

module _ {W : Type 0} (env : Backend W) (lib : Limiting W) (cache : Option Client) (prefix : String)
    (max : ℤ) (window : ℕ) where
  -- The script's answer for a subject was 1.
  abbrev pub Full : String → W → Type 0
  Full subject w =
      (member : String) × (asked : W) × (answer : ℤ) × ((lib.run_sliding
          (build_sliding_key env lib prefix subject) window max (env.clock w) member asked).0
        ≡ ok answer)
      × ((answer =ℤ pos 1) ≡ true)

  ask_script-Full :
      (subject : String) (w : W)
      → (ask_script env lib prefix max window subject w).0 ≡ ok refused
      → Full subject w
  unfolding ask_script by_script ◌>>=◌
  ask_script-Full subject w h = elim (Result-cases (lib.next_seq w).0) [
    | inl (e, q) ↦ ground (arith, q)
    | inr (seq, q) ↦
        let asked = (lib.next_seq w).1 in
        let member = lib.member_text (lib.nanos w) seq in
        let r =
          lib.run_sliding (build_sliding_key env lib prefix subject) window max (env.clock w) member
            asked in
        elim (Result-cases r.0) [
          | inl (e, q') ↦ ground (arith, q, q')
          | inr (answer, q') ↦ (member, asked, answer, q', ground (arith, q, q'))
        ]
  ]

  -- The
  pub sliding_window_limit-Full :
      (f : Option KeyFunc) (c : Context) (w : W)
      → (sliding_window_limit env lib cache prefix max window f c w).0 ≡ ok refused
      → (subject : String) × (is_off env lib cache max window f ≡ false)
        × (subject_of env lib f c ≡ some subject)
        × (has_redis cache ≡ true)
        × (is_breaker_open env cache w ≡ false)
        × Full subject w
  unfolding sliding_window_limit slide_subject ◌>>=◌
  sliding_window_limit-Full f c w h = elim (Option-cases (subject_of env lib f c)) [
    | inl q ↦ ground (arith, q)
    | inr (subject, q) ↦ elim (Bool-cases (is_off env lib cache max window f)) [
      | inl off ↦ ground (arith, off)
      | inr on ↦ elim (Bool-cases (has_redis cache)) [
        | inr lost ↦ ground (arith, on, q, lost)
        | inl has ↦ elim (Bool-cases (is_breaker_open env cache w)) [
          | inl stopped ↦ ground (arith, on, q, has, stopped)
          | inr closed ↦ (
            subject,
            on,
            q,
            has,
            closed,
            ask_script-Full subject w (ground (arith, on, q, has, closed)),
          )
        ]
      ]
    ]
  ]
