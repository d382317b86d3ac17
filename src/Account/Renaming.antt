-- ===== src/Account/Renaming.antt =====
-- `Rename` changes the name and the token together.
use feed_system_golang.Base.{
  ℕ, ◌≡◌, refl, sym, ap, subst, ◌∙◌, ◌⊎◌, inl, inr, String, false, Option, Error, Result, ok, err,
  attempt, ◌>>=◌, Bool-cases, arith,
}
use feed_system_golang.Backend.{Backend}
use feed_system_golang.Backend.Redis.{account, text}
use feed_system_golang.Backend.Sql.{Tables, apply, violates, update_accounts}
use feed_system_golang.Backend.Quiet.{Quiet, Quiet-bind, Quiet-pure, quiet_rules}
use feed_system_golang.Backend.Laws.{MysqlLaws, QuietLaws}
use feed_system_golang.Backend.Keeps.{quiet_then}
use feed_system_golang.Cache.{Client}
use feed_system_golang.Cache.Commands.{set_bytes}
use feed_system_golang.Cache.Quiet.{when_cached-Quiet, set_bytes-Quiet}
use feed_system_golang.Account.Token.{Jwt, one_day, generate_token}
use feed_system_golang.Account.Repo.{
  has_id, set_token, set_username, rename_body, rename_with_token,
}
use feed_system_golang.Account.Service.{Bcrypt, renamed, rename, username_taken}
use feed_system_golang.Video.Repo.{is_duplicate_key}
use feed_system_golang.Account.Session.{when_cached_ok}

-- Both updates; the keys that a statement is given do not matter to them.
abbrev pub renamed_tables : ℕ → String → String → Tables → Tables
renamed_tables id username token t =
    apply (update_accounts (has_id id) (set_token token)) 0
      (apply (update_accounts (has_id id) (set_username username)) 0 t)

-- No other account has the name.
abbrev pub Free : ℕ → String → Tables → Type 0
Free id username t = violates (update_accounts (has_id id) (set_username username)) t ≡ false

module _ {W : Type 0} {env : Backend W} (laws : MysqlLaws env) (quiet : QuietLaws env) where
  open env use {tables}

  rename_body_ok :
      (id : ℕ) (username token : String) (w : W)
      → (rename_body env id username token w).0 ≡ ok tt
      → (tables (rename_body env id username token w).1
          ≡ renamed_tables id username token (tables w))
        × Free id username (tables w)
  unfolding rename_body ◌>>=◌
  rename_body_ok id username token w h = ground (
    arith,
    laws.exec_cases (update_accounts (has_id id) (set_username username)) w,
    laws.exec_cases (update_accounts (has_id id) (set_token token))
        (env.exec (update_accounts (has_id id) (set_username username)) w).1,
  )

  abbrev pub RenameOutcome : ℕ → String → Tables → Result String × W → Type 0
  RenameOutcome id username t done =
      ((e : Error) × (done.0 ≡ err e) × (tables done.1 ≡ t))
      ⊎ ((token : String) × (done.0 ≡ ok token)
          × (tables done.1 ≡ renamed_tables id username token t)
          × Free id username t)

  rename_with_token-outcome :
      (id : ℕ) (username token : String) (w : W)
      → ((e : Error) × ((rename_with_token env id username token w).0 ≡ err e)
          × (tables (rename_with_token env id username token w).1 ≡ tables w))
        ⊎ (((rename_with_token env id username token w).0 ≡ ok tt)
            × (tables (rename_with_token env id username token w).1
                ≡ renamed_tables id username token (tables w))
            × Free id username (tables w))
  unfolding rename_with_token
  rename_with_token-outcome id username token w =
      elim (laws.transaction_cases (rename_body env id username token) w) [
        | inl rolled ↦ inl rolled
        | inr (begun, same, done, committed, after) ↦
            let (changed, free) = rename_body_ok id username token begun done in
            inr (
              committed,
              after ∙ changed ∙ ap (renamed_tables id username token) same,
              subst (Free id username) same free,
            )
      ]

  module _ (jwt : Jwt W) (bcrypt : Bcrypt W) (cache : Option Client) (id : ℕ)
      (username : String) where
    generate_token-Quiet : Quiet env (generate_token env jwt id username)
    unfolding generate_token
    generate_token-Quiet = search quiet_rules

    renamed-outcome :
        (token : String) (t : Tables) (w : W)
        → tables w ≡ renamed_tables id username token t
        → Free id username t
        → RenameOutcome id username t (renamed env jwt bcrypt cache id token (ok tt) w)
    unfolding renamed ◌>>=◌
    renamed-outcome token t w h free =
        let tell = set_bytes env cache (account id) (text token) one_day in
        inr (
          token,
          ground (arith, when_cached_ok laws quiet cache cache tell w),
          (Quiet-bind
                  (when_cached-Quiet cache tell
                    (set_bytes-Quiet quiet cache (account id) (text token) one_day))
                  (λ _. Quiet-pure token)).at
                w
              ∙ h,
          free,
        )

    after_rename :
        (token : String) (t : Tables) (w : W)
        → tables w ≡ t
        → RenameOutcome id username t (
            (attempt (rename_with_token env id username token)
                >>= renamed env jwt bcrypt cache id token)
              w)
    unfolding ◌>>=◌ renamed
    after_rename token t w h = elim (rename_with_token-outcome id username token w) [
      | inl (e, q, same) ↦
          let world = (rename_with_token env id username token w).1 in
          let step : (attempt (rename_with_token env id username token)
                  >>= renamed env jwt bcrypt cache id token)
                w
              ≡ renamed env jwt bcrypt cache id token (err e) world =
            ap (λ r. renamed env jwt bcrypt cache id token r world) q in
          subst (RenameOutcome id username t) (sym step) (elim (Bool-cases (is_duplicate_key e)) [
            | inl taken ↦
                inl (username_taken, ground (arith, taken), ground (arith, taken, same, h))
            | inr other ↦ inl (e, ground (arith, other), ground (arith, other, same, h))
          ])
      | inr (q, same, free) ↦
          let world = (rename_with_token env id username token w).1 in
          let step : (attempt (rename_with_token env id username token)
                  >>= renamed env jwt bcrypt cache id token)
                w
              ≡ renamed env jwt bcrypt cache id token (ok tt) world =
            ap (λ r. renamed env jwt bcrypt cache id token r world) q in
          subst (RenameOutcome id username t) (sym step) (
            renamed-outcome token t world (same ∙ ap (renamed_tables id username token) h)
              (subst (Free id username) h free))
    ]

    -- Whatever calls fail: a rename either answers an error and leaves every table as it was, or it
    -- answers a token, no other account had the name, and the account's rows have the name and that
    -- token.
    pub rename-outcome :
        (w : W) → RenameOutcome id username (tables w) (rename env jwt bcrypt cache id username w)
    unfolding rename
    rename-outcome w =
        quiet_then (tables w) (RenameOutcome id username (tables w)) (λ e v h. inl (e, refl, h)) _ _
          w generate_token-Quiet refl (λ token _ h. after_rename token (tables w) _ h)
