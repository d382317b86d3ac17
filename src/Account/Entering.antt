-- ===== src/Account/Entering.antt =====
-- A login, and the token check that follows it.
use feed_system_golang.Base.{
  ℕ, ◌≡◌, sym, ap, subst, ◌∙◌, String, str_eq, eq_iff, false, Option, some, Result, ok, continue,
  pure, ◌>>=◌, Result-cases, Elem, arith, inl, inr,
}
use feed_system_golang.Backend.{Backend}
use feed_system_golang.Backend.Entity.{Account}
use feed_system_golang.Backend.Redis.{account, text}
use feed_system_golang.Backend.Sql.{apply, update_accounts}
use feed_system_golang.Backend.Quiet.{Quiet, quiet_rules}
use feed_system_golang.Backend.Laws.{MysqlLaws, QuietLaws}
use feed_system_golang.Backend.Keeps.{bind_then}
use feed_system_golang.Cache.{Client}
use feed_system_golang.Cache.Commands.{set_bytes}
use feed_system_golang.Cache.Quiet.{when_cached-Quiet, set_bytes-Quiet}
use feed_system_golang.Account.Token.{Claims, Jwt, one_day, generate_token}
use feed_system_golang.Account.Repo.{find_by_id, find_by_username, store_token, has_id, set_token}
use feed_system_golang.Account.Service.{
  Bcrypt, LoginRequest, cache_login, login_as, login_found, login,
}
use feed_system_golang.Account.Session.{when_cached_ok, found_row}
use feed_system_golang.Account.Auth.{let_through, check_row, check_stored}
use feed_system_golang.Account.Rows.{Holds, Holds-update}

module _ {W : Type 0} {env : Backend W} (laws : MysqlLaws env) (quiet : QuietLaws env)
    (cache : Option Client) where
  open env use {tables}

  store_token-Holds :
      (a : Account) (w : W)
      → (store_token env a w).0 ≡ ok tt
      → Holds a.id a.token (tables (store_token env a w).1)
  unfolding store_token ◌>>=◌
  store_token-Holds a w h =
      elim (laws.exec_cases (update_accounts (has_id a.id) (set_token a.token)) w) [
        | inl (e, q, same) ↦ ground (arith, q)
        | inr (o, q, done, _, _) ↦
            let after : tables (store_token env a w).1
                ≡ apply (update_accounts (has_id a.id) (set_token a.token)) o.last_insert_id
                    (tables w) =
              ground (arith, q, done) in
            subst (Holds a.id a.token) (sym after)
              (Holds-update a.id a.token o.last_insert_id (tables w))
      ]

  module _ (jwt : Jwt W) (bcrypt : Bcrypt W) where
    cache_login-Quiet :
        (id : ℕ) (token : String) → Quiet env (cache_login env jwt bcrypt cache id token)
    unfolding cache_login
    cache_login-Quiet id token =
        search (quiet_rules, when_cached-Quiet cache, set_bytes-Quiet quiet cache)

    abbrev Entered : ℕ → String → W → Type 0
    Entered id token w = Holds id token (tables w)

    ok_made : (made token : String) → Path (Result String) (ok made) (ok token) → made ≡ token
    ok_made made token h = ground arith

    stored_then :
        (a : Account) (made token : String) (w : W)
        → (store_token env (set_token made a) w).0 ≡ ok tt
        → Path (Result String) (ok made) (ok token)
        → Holds a.id token (
            tables
              (cache_login env jwt bcrypt cache a.id made
                (store_token env (set_token made a) w).1).1)
    stored_then a made token w q h =
        let after = (store_token env (set_token made a) w).1 in
        subst (λ m. Holds a.id m (tables (cache_login env jwt bcrypt cache a.id made after).1))
          (ok_made made token h)
          (subst (Holds a.id made) (sym ((cache_login-Quiet a.id made).at after))
            (store_token-Holds (set_token made a) w q))

    login_as-Holds :
        (a : Account) (token : String) (w : W)
        → (login_as env jwt bcrypt cache a w).0 ≡ ok token
        → Holds a.id token (tables (login_as env jwt bcrypt cache a w).1)
    unfolding login_as pure
    login_as-Holds a token w h =
        bind_then (Entered a.id token) (generate_token env jwt a.id a.username) _ w token h
          (λ made q1 h1.
            bind_then (Entered a.id token) (store_token env (set_token made a)) _ _ token h1
              (λ _ q2 h2.
                bind_then (Entered a.id token) (cache_login env jwt bcrypt cache a.id made) _ _
                  token h2 (λ _ _ h3. stored_then a made token _ q2 h3)))

    found_login :
        (password : String) (a : Account) (token : String) (w : W)
        → (login_found env jwt bcrypt cache password a w).0 ≡ ok token
        → (bcrypt.compare_hash a.password password ≡ ok tt)
          × Holds a.id token (tables (login_found env jwt bcrypt cache password a w).1)
    unfolding login_found ◌>>=◌
    found_login password a token w h =
        elim (Result-cases (bcrypt.compare_hash a.password password)) [
          | inl (e, q) ↦ ground (arith, q)
          | inr (u, q) ↦ (
            q,
            let step : login_found env jwt bcrypt cache password a w
                    ≡ login_as env jwt bcrypt cache a w =
                  ground (arith, q) in
                subst (λ r. Holds a.id token (tables r.1)) (sym step)
                  (login_as-Holds a token w (ap (λ r. r.0) (sym step) ∙ h)),
          )
        ]

    -- After a login that succeeded the password was right, and wherever the rows are still the same
    -- and the database answers, the check against the database lets the token through, if it is not
    -- empty, with the id and the name of the account's row.
    pub login-check :
        (req : LoginRequest) (a : Account) (token : String) (w : W)
        → (find_by_username env req.username w).0 ≡ ok a
        → (login env jwt bcrypt cache req w).0 ≡ ok token
        → str_eq token "" ≡ false
        → (later : W) → tables later ≡ tables (login env jwt bcrypt cache req w).1
        → (claims : Claims) (b : Account) → claims.account_id ≡ a.id
        → (find_by_id env claims.account_id later).0 ≡ ok b
        → (bcrypt.compare_hash a.password req.password ≡ ok tt)
          × ((check_stored env cache claims token later).0
              ≡ ok (let_through (some (record { account_id = b.id; username = b.username }))))
    unfolding login check_stored check_row ◌>>=◌
    login-check req a token w q h full later same claims b mine found =
        let after = (find_by_username env req.username w).1 in
        let step : login env jwt bcrypt cache req w
            ≡ login_found env jwt bcrypt cache req.password a after =
          ap (λ r. continue r (login_found env jwt bcrypt cache req.password) after) q in
        let (right, holds) =
          found_login req.password a token after (ap (λ r. r.0) (sym step) ∙ h) in
        let (of_id, i) = found_row laws quiet cache claims.account_id later b found in
        let b_holds : b.token ≡ token =
          holds b (subst (λ t. Elem b t.accounts) (same ∙ ap (λ r. tables r.1) step) i)
            (of_id ∙ mine) in
        let kept : str_eq b.token "" ≡ false =
          subst (λ x. str_eq x "" ≡ false) (sym b_holds) full in
        let told =
          when_cached_ok laws quiet cache cache
            (set_bytes env cache (account b.id) (text b.token) one_day)
            (find_by_id env claims.account_id later).1 in
        (right, ground (arith, found, kept, (eq_iff b.token token).1 b_holds, told))
