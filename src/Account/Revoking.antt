-- ===== src/Account/Revoking.antt =====
-- What `Logout` and `RenameWithToken` do to the rows, and the token check after a logout.
use feed_system_golang.Base.{
  ℕ, ◌≡◌, ◌≢◌, sym, ap, subst, ◌∙◌, inl, inr, String, str_eq, eq_iff, false, Option, some, ok, Exec,
  pure, ◌>>=◌, ◌>>◌, Bool-cases, Elem, arith, ◌==◌,
}
use feed_system_golang.Backend.{Backend}
use feed_system_golang.Backend.Entity.{Account}
use feed_system_golang.Backend.Redis.{Value, account}
use feed_system_golang.Backend.Sql.{Tables, apply, update_accounts}
use feed_system_golang.Backend.Quiet.{Quiet}
use feed_system_golang.Backend.Laws.{MysqlLaws, QuietLaws}
use feed_system_golang.Backend.Keeps.{bind_then}
use feed_system_golang.Cache.{Client}
use feed_system_golang.Cache.Commands.{when_cached, get_bytes, del_key}
use feed_system_golang.Account.Token.{Claims, Jwt}
use feed_system_golang.Account.Repo.{find_by_id, clear_token, has_id, set_token}
use feed_system_golang.Account.Service.{Bcrypt, logout_found, logout}
use feed_system_golang.Account.Auth.{Identity, let_through, is_token, check}
use feed_system_golang.Account.Rows.{Holds, Holds-update}
use feed_system_golang.Account.Session.{check_sound, found_row}

-- The id is a primary key.
abbrev pub OneRow : ℕ → Tables → Type 0
OneRow id t =
    (a b : Account) → Elem a t.accounts → Elem b t.accounts → a.id ≡ id → b.id ≡ id → a ≡ b

-- No row of the account holds a token.
abbrev pub Cleared : ℕ → Tables → Type 0
Cleared id t = Holds id "" t

module _ {W : Type 0} {env : Backend W} (laws : MysqlLaws env) (quiet : QuietLaws env)
    (cache : Option Client) where
  open env use {tables}

  clear_token_ok :
      (id : ℕ) (w : W)
      → (clear_token env id w).0 ≡ ok tt
      → Cleared id (tables (clear_token env id w).1)
  unfolding clear_token ◌>>=◌
  clear_token_ok id w h = elim (laws.exec_cases (update_accounts (has_id id) (set_token "")) w) [
    | inl (e, q, same) ↦ ground (arith, q)
    | inr (o, q, done, _, _) ↦
        let after : tables (clear_token env id w).1
            ≡ apply (update_accounts (has_id id) (set_token "")) o.last_insert_id (tables w) =
          ground (arith, q, done) in
        subst (Cleared id) (sym after) (Holds-update id "" o.last_insert_id (tables w))
  ]

  find_by_id-Quiet : (id : ℕ) → Quiet env (find_by_id env id)
  unfolding find_by_id
  find_by_id-Quiet id = laws.first_account-Quiet (λ a. a.id == id)

  module _ (jwt : Jwt W) (bcrypt : Bcrypt W) where
    revoke : Account → Exec W (Unit {0})
    revoke a = when_cached cache (del_key env cache (account a.id))

    logout_found-Cleared :
        (id : ℕ) (a : Account) (w : W)
        → a.id ≡ id
        → Elem a (tables w).accounts
        → OneRow id (tables w)
        → (logout_found env jwt bcrypt cache a w).0 ≡ ok tt
        → Cleared id (tables (logout_found env jwt bcrypt cache a w).1)
    unfolding logout_found revoke pure
    logout_found-Cleared id a w same i one h = elim (Bool-cases (str_eq a.token "")) [
      | inl empty ↦
          let same_world : (logout_found env jwt bcrypt cache a w).1 ≡ w = ground (arith, empty) in
          subst (λ v. Cleared id (tables v)) (sym same_world)
            (λ b j of_id. ap (λ x. x.token) (one b a j i of_id same) ∙ (eq_iff a.token "").0 empty)
      | inr held ↦
          let step : logout_found env jwt bcrypt cache a w ≡ (revoke a >> clear_token env a.id) w =
            ground (arith, held) in
          subst (λ r. Cleared id (tables r.1)) (sym step)
            (bind_then (λ v. Cleared id (tables v)) (revoke a) (λ _. clear_token env a.id) w tt
              (ap (λ r. r.0) (sym step) ∙ h)
              (λ _ _ h'.
                subst (λ k. Cleared k (tables (clear_token env a.id (revoke a w).1).1)) same
                  (clear_token_ok a.id (revoke a w).1 h')))
    ]

    logout-Cleared :
        (id : ℕ) (w : W)
        → OneRow id (tables w)
        → (logout env jwt bcrypt cache id w).0 ≡ ok tt
        → Cleared id (tables (logout env jwt bcrypt cache id w).1)
    unfolding logout
    logout-Cleared id w one h =
        bind_then (λ v. Cleared id (tables v)) (find_by_id env id)
          (logout_found env jwt bcrypt cache) w tt h
          (λ a q h'.
            let quiet_find = (find_by_id-Quiet id).at w in
            let (same, i) = found_row laws quiet cache id w a q in
            logout_found-Cleared id a _ same (subst (λ t. Elem a t.accounts) (sym quiet_find) i)
              (subst (OneRow id) (sym quiet_find) one) h')

    -- After a logout that succeeded, wherever the rows are still the same and the cache does not
    -- answer the token, no token of the account is let through by the check.
    pub logout-check :
        (id : ℕ) (w : W)
        → OneRow id (tables w)
        → (logout env jwt bcrypt cache id w).0 ≡ ok tt
        → (later : W) → tables later ≡ tables (logout env jwt bcrypt cache id w).1
        → (claims : Claims) (token : String) → claims.account_id ≡ id
        → ((o : Option Value)
            → (get_bytes env cache (account id) later).0 ≡ ok o
            → is_token o token ≡ false)
        → (who : Identity) → (check env cache claims token later).0 ≢ ok (let_through (some who))
    logout-check id w one h later same claims token e uncached who h' =
        elim (check_sound laws quiet cache claims token later who h') [
          | inl (o, answered, is, _) ↦ ground (arith, e, answered, is, uncached o)
          | inr ((a, i, of_id, holds, held, _), _) ↦
              let cleared =
                logout-Cleared id w one h a (subst (λ t. Elem a t.accounts) same i) (of_id ∙ e) in
              let empty = (eq_iff a.token "").1 cleared in ground (arith, empty, held)
        ]
