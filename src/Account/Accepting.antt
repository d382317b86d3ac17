-- ===== src/Account/Accepting.antt =====
-- Whom the token middleware accepts: the token that follows `Bearer` was parsed, and the check
-- vouches for it.
use feed_system_golang.Base.{
  String, str_eq, ◌≡◌, refl, ◌⊎◌, inl, inr, Bool, true, false, Option, none, some, Result, ok, err,
  Exec, pure, attempt, ignore, ◌>>=◌, ◌>>◌, if◌then◌else◌,
}
use feed_system_golang.Backend.{Backend}
use feed_system_golang.Backend.Entity.{Account}
use feed_system_golang.Backend.Redis.{Value}
use feed_system_golang.Backend.Sql.{Tables}
use feed_system_golang.Backend.Quiet.{Quiet}
use feed_system_golang.Backend.Laws.{MysqlLaws, QuietLaws}
use feed_system_golang.Cache.{Client}
use feed_system_golang.Cache.Commands.{when_cached}
use feed_system_golang.Account.Token.{Jwt, Claims, Method, parse_token}
use feed_system_golang.Account.Auth.{
  Identity, Access, rejected, let_through, Headers, check_row, check_stored, check_cached,
  check_client, check, bearer_of, jwt_auth_bearer, jwt_auth, soft_jwt_auth_bearer, soft_jwt_auth,
}
use feed_system_golang.Account.Session.{Vouched, check_sound}
use feed_system_golang.Account.Guard.{IsHard, parse_token-Quiet}

-- An action of the token check that never fails.
pub record Hard {W : Type 0} (m : Exec W Access) : Type 0 where
  pub at : (w : W) → IsHard (m w).0

module _ {W : Type 0} where
  Hard-rejected : (reason : String) → Hard {W = W} (pure (rejected reason))
  unfolding pure
  Hard-rejected reason = record { at = λ w. inl (reason, refl) }

  Hard-let_through : (who : Identity) → Hard {W = W} (pure (let_through (some who)))
  unfolding pure
  Hard-let_through who = record { at = λ w. inr (who, refl) }

  Hard-if : (b : Bool) {m n : Exec W Access} → Hard m → Hard n → Hard (if b then m else n)
  Hard-if true p q = p
  Hard-if false p q = q

  Hard-attempt :
      {A : Type 0} (m : Exec W A) (f : Result A → Exec W Access)
      → ((r : Result A) → Hard (f r))
      → Hard (attempt m >>= f)
  unfolding attempt ◌>>=◌
  Hard-attempt m f q = record { at = λ w. (q (m w).0).at (m w).1 }

  Hard-when_cached :
      (c : Option Client) (m : Exec W (Unit {0})) (n : Exec W Access)
      → Hard n
      → Hard (when_cached c m >> n)
  unfolding when_cached ignore pure ◌>>=◌
  Hard-when_cached none m n q = record { at = λ w. q.at w }
  Hard-when_cached (some client) m n q = record { at = λ w. q.at (m w).1 }

ruleset hard_rules = (Hard-rejected, Hard-let_through, Hard-if, Hard-attempt, Hard-when_cached)

module _ {W : Type 0} (env : Backend W) (cache : Option Client) where
  check_row-Hard : (token : String) (r : Result Account) → Hard (check_row env cache token r)
  unfolding check_row
  check_row-Hard token (err e) = search hard_rules
  check_row-Hard token (ok a) = search hard_rules

  check_stored-Hard :
      (claims : Claims) (token : String) → Hard (check_stored env cache claims token)
  unfolding check_stored
  check_stored-Hard claims token = search (hard_rules, check_row-Hard)

  check_cached-Hard :
      (claims : Claims) (token : String) (r : Result (Option Value))
      → Hard (check_cached env cache claims token r)
  unfolding check_cached
  check_cached-Hard claims token (err e) = check_stored-Hard claims token
  check_cached-Hard claims token (ok o) = search hard_rules

  check_client-Hard :
      (c : Option Client) (claims : Claims) (token : String)
      → Hard (check_client env cache c claims token)
  unfolding check_client
  check_client-Hard none claims token = check_stored-Hard claims token
  check_client-Hard (some client) claims token = search (hard_rules, check_cached-Hard)

  check-Hard : (claims : Claims) (token : String) → Hard (check env cache claims token)
  unfolding check
  check-Hard claims token = check_client-Hard cache claims token

module _ {W : Type 0} {env : Backend W} (laws : MysqlLaws env) (quiet : QuietLaws env)
    (cache : Option Client) (jwt : Jwt W)
    (parse-Quiet : (key : Method → Result String) (token : String)
      → Quiet env (jwt.parse key token))
    (headers : Headers) where
  open env use {tables}

  -- The header is `Bearer` and a token that parses, at a world with the tables of `t`, and the check
  -- vouches for `who`.
  abbrev pub Authenticated : String → Tables → Identity → Type 0
  Authenticated header t who =
      (token : String) × (claims : Claims) × (w : W) × (later : W) × (tables w ≡ t)
      × (tables later ≡ t)
      × (bearer_of env cache jwt headers (headers.split_two header) ≡ some token)
      × ((parse_token env jwt token w).0 ≡ ok claims)
      × Vouched laws quiet cache claims token later who

  abbrev pub Outcome : String → Tables → Result Access → Type 0
  Outcome header t r =
      ((reason : String) × (r ≡ ok (rejected reason)))
      ⊎ ((who : Identity) × (r ≡ ok (let_through (some who))) × Authenticated header t who)

  bearer_outcome :
      (header : String) (b : Option String) (w : W)
      → bearer_of env cache jwt headers (headers.split_two header) ≡ b
      → Outcome header (tables w) (jwt_auth_bearer env cache jwt headers b w).0
  unfolding jwt_auth_bearer attempt pure ◌>>=◌
  bearer_outcome header none w q = inl (_, refl)
  bearer_outcome header (some token) w q = parsed (parse_token env jwt token w).0 refl
    where
      w1 : W
      w1 = (parse_token env jwt token w).1

      same : tables w1 ≡ tables w
      same = (parse_token-Quiet laws quiet cache jwt parse-Quiet headers token).at w

      parsed :
          (r : Result Claims)
          → (parse_token env jwt token w).0 ≡ r
          → Outcome header
              (tables w)
              ((elim r as (λ _. Exec W Access) [
                | err e ↦ pure (rejected "invalid or expired token")
                | ok claims ↦ check env cache claims token
              ])
                w1).0
      parsed (err e) p = inl (_, refl)
      parsed (ok claims) p = elim ((check-Hard env cache claims token).at w1) [
        | inl refused ↦ inl refused
        | inr (who, done) ↦ inr (
          who,
          done,
          (
            token,
            claims,
            w,
            w1,
            refl,
            same,
            q,
            p,
            check_sound laws quiet cache claims token w1 who done,
          ),
        )
      ]

  pub jwt_auth_outcome :
      (header : String) (w : W)
      → Outcome header (tables w) (jwt_auth env cache jwt headers header w).0
  unfolding jwt_auth pure
  jwt_auth_outcome header w = go (str_eq header "")
    where
      go :
          (b : Bool)
          → Outcome header
              (tables w)
              ((if b
                  then pure (rejected "missing authorization header")
                  else jwt_auth_bearer env cache jwt headers
                      (bearer_of env cache jwt headers (headers.split_two header)))
                w).0
      go true = inl (_, refl)
      go false = bearer_outcome header _ w refl

  soft_bearer_answers :
      (b : Option String) (w : W)
      → (access : Access) × ((soft_jwt_auth_bearer env cache jwt headers b w).0 ≡ ok access)
  unfolding soft_jwt_auth_bearer attempt pure ◌>>=◌
  soft_bearer_answers none w = (_, refl)
  soft_bearer_answers (some token) w =
      let w1 = (parse_token env jwt token w).1 in
      elim (parse_token env jwt token w).0
        as (λ r.
          (access : Access) × (((elim r as (λ _. Exec W Access) [
            | err e ↦ pure (let_through none)
            | ok claims ↦ check env cache claims token
          ])
              w1).0
            ≡ ok access)) [
              | err e ↦ (_, refl)
              | ok claims ↦ elim ((check-Hard env cache claims token).at w1) [
                | inl (reason, q) ↦ (_, q)
                | inr (who, q) ↦ (_, q)
              ]
            ]

  -- The soft middleware never fails.
  pub soft_jwt_auth_answers :
      (header : String) (w : W)
      → (access : Access) × ((soft_jwt_auth env cache jwt headers header w).0 ≡ ok access)
  unfolding soft_jwt_auth pure
  soft_jwt_auth_answers header w =
      elim (str_eq header "")
        as (λ b.
          (access : Access) × (((if b
                then pure (let_through none)
                else soft_jwt_auth_bearer env cache jwt headers
                    (bearer_of env cache jwt headers (headers.split_two header)))
              w).0
            ≡ ok access)) [ true ↦ (_, refl) | false ↦ soft_bearer_answers _ w ]
