-- ===== src/Account/Guard.antt =====
-- What the two token middlewares answer: never an error, and nothing of the tables is changed.
use feed_system_golang.Base.{String, ◌≡◌, ◌⊎◌, Option, none, some, Result, ok, err, Exec, pure}
use feed_system_golang.Backend.{Backend}
use feed_system_golang.Backend.Entity.{Account}
use feed_system_golang.Backend.Redis.{Value}
use feed_system_golang.Backend.Quiet.{Quiet, quiet_rules}
use feed_system_golang.Backend.Laws.{MysqlLaws, QuietLaws}
use feed_system_golang.Cache.{Client}
use feed_system_golang.Cache.Quiet.{get_bytes-Quiet, set_bytes-Quiet, when_cached-Quiet}
use feed_system_golang.Account.Token.{Jwt, Claims, Method, parse_token}
use feed_system_golang.Account.Repo.{find_by_id}
use feed_system_golang.Account.Auth.{
  Identity, Access, rejected, let_through, Headers, check_row, check_stored, check_cached,
  check_client, check, jwt_auth_bearer, jwt_auth, soft_jwt_auth_bearer, soft_jwt_auth,
}

-- Rejected, or let through as somebody.
abbrev pub IsHard : Result Access → Type 0
IsHard r =
    ((reason : String) × (r ≡ ok (rejected reason)))
    ⊎ ((who : Identity) × (r ≡ ok (let_through (some who))))

module _ {W : Type 0} {env : Backend W} (laws : MysqlLaws env) (quiet : QuietLaws env)
    (cache : Option Client) (jwt : Jwt W)
    (parse-Quiet : (key : Method → Result String) (token : String)
      → Quiet env (jwt.parse key token))
    (headers : Headers) where
  open env use {tables}

  check_row-Quiet : (token : String) (r : Result Account) → Quiet env (check_row env cache token r)
  unfolding check_row
  check_row-Quiet token (err e) = search quiet_rules
  check_row-Quiet token (ok a) =
      search (quiet_rules, when_cached-Quiet, set_bytes-Quiet quiet cache)

  check_stored-Quiet :
      (claims : Claims) (token : String) → Quiet env (check_stored env cache claims token)
  unfolding check_stored find_by_id
  check_stored-Quiet claims token = search (quiet_rules, check_row-Quiet, laws.first_account-Quiet)

  check_cached-Quiet :
      (claims : Claims) (token : String) (r : Result (Option Value))
      → Quiet env (check_cached env cache claims token r)
  unfolding check_cached
  check_cached-Quiet claims token (err e) = check_stored-Quiet claims token
  check_cached-Quiet claims token (ok o) = search quiet_rules

  check_client-Quiet :
      (c : Option Client) (claims : Claims) (token : String)
      → Quiet env (check_client env cache c claims token)
  unfolding check_client
  check_client-Quiet none claims token = check_stored-Quiet claims token
  check_client-Quiet (some client) claims token =
      search (quiet_rules, check_cached-Quiet, get_bytes-Quiet quiet cache)

  pub check-Quiet : (claims : Claims) (token : String) → Quiet env (check env cache claims token)
  unfolding check
  check-Quiet claims token = check_client-Quiet cache claims token

  pub parse_token-Quiet : (token : String) → Quiet env (parse_token env jwt token)
  unfolding parse_token
  parse_token-Quiet token = search (quiet_rules, parse-Quiet)

  checked-Quiet :
      (token : String) (other : Access) (r : Result Claims)
      → Quiet env (elim r as (λ _. Exec W Access) [
        | err e ↦ pure other
        | ok claims ↦ check env cache claims token
      ])
  checked-Quiet token other (err e) = search quiet_rules
  checked-Quiet token other (ok claims) = check-Quiet claims token

  jwt_auth_bearer-Quiet : (b : Option String) → Quiet env (jwt_auth_bearer env cache jwt headers b)
  unfolding jwt_auth_bearer
  jwt_auth_bearer-Quiet none = search quiet_rules
  jwt_auth_bearer-Quiet (some token) = search (quiet_rules, checked-Quiet, parse_token-Quiet)

  pub jwt_auth-Quiet : (header : String) → Quiet env (jwt_auth env cache jwt headers header)
  unfolding jwt_auth
  jwt_auth-Quiet header = search (quiet_rules, jwt_auth_bearer-Quiet)

  soft_jwt_auth_bearer-Quiet :
      (b : Option String) → Quiet env (soft_jwt_auth_bearer env cache jwt headers b)
  unfolding soft_jwt_auth_bearer
  soft_jwt_auth_bearer-Quiet none = search quiet_rules
  soft_jwt_auth_bearer-Quiet (some token) = search (quiet_rules, checked-Quiet, parse_token-Quiet)

  pub soft_jwt_auth-Quiet :
      (header : String) → Quiet env (soft_jwt_auth env cache jwt headers header)
  unfolding soft_jwt_auth
  soft_jwt_auth-Quiet header = search (quiet_rules, soft_jwt_auth_bearer-Quiet)
