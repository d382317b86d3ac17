-- ===== src/Account/Auth.antt =====
-- middleware/jwt/jwt.go. A middleware ends the request with status 401 and a message, or lets it
-- through with what it has put into gin's context.
use feed_system_golang.Base.{
  ℕ, String, str_eq, Bool, false, not, ◌||◌, Option, none, some, List, [], ◌∷◌, message, Result, ok,
  err, Exec, pure, attempt, ◌>>=◌, ◌>>◌, if◌then◌else◌,
}
use feed_system_golang.Backend.{Backend}
use feed_system_golang.Backend.Entity.{Account}
use feed_system_golang.Backend.Redis.{account, text, Value, as_text}
use feed_system_golang.Cache.{Client}
use feed_system_golang.Cache.Commands.{when_cached, get_bytes, set_bytes}
use feed_system_golang.Account.Token.{Jwt, Claims, parse_token, one_day}
use feed_system_golang.Account.Repo.{find_by_id}

pub record Identity : Type 0 where
  pub account_id : ℕ
  pub username : String

pub data Access : Type 0 where
  rejected : String → Access
  let_through : Option Identity → Access

-- `strings.SplitN(header, " ", 2)` and `strings.EqualFold`.
pub record Headers : Type 0 where
  pub split_two : String → List String
  pub equal_fold : String → String → Bool

-- A value of gin's context, which has any type.
pub data ContextValue : Type 0 where
  uint : ℕ → ContextValue
  string : String → ContextValue
  other : ContextValue

unfoldable pub get_account_id : Option ContextValue → Result ℕ
get_account_id none = err (message "accountID not found")
get_account_id (some (uint n)) = ok n
get_account_id (some _) = err (message "accountID has invalid type")

unfoldable pub get_username : Option ContextValue → Result String
get_username none = err (message "username not found")
get_username (some (string s)) = ok s
get_username (some _) = err (message "username has invalid type")

-- `string(trueToken) == tokenString`; no bytes are the empty string.
abbrev pub is_token : Option Value → String → Bool
is_token none token = str_eq "" token
is_token (some v) token = elim (as_text v) [ none ↦ false | some t ↦ str_eq t token ]

module _ {W : Type 0} (env : Backend W) (cache : Option Client) where
  unfoldable pub check_row : String → Result Account → Exec W Access
  check_row token (err e) = pure (rejected "token has been revoked")
  check_row token (ok a) =
      if str_eq a.token "" || not (str_eq a.token token)
      then pure (rejected "token has been revoked")
      else (do
        when_cached cache (set_bytes env cache (account a.id) (text a.token) one_day)
        pure (let_through (some (record { account_id = a.id; username = a.username }))))

  unfoldable pub check_stored : Claims → String → Exec W Access
  check_stored claims token = do r ← attempt (find_by_id env claims.account_id); check_row token r

  -- An error of the cache, a miss too, leaves it to the database.
  unfoldable pub check_cached : Claims → String → Result (Option Value) → Exec W Access
  check_cached claims token (err e) = check_stored claims token
  check_cached claims token (ok true_token) =
      if is_token true_token token
      then pure (
          let_through
            (some (record { account_id = claims.account_id; username = claims.username })))
      else pure (rejected "token has been revoked")

  unfoldable pub check_client : Option Client → Claims → String → Exec W Access
  check_client none claims token = check_stored claims token
  check_client (some client) claims token = do
    r ← attempt (get_bytes env cache (account claims.account_id))
    check_cached claims token r

  unfoldable pub check : Claims → String → Exec W Access
  unfolding check_client check_cached check_stored check_row
  check claims token = check_client cache claims token

  module _ (jwt : Jwt W) (headers : Headers) where
    unfoldable pub bearer_of : List String → Option String
    bearer_of (scheme ∷ token ∷ []) =
        if headers.equal_fold scheme "Bearer" then some token else none
    bearer_of _ = none

    unfoldable pub jwt_auth_bearer : Option String → Exec W Access
    jwt_auth_bearer none = pure (rejected "missing authorization header")
    jwt_auth_bearer (some token) = do
      r ← attempt (parse_token env jwt token)
      elim r [ err e ↦ pure (rejected "invalid or expired token") | ok claims ↦ check claims token ]

    unfoldable pub jwt_auth : String → Exec W Access
    jwt_auth auth_header =
        if str_eq auth_header ""
        then pure (rejected "missing authorization header")
        else jwt_auth_bearer (bearer_of (headers.split_two auth_header))

    unfoldable pub soft_jwt_auth_bearer : Option String → Exec W Access
    soft_jwt_auth_bearer none = pure (let_through none)
    soft_jwt_auth_bearer (some token) = do
      r ← attempt (parse_token env jwt token)
      elim r [ err e ↦ pure (let_through none) | ok claims ↦ check claims token ]

    unfoldable pub soft_jwt_auth : String → Exec W Access
    soft_jwt_auth auth_header =
        if str_eq auth_header ""
        then pure (let_through none)
        else soft_jwt_auth_bearer (bearer_of (headers.split_two auth_header))
