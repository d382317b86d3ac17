-- ===== src/Account/Service.antt =====
-- account/service.go. bcrypt is the parameter `Bcrypt`; the time-outs of the cache's calls are
-- failures of theirs.
use feed_system_golang.Base.{
  ℕ, ◌*◌, String, str_eq, Option, Error, message, Result, ok, err, Exec, pure, raise, give, attempt,
  ◌>>=◌, ◌>>◌, if◌then◌else◌,
}
use feed_system_golang.Backend.{Backend}
use feed_system_golang.Backend.Entity.{Account}
use feed_system_golang.Backend.Redis.{account, user_active, text}
use feed_system_golang.Cache.{Client}
use feed_system_golang.Cache.Commands.{when_cached, set_bytes, del_key}
use feed_system_golang.Video.Repo.{is_duplicate_key}
use feed_system_golang.Account.Token.{Jwt, generate_token, one_day}
use feed_system_golang.Account.Repo.{
  create_account, find_by_username, find_by_id, store_token, clear_token, store_password,
  rename_with_token, set_token, set_password,
}

-- `GenerateFromPassword`, which draws a salt, and `CompareHashAndPassword`.
pub record Bcrypt (W : Type 0) : Type 0 where
  pub generate : String → Exec W String
  pub compare_hash : String → String → Result (Unit {0})

pub record LoginRequest : Type 0 where
  pub username : String
  pub password : String

pub record ChangePasswordRequest : Type 0 where
  pub username : String
  pub old_password : String
  pub new_password : String

abbrev pub username_taken : Error
username_taken = message "username already exists"

module _ {W : Type 0} (env : Backend W) (jwt : Jwt W) (bcrypt : Bcrypt W)
    (cache : Option Client) where
  unfoldable pub register : Account → Exec W (Unit {0})
  register a = do
    password_hash ← bcrypt.generate a.password
    create_account env (set_password password_hash a)

  -- The token goes to the cache, and so does the time of the user's activity.
  unfoldable pub cache_login : ℕ → String → Exec W (Unit {0})
  cache_login id token = do
    when_cached cache (set_bytes env cache (account id) (text token) one_day)
    when_cached cache (set_bytes env cache (user_active id) (text "1") (3 * one_day))

  unfoldable pub login_as : Account → Exec W String
  unfolding cache_login
  login_as a = do
    token ← generate_token env jwt a.id a.username
    store_token env (set_token token a)
    cache_login a.id token
    pure token

  unfoldable pub login_found : String → Account → Exec W String
  unfolding login_as
  login_found password a = do give (bcrypt.compare_hash a.password password); login_as a

  unfoldable pub login : LoginRequest → Exec W String
  unfolding login_found
  login req = do a ← find_by_username env req.username; login_found req.password a

  -- A token that is empty is one that was cleared.
  unfoldable pub logout_found : Account → Exec W (Unit {0})
  logout_found a =
      if str_eq a.token ""
      then pure tt
      else (do when_cached cache (del_key env cache (account a.id)); clear_token env a.id)

  unfoldable pub logout : ℕ → Exec W (Unit {0})
  unfolding logout_found
  logout id = do a ← find_by_id env id; logout_found a

  unfoldable pub change_password : ChangePasswordRequest → Exec W (Unit {0})
  change_password req = do
    a ← find_by_username env req.username
    give (bcrypt.compare_hash a.password req.old_password)
    password_hash ← bcrypt.generate req.new_password
    store_password env a.id password_hash
    logout a.id

  -- The error of a name that another account has is told apart.
  unfoldable pub renamed : ℕ → String → Result (Unit {0}) → Exec W String
  renamed account_id token (err e) = if is_duplicate_key e then raise username_taken else raise e
  renamed account_id token (ok done) = do
    when_cached cache (set_bytes env cache (account account_id) (text token) one_day)
    pure token

  unfoldable pub rename : ℕ → String → Exec W String
  unfolding renamed
  rename account_id new_username = do
    token ← generate_token env jwt account_id new_username
    r ← attempt (rename_with_token env account_id new_username token)
    renamed account_id token r
