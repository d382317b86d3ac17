-- ===== src/Account/Handler.antt =====
-- account/handler.go.
use feed_system_golang.Base.{
  ℕ, ℤ, pos, String, str_eq, Bool, false, Option, Error, message, Result, ok, err, Exec, pure,
  attempt, ◌>>=◌, ◌>>◌, if◌then◌else◌,
}
use feed_system_golang.Backend.{Backend}
use feed_system_golang.Backend.Entity.{Account}
use feed_system_golang.Cache.{Client}
use feed_system_golang.Video.Repo.{is_not_found}
use feed_system_golang.Account.Token.{Jwt}
use feed_system_golang.Account.Repo.{find_by_id, find_by_username}
use feed_system_golang.Account.Service.{
  Bcrypt, LoginRequest, ChangePasswordRequest, register, login, logout, change_password, rename,
}
use feed_system_golang.Http.Context.{
  GinContext, Answer, ok_json, refuse, Message, TokenBody, said, respond, with_body, with_account,
}

pub record CreateAccountRequest : Type 0 where
  pub username : String
  pub password : String

-- `FindByIDRequest`, `FindByUsernameRequest` and `RenameRequest`.
pub record FindByIdRequest : Type 0 where
  pub id : ℕ

pub record FindByUsernameRequest : Type 0 where
  pub username : String

pub record RenameRequest : Type 0 where
  pub new_username : String

-- `Account` as JSON, which leaves out the password and the token.
pub record AccountJson : Type 0 where
  pub id : ℕ
  pub username : String
  pub follower_count : ℤ

abbrev pub account_json : Account → AccountJson
account_json a = record { id = a.id; username = a.username; follower_count = a.follower_count }

-- The row that a registration writes; the table gives it its id.
abbrev pub new_account : CreateAccountRequest → Account
new_account req = record {
  id = 0;
  username = req.username;
  password = req.password;
  token = "";
  follower_count = pos 0;
}

-- `errors.Is(err, ErrUsernameTaken)`
abbrev pub is_username_taken : Error → Bool
is_username_taken (message text) = str_eq text "username already exists"
is_username_taken _ = false

-- The statuses of a renaming that fails.
unfoldable pub rename_answer : Result String → Answer TokenBody
rename_answer (ok token) = ok_json (record { token = token })
rename_answer (err e) =
    if is_username_taken e
    then refuse 409 e
    else if is_not_found e
    then refuse 404 (message "account not found")
    else refuse 500 e

module _ {W : Type 0} (env : Backend W) (jwt : Jwt W) (bcrypt : Bcrypt W)
    (cache : Option Client) where
  unfoldable pub handle_create_account : Result CreateAccountRequest → Exec W (Answer Message)
  handle_create_account body = with_body body (λ req.
      respond 500
        (register env jwt bcrypt cache (new_account req) >> pure (said "account created")))

  unfoldable pub handle_login : Result LoginRequest → Exec W (Answer TokenBody)
  handle_login body = with_body body (λ req.
      respond 500 (do token ← login env jwt bcrypt cache req; pure (record { token = token })))

  unfoldable pub handle_change_password : Result ChangePasswordRequest → Exec W (Answer Message)
  handle_change_password body = with_body body (λ req.
      respond 400
        (change_password env jwt bcrypt cache req >> pure (said "password changed successfully")))

  unfoldable pub handle_find_by_id : Result FindByIdRequest → Exec W (Answer AccountJson)
  handle_find_by_id body =
      with_body body (λ req. respond 500 (do a ← find_by_id env req.id; pure (account_json a)))

  unfoldable pub handle_find_by_username :
      Result FindByUsernameRequest → Exec W (Answer AccountJson)
  handle_find_by_username body =
      with_body body
        (λ req. respond 500 (do a ← find_by_username env req.username; pure (account_json a)))

  unfoldable pub handle_logout : GinContext → Exec W (Answer Message)
  handle_logout c = with_account 400 c (λ account_id.
      respond 500 (logout env jwt bcrypt cache account_id >> pure (said "account logged out")))

  unfoldable pub handle_rename : Result RenameRequest → GinContext → Exec W (Answer TokenBody)
  handle_rename body c = with_body body (λ req. with_account 400 c (λ account_id. do
    r ← attempt (rename env jwt bcrypt cache account_id req.new_username)
    pure (rename_answer r)))
