-- ===== src/Account/Repo.antt =====
-- account/repo.go
use feed_system_golang.Base.{
  ℕ, Bool, String, ◌==◌, str_eq, record_not_found, Exec, pure, raise, ◌>>=◌, ◌>>◌, if◌then◌else◌,
}
use feed_system_golang.Backend.{Backend}
use feed_system_golang.Backend.Entity.{Account}
use feed_system_golang.Backend.Sql.{insert_account, update_accounts}

abbrev pub set_token : String → Account → Account
set_token token a = record a { token = token }

abbrev pub set_username : String → Account → Account
set_username username a = record a { username = username }

abbrev pub set_password : String → Account → Account
set_password password a = record a { password = password }

abbrev pub has_id : ℕ → Account → Bool
has_id id a = a.id == id

module _ {W : Type 0} (env : Backend W) where
  unfoldable pub create_account : Account → Exec W (Unit {0})
  create_account account = do env.exec (insert_account account); pure tt

  unfoldable pub find_by_username : String → Exec W Account
  find_by_username username = env.first_account (λ a. str_eq a.username username)

  unfoldable pub find_by_id : ℕ → Exec W Account
  find_by_id id = env.first_account (λ a. a.id == id)

  unfoldable pub store_token : Account → Exec W (Unit {0})
  store_token account = do
    env.exec (update_accounts (has_id account.id) (set_token account.token))
    pure tt

  unfoldable pub clear_token : ℕ → Exec W (Unit {0})
  clear_token id = do env.exec (update_accounts (has_id id) (set_token "")); pure tt

  unfoldable pub store_password : ℕ → String → Exec W (Unit {0})
  store_password id password = do
    env.exec (update_accounts (has_id id) (set_password password))
    pure tt

  -- The body of the transaction. MySQL counts the rows that the update changed.
  unfoldable pub rename_body : ℕ → String → String → Exec W (Unit {0})
  rename_body account_id username token = do
    renamed ← env.exec (update_accounts (has_id account_id) (set_username username))
    if renamed.rows_affected == 0
        then raise record_not_found
        else (do env.exec (update_accounts (has_id account_id) (set_token token)); pure tt)

  unfoldable pub rename_with_token : ℕ → String → String → Exec W (Unit {0})
  rename_with_token account_id username token =
      env.transaction (rename_body account_id username token)
