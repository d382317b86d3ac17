-- ===== src/Http/Context.antt =====
-- gin's context as far as the handlers and the middlewares read it, and the answers that they give.
-- A body is what `ShouldBindJSON` made of it, which checks the tags `binding:"required"` too.
use feed_system_golang.Base.{ℕ, String, Option, Error, Result, ok, err, Exec, pure, attempt, ◌>>=◌}
use feed_system_golang.Account.Auth.{ContextValue, get_account_id}

pub record GinContext : Type 0 where
  -- The header `Authorization`, and `c.ClientIP()`.
  pub authorization : String
  pub client_ip : String
  -- What `c.Set` stored at "accountID" and "username".
  pub account_id : Option ContextValue
  pub username : Option ContextValue

-- Status 200 with a body, or another status with an error's text.
pub data Answer (A : Type 0) : Type 0 where
  ok_json : A → Answer A
  refuse : ℕ → Error → Answer A

-- `gin.H{"message": ...}` and `gin.H{"token": ...}`.
pub record Message : Type 0 where
  pub message : String

pub record TokenBody : Type 0 where
  pub token : String

abbrev pub said : String → Message
said text = record { message = text }

abbrev pub answered : {A : Type 0} → ℕ → Result A → Answer A
answered status (ok a) = ok_json a
answered status (err e) = refuse status e

module _ {W : Type 0} where
  -- The service's result, or its error with the status.
  unfoldable pub respond : {A : Type 0} → ℕ → Exec W A → Exec W (Answer A)
  respond status m = do r ← attempt m; pure (answered status r)

  -- A handler goes on from what it has read of the request, or answers the error with the status.
  unfoldable pub given : {A B : Type 0} → ℕ → Result A → (A → Exec W (Answer B)) → Exec W (Answer B)
  given status (ok a) next = next a
  given status (err e) next = pure (refuse status e)

  -- `ShouldBindJSON`.
  abbrev pub with_body : {A B : Type 0} → Result A → (A → Exec W (Answer B)) → Exec W (Answer B)
  with_body body next = given 400 body next

  -- `GetAccountID`, with the handler's own status for its error.
  abbrev pub with_account :
      {B : Type 0} → ℕ → GinContext → (ℕ → Exec W (Answer B)) → Exec W (Answer B)
  with_account status c next = given status (get_account_id c.account_id) next
