-- ===== src/Http/Middleware.antt =====
-- What stands before a handler: the token middlewares of middleware/jwt/jwt.go and the limiters of
-- middleware/ratelimit. An aborted request reaches nothing that comes later.
use feed_system_golang.Base.{
  ℕ, String, Option, none, some, message, Result, ok, err, Exec, pure, ◌>>=◌,
}
use feed_system_golang.Account.Auth.{
  Identity, Access, rejected, let_through, uint, string, get_account_id,
}
use feed_system_golang.RateLimit.Limiter.{Verdict, next, refused, Context}
use feed_system_golang.Http.Context.{GinContext, Answer, ok_json, refuse}
use feed_system_golang.Http.Call.{Body}

-- `c.Set("accountID", ...)` and `c.Set("username", ...)`.
abbrev pub stored : Option Identity → GinContext → GinContext
stored none c = c
stored (some who) c = record c {
  account_id = some (uint who.account_id);
  username = some (string who.username);
}

-- The limiters see an account that the context holds with the right type.
abbrev pub known : Result ℕ → Option ℕ
known (ok id) = some id
known (err e) = none

abbrev pub limited_context : GinContext → Context
limited_context c = record {
  client_ip = c.client_ip;
  account_id = known (get_account_id c.account_id);
}

abbrev pub body_as : {A : Type 0} → (A → Body) → Answer A → Answer Body
body_as f (ok_json a) = ok_json (f a)
body_as f (refuse status e) = refuse status e

module _ {W : Type 0} where
  unfoldable pub answer_as : {A : Type 0} → (A → Body) → Exec W (Answer A) → Exec W (Answer Body)
  answer_as f m = do a ← m; pure (body_as f a)

  -- Behind a token middleware.
  unfoldable pub enter :
      {A : Type 0} → GinContext → (GinContext → Exec W (Answer A)) → Access → Exec W (Answer A)
  enter c handler (rejected reason) = pure (refuse 401 (message reason))
  enter c handler (let_through who) = handler (stored who c)

  unfoldable pub behind :
      {A : Type 0}
      → (String → Exec W Access)
      → (GinContext → Exec W (Answer A))
      → GinContext
      → Exec W (Answer A)
  unfolding enter
  behind auth handler c = do access ← auth c.authorization; enter c handler access

  -- Behind a limiter.
  unfoldable pub admit : {A : Type 0} → Exec W (Answer A) → Verdict → Exec W (Answer A)
  admit handler refused = pure (refuse 429 (message "too many requests"))
  admit handler next = handler

  unfoldable pub within :
      {A : Type 0}
      → (Context → Exec W Verdict)
      → (GinContext → Exec W (Answer A))
      → GinContext
      → Exec W (Answer A)
  unfolding admit
  within limiter handler c = do v ← limiter (limited_context c); admit (handler c) v
