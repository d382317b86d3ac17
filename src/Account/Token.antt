-- ===== src/Account/Token.antt =====
-- auth/jwt.go. Signing and parsing are golang-jwt's, and the environment is the system's: they are
-- the fields of `Jwt`. Times are in milliseconds.
use feed_system_golang.Base.{
  ℕ, ℤ, pos, ◌+ℤ◌, ◌≤ℤ◌, ◌<ℤ◌, ◌≡◌, refl, String, str_eq, Bool, true, Option, none, some, message,
  Result, ok, err, Exec, pure, raise, give, gets, ◌>>=◌, if◌then◌else◌, arith,
}
use feed_system_golang.Backend.{Backend}

pub record Claims : Type 0 where
  pub account_id : ℕ
  pub username : String
  pub expires_at : ℤ
  pub issued_at : ℤ
  pub not_before : ℤ

-- What a token's header says of its method: its algorithm, if the method is known.
abbrev pub Method : Type 0
Method = Option String

pub record Jwt (W : Type 0) : Type 0 where
  -- `os.Getenv("JWT_SECRET")`
  pub secret_variable : String
  -- `jwt.NewNumericDate`, which cuts a time to the library's precision.
  pub numeric_date : ℤ → ℤ
  -- `NewWithClaims(SigningMethodHS256, claims).SignedString(secret)`
  pub sign : String → Claims → Result String
  -- `ParseWithClaims` with the function that finds the key: the claims, and `token.Valid`.
  pub parse : (Method → Result String) → String → Exec W (Claims × Bool)

abbrev pub one_day : ℕ
one_day = 86400000

module _ {W : Type 0} (env : Backend W) (jwt : Jwt W) where
  unfoldable pub jwt_secret : String
  jwt_secret = if str_eq jwt.secret_variable "" then "feedsystem_secret" else jwt.secret_variable

  unfoldable pub claims_at : ℕ → String → ℤ → Claims
  claims_at account_id username now = record {
    account_id = account_id;
    username = username;
    expires_at = jwt.numeric_date (now +ℤ pos one_day);
    issued_at = jwt.numeric_date now;
    not_before = jwt.numeric_date now;
  }

  unfoldable pub generate_token : ℕ → String → Exec W String
  generate_token account_id username = do
    now ← gets env.clock
    give (jwt.sign jwt_secret (claims_at account_id username now))

  -- Only HS256 is given the key.
  unfoldable pub key_of_method : Method → Result String
  key_of_method none = err (message "unexpected signing method")
  key_of_method (some alg) =
      if str_eq alg "HS256" then ok jwt_secret else err (message "unexpected signing method")

  unfoldable pub parse_token : String → Exec W Claims
  parse_token token = do
    parsed ← jwt.parse key_of_method token
    if parsed.1 then pure parsed.0 else raise (message "token has invalid claims")

  -- What golang-jwt documents: a signed token is parsed back while it is valid, if the function
  -- gives the key that signed it; and cutting a time does not make it later.
  pub record JwtLaws : Type 0 where
    pub parse-sign :
        (secret : String) (c : Claims) (token : String) (key : Method → Result String) (w : W)
        → jwt.sign secret c ≡ ok token
        → key (some "HS256") ≡ ok secret
        → c.not_before ≤ℤ env.clock w
        → env.clock w <ℤ c.expires_at
        → (jwt.parse key token w).0 ≡ ok (c, true)
    pub numeric_date-earlier : (t : ℤ) → jwt.numeric_date t ≤ℤ t

  -- A token that `GenerateToken` made is parsed back to the account's claims, at any later world
  -- that is earlier than the expiry, a day after the token was made.
  pub parse_token-generate_token :
      JwtLaws
      → (account_id : ℕ) (username token : String) (w later : W)
      → (generate_token account_id username w).0 ≡ ok token
      → env.clock w ≤ℤ env.clock later
      → env.clock later <ℤ jwt.numeric_date (env.clock w +ℤ pos one_day)
      → (parse_token token later).0 ≡ ok (claims_at account_id username (env.clock w))
  unfolding generate_token parse_token claims_at key_of_method ◌>>=◌
  parse_token-generate_token laws account_id username token w later h after before =
      let c = claims_at account_id username (env.clock w) in
      let parsed =
        laws.parse-sign jwt_secret c token key_of_method later h refl
          (omega (arith, laws.numeric_date-earlier (env.clock w))) before in
      ground (arith, parsed)
