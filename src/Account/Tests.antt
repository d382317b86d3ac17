-- ===== src/Account/Tests.antt =====
-- An account that logs in, is let through, renames itself and logs out.
use feed_system_golang.Base.{
  ◌==◌, ◌&&◌, ℤ, pos, negsuc, ◌=ℤ◌, ◌+ℤ◌, ◌≡◌, ◌≢◌, ◌⊎◌, inl, inr, refl, sym, ◌∙◌, String, str_eq,
  eq_iff, Bool, true, false, Option, none, some, [], ◌∷◌, Error, message, Result, ok, err, Exec,
  pure, ◌>>=◌, if◌then◌else◌, arith,
}
use feed_system_golang.Backend.Entity.{Account}
use feed_system_golang.Backend.Redis.{account, Value}
use feed_system_golang.Backend.Memory.{Memory, memory, memory_of, no_tables}
use feed_system_golang.Backend.Memory.Laws.{memory-MysqlLaws, memory-QuietLaws}
use feed_system_golang.Cache.{Client, run}
use feed_system_golang.Cache.Commands.{when_cached, get_bytes}
use feed_system_golang.Account.Token.{
  Jwt, Claims, Method, JwtLaws, generate_token, parse_token, claims_at, jwt_secret,
  parse_token-generate_token,
}
use feed_system_golang.Account.Repo.{find_by_id, find_by_username, store_token, clear_token}
use feed_system_golang.Account.Service.{Bcrypt, LoginRequest, login, logout, rename}
use feed_system_golang.Account.Auth.{Identity, let_through, check, check_stored, is_token}
use feed_system_golang.Account.Session.{check_sound, Cached, Stored}
use feed_system_golang.Account.Entering.{login-check}
use feed_system_golang.Account.Revoking.{OneRow, logout-check}
use feed_system_golang.Account.Renaming.{RenameOutcome, rename-outcome}

-- A signer that signs the claims of ann at the world's only time.
abbrev annas : Claims
annas = record {
  account_id = 7;
  username = "ann";
  expires_at = pos 1700086400000;
  issued_at = pos 1700000000000;
  not_before = pos 1700000000000;
}

abbrev is_annas : Claims → Bool
is_annas c =
    c.account_id == 7
    && (str_eq c.username "ann"
        && (c.expires_at =ℤ annas.expires_at
            && (c.issued_at =ℤ annas.issued_at && c.not_before =ℤ annas.not_before)))

abbrev signer : String → Claims → Result String
signer secret c = if is_annas c then ok "t7" else err (message "unsigned")

abbrev parser : (Method → Result String) → String → Exec Memory (Claims × Bool)
parser key token m = (elim (key (some "HS256")) [ err e ↦ err e | ok secret ↦ ok (annas, true) ], m)

abbrev jwt : Jwt Memory
jwt = record { secret_variable = ""; numeric_date = λ t. t; sign = signer; parse = parser }

=ℤ_same : (a b : ℤ) → (a =ℤ b) ≡ true → a ≡ b
=ℤ_same (pos m) (pos n) h = ground arith
=ℤ_same (pos m) (negsuc n) h = ground arith
=ℤ_same (negsuc m) (pos n) h = ground arith
=ℤ_same (negsuc m) (negsuc n) h = ground arith

is_annas_same : (c : Claims) → is_annas c ≡ true → c ≡ annas
is_annas_same c h = ground (
  arith,
  eq_iff c.username "ann",
  =ℤ_same c.expires_at annas.expires_at,
  =ℤ_same c.issued_at annas.issued_at,
  =ℤ_same c.not_before annas.not_before,
)

jwt-JwtLaws : JwtLaws memory jwt
jwt-JwtLaws = record {
  parse-sign = λ secret c token key w signed found after before.
      ground (arith, found, signed, is_annas_same c);
  numeric_date-earlier = λ t. omega arith;
}

ann_signed : (generate_token memory jwt 7 "ann" (memory_of no_tables)).0 ≡ ok "t7"
unfolding generate_token claims_at jwt_secret ◌>>=◌ ◌+ℤ◌
ann_signed = refl

parse_token-generate_token_example :
    (parse_token memory jwt "t7" (memory_of no_tables)).0
    ≡ ok (claims_at memory jwt 7 "ann" (pos 1700000000000))
unfolding ◌+ℤ◌
parse_token-generate_token_example =
    parse_token-generate_token memory jwt jwt-JwtLaws 7 "ann" "t7" (memory_of no_tables)
      (memory_of no_tables) ann_signed (omega arith) (omega arith)

abbrev ann : Account
ann = record { id = 7; username = "ann"; password = "p7"; token = "t7"; follower_count = pos 0 }

abbrev with_ann : Memory
with_ann = memory_of (record no_tables { accounts = ann ∷ [] })

abbrev as_ann : Identity
as_ann = record { account_id = 7; username = "ann" }

abbrev no_cache : Option Client
no_cache = none

-- A hash is the password itself.
abbrev bcrypt : Bcrypt Memory
bcrypt = record {
  generate = λ password m. (ok password, m);
  compare_hash = λ hash password. if str_eq hash password then ok tt else err (message "mismatch");
}

ann_passes : (check memory no_cache annas "t7" with_ann).0 ≡ ok (let_through (some as_ann))
unfolding check find_by_id when_cached ◌>>=◌
ann_passes = refl

check_sound_example :
    Cached memory-MysqlLaws memory-QuietLaws no_cache annas "t7" with_ann as_ann
    ⊎ (Stored annas "t7" (memory.tables with_ann) as_ann
        × ((no_cache ≡ none)
            ⊎ ((e : Error) × ((get_bytes memory no_cache (account 7) with_ann).0 ≡ err e))))
check_sound_example =
    check_sound memory-MysqlLaws memory-QuietLaws no_cache annas "t7" with_ann as_ann ann_passes

abbrev ann_logs_in : LoginRequest
ann_logs_in = record { username = "ann"; password = "p7" }

abbrev after_login : Memory
after_login = (login memory jwt bcrypt no_cache ann_logs_in with_ann).1

ann_entered : (login memory jwt bcrypt no_cache ann_logs_in with_ann).0 ≡ ok "t7"
unfolding login find_by_username generate_token claims_at jwt_secret store_token when_cached ◌>>=◌
    ◌+ℤ◌
ann_entered = refl

ann_found : (find_by_username memory "ann" with_ann).0 ≡ ok ann
unfolding find_by_username
ann_found = refl

ann_there : (find_by_id memory 7 after_login).0 ≡ ok ann
unfolding find_by_id login find_by_username generate_token claims_at jwt_secret store_token
    when_cached ◌>>=◌ ◌+ℤ◌
ann_there = refl

login-check_example :
    (bcrypt.compare_hash "p7" "p7" ≡ ok tt)
    × ((check_stored memory no_cache annas "t7" after_login).0
        ≡ ok (let_through (some (record { account_id = 7; username = "ann" }))))
login-check_example =
    login-check memory-MysqlLaws memory-QuietLaws no_cache jwt bcrypt ann_logs_in ann "t7" with_ann
      ann_found ann_entered refl after_login refl annas ann refl ann_there

ann_leaves : (logout memory jwt bcrypt no_cache 7 with_ann).0 ≡ ok tt
unfolding logout find_by_id clear_token when_cached ◌>>=◌
ann_leaves = refl

one_ann : OneRow 7 (memory.tables with_ann)
one_ann a b (inl e) (inl e') same same' = e ∙ sym e'
one_ann a b (inl e) (inr none_other) same same' = absurd none_other
one_ann a b (inr none_other) i same same' = absurd none_other

no_answer :
    (o : Option Value)
    → (get_bytes memory no_cache (account 7) (logout memory jwt bcrypt no_cache 7 with_ann).1).0
      ≡ ok o
    → is_token o "t7" ≡ false
unfolding get_bytes run pure ◌>>=◌
no_answer none h = refl
no_answer (some v) h = ground arith

logout-check_example :
    (check memory no_cache annas "t7" (logout memory jwt bcrypt no_cache 7 with_ann).1).0
    ≢ ok (let_through (some as_ann))
logout-check_example =
    logout-check memory-MysqlLaws memory-QuietLaws no_cache jwt bcrypt 7 with_ann one_ann ann_leaves
      (logout memory jwt bcrypt no_cache 7 with_ann).1 refl annas "t7" refl no_answer as_ann

rename-outcome_example :
    RenameOutcome memory-MysqlLaws memory-QuietLaws 7 "ann"
      (memory.tables with_ann)
      (rename memory jwt bcrypt no_cache 7 "ann" with_ann)
rename-outcome_example =
    rename-outcome memory-MysqlLaws memory-QuietLaws jwt bcrypt no_cache 7 "ann" with_ann
