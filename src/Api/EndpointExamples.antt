-- ===== src/Api/EndpointExamples.antt =====
-- Runs of the endpoints of accounts, and of the connection to the database.
use fullstack_starter.Prelude.{
  ℕ, ◌≡◌, refl, Bool, true, Option, none, some, leb, ◌&&◌, if◌then◌else◌, List, [], ◌∷◌, filter,
  length, take, drop, eqb, arith,
}
use fullstack_starter.Async.{ok, Result}
use fullstack_starter.Dto.{admin, UserDto}
use fullstack_starter.Api.UserExamples.{users, user_laws, bcrypt, ana, one_user, one_admin}
use fullstack_starter.Api.UserCrud.{UserPayload}
use fullstack_starter.Api.UserCrud.LastAdmin.{HasAdminLeft}
use fullstack_starter.Api.UserReads.{Reader}
use fullstack_starter.Api.UserEndpoints.{IntSchema, Zod, delete_user, user_router}
use fullstack_starter.Api.UserEndpoints.Access.{
  Outcome, user_router-Outcome, user_router-HasAdminLeft,
}
use fullstack_starter.Api.DbConnection.{
  RetryConfig, Connection, min_delay, exponential_delay, calculate_retry_delay, test_connection,
}
use fullstack_starter.Api.DbConnection.Attempts.{Ended, test_connection-Ended}
use fullstack_starter.Api.DbConnection.Delays.{IsBetween, calculate_retry_delay-IsBetween}
use fullstack_starter.Gateway.InternalAuth.{user_request, VerifyOptions, Jose}

-- a table that is read in the order of its rows
abbrev reader : Reader (List UserDto) UserDto
reader = record {
  find_and_count_all = λ p limit offset s.
      ok (record { count = length (filter p s); rows = take limit (drop offset (filter p s)) });
  find_all = λ p s. ok (filter p s);
}

abbrev three_users : List UserDto
three_users =
    ana ∷ record ana { id = 8; deleted = true } ∷ record ana { id = 9; email = "eva@x.es" } ∷ []

-- a parser of numbers for queries that hold numbers already
abbrev within : Option ℕ → ℕ → Bool
within none n = true
within (some maximum) n = leb n maximum

abbrev parse_int : IntSchema → Option ℕ → Option ℕ
parse_int schema none = some schema.default
parse_int schema (some n) = if leb schema.minimum n && within schema.maximum n then some n else none

abbrev zod : Zod ℕ
zod = record { coerce_int = parse_int }

-- a key with which each text is the token of an administrator
abbrev admin_jose : Jose ℕ
admin_jose = record {
  sign = λ claims issuer audience ttl key w. (ok claims.sub, w);
  verify = λ token key issuer audience w. (
    ok (record { sub = token; scope = user_request; permissions = admin ∷ []; request_id = "r" }),
    w,
  );
}

abbrev options : VerifyOptions
options = record { public_key = "key"; issuer = none; audience = none }

abbrev accept_all : UserPayload → Result UserPayload
accept_all = ok

router_example :
    Outcome users reader bcrypt none accept_all accept_all admin_jose options 10
      (delete_user 7)
      (some "7")
      0
      one_user
router_example =
    user_router-Outcome users reader bcrypt none accept_all accept_all admin_jose options 10
      (delete_user 7) (some "7") 0 one_user

router_admin_example :
    HasAdminLeft users
      (user_router users reader bcrypt none accept_all accept_all admin_jose options 10
        (delete_user 7)
        (some "7")
        0
        one_user).1
router_admin_example =
    user_router-HasAdminLeft users reader bcrypt none accept_all accept_all admin_jose options 10
      (delete_user 7) (some "7") 0 one_user user_laws one_admin

abbrev retry : RetryConfig
retry = record {
  max_retries = 10;
  retry_delay = 5000;
  max_retry_delay = 30000;
  backoff_multiplier = record { num = 15; den = 10 };
  jitter = true;
}

abbrev third_call : ℕ → Bool
third_call = eqb 2

abbrev fresh : Connection
fresh = record { calls = 0; waits = []; timers = 0 }

connection_example :
    Ended third_call (λ n. 0) retry fresh (test_connection third_call (λ n. 0) retry fresh)
connection_example = test_connection-Ended third_call (λ n. 0) retry fresh

connects_third : (test_connection third_call (λ n. 0) retry fresh).1.calls ≡ 3
unfolding test_connection
connects_third = refl

delay_example :
    IsBetween
      (min_delay (exponential_delay retry 7) 30000)
      30000
      (calculate_retry_delay retry 7 4503599627370496)
delay_example = calculate_retry_delay-IsBetween retry 7 4503599627370496 (omega arith)
