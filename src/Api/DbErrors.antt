-- ===== src/Api/DbErrors.antt =====
-- apps/api/src/middleware/db-error.middleware.ts: the answers to errors of the database. Time stamps
-- and log lines are left out.
use fullstack_starter.Prelude.{
  ℕ, String, ◌≡◌, ◌≤◌, ◌↔◌, ◌⊎◌, refl, inl, inr, Bool, true, false, Bool-cases, ◌&&◌, ◌||◌, Option,
  none, some, List, [], ◌∷◌, starts_with, is_some, arith, if◌then◌else◌, ◌==◌, is_truthy,
}

-- an entry of `error.errors`
pub record ErrorItem : Type 0 where
  pub path : String
  pub message : String
  pub value : String

pub record DbError : Type 0 where
  pub name : Option String
  pub message : String
  pub errors : Option (List ErrorItem)

-- the body of an answer and its status; a field that is missing is `none`
pub record DbReply : Type 0 where
  pub status : ℕ
  pub error : String
  pub message : String
  pub code : String
  pub details : Option (List ErrorItem)
  pub field : Option String
  pub retry_after : Option ℕ

abbrev pub is_sequelize : Option String → Bool
is_sequelize none = false
is_sequelize (some name) = is_truthy name && starts_with name "Sequelize"

abbrev pub is_connection_error : String → Bool
is_connection_error name =
    name == "SequelizeConnectionError"
    || name == "SequelizeConnectionRefusedError"
    || name == "SequelizeHostNotFoundError"
    || name == "SequelizeHostNotReachableError"
    || name == "SequelizeConnectionTimedOutError"

abbrev pub first_path : List ErrorItem → Option String
first_path [] = none
first_path (item ∷ items) = some item.path

abbrev pub path_of : Option (List ErrorItem) → Option String
path_of none = none
path_of (some items) = first_path items

abbrev pub plain_reply : ℕ → String → String → String → DbReply
plain_reply status error message code = record {
  status = status;
  error = error;
  message = message;
  code = code;
  details = none;
  field = none;
  retry_after = none;
}

-- `dbErrorMiddleware`: an answer, or `next()` where the database is connected
unfoldable pub db_error_middleware : Bool → Option DbReply
db_error_middleware connected =
    if connected
    then none
    else some
        (record (plain_reply 503 "Service Unavailable"
          "Database is currently unavailable. Please try again later." "DB_UNAVAILABLE") {
            retry_after = some 30;
          })

unfoldable pub reply_for : String → Option (List ErrorItem) → DbReply
reply_for name errors =
    if is_connection_error name
    then record (plain_reply 503 "Service Unavailable"
        "Database connection error. Please try again later." "DB_CONNECTION_ERROR") {
          retry_after = some 30;
        }
    else (if name == "SequelizeTimeoutError"
        then record (plain_reply 504 "Gateway Timeout"
            "Database operation timed out. Please try again." "DB_TIMEOUT") {
              retry_after = some 10;
            }
        else (if name == "SequelizeValidationError"
            then record (plain_reply 400 "Validation Error" "Invalid data provided"
                "DB_VALIDATION_ERROR") { details = errors }
            else (if name == "SequelizeUniqueConstraintError"
                then record (plain_reply 409 "Conflict" "Resource already exists"
                    "DB_UNIQUE_CONSTRAINT") { field = path_of errors }
                else (if name == "SequelizeForeignKeyConstraintError"
                    then plain_reply 400 "Bad Request" "Referenced resource does not exist"
                        "DB_FOREIGN_KEY_ERROR"
                    else plain_reply 500 "Internal Server Error" "Database error occurred"
                        "DB_ERROR"))))

unfoldable pub answer_named : Option String → Option (List ErrorItem) → Option DbReply
unfolding reply_for starts_with
answer_named none errors = none
answer_named (some name) errors =
    if is_sequelize (some name) then some (reply_for name errors) else none

-- `sequelizeErrorMiddleware`: an answer, or `next(error)`
unfoldable pub sequelize_error_middleware : DbError → Option DbReply
unfolding answer_named
sequelize_error_middleware error = answer_named error.name error.errors

-- An answer says when to retry exactly where its status says that the database cannot be reached.
abbrev pub IsDbAnswer : DbReply → Type 0
IsDbAnswer r =
    (400 ≤ r.status) × (r.status ≤ 504) × ((is_some r.retry_after ≡ true) ↔ (503 ≤ r.status))

reply_for-IsDbAnswer :
    (name : String) (errors : Option (List ErrorItem)) → IsDbAnswer (reply_for name errors)
unfolding reply_for
reply_for-IsDbAnswer name errors =
    (ground arith, ground arith, (λ h. ground arith, λ h. ground arith))

named_answers :
    (name : Option String) (errors : Option (List ErrorItem))
    → ((is_sequelize name ≡ false) × (answer_named name errors ≡ none))
      ⊎ ((is_sequelize name ≡ true)
          × ((r : DbReply) × (answer_named name errors ≡ some r) × IsDbAnswer r))
unfolding answer_named
named_answers none errors = inl (refl, refl)
named_answers (some name) errors = elim (Bool-cases (is_sequelize (some name))) [
  | inl ours ↦ inr (ours, (reply_for name errors, rw ours refl, reply_for-IsDbAnswer name errors))
  | inr other ↦ inl (other, rw other refl)
]

-- An error whose name does not start with `Sequelize` is passed on; every other one is answered, with
-- a status from 400 to 504, and with a time to retry exactly where the status is 503 or 504.
pub sequelize_error_middleware-answers :
    (e : DbError)
    → ((is_sequelize e.name ≡ false) × (sequelize_error_middleware e ≡ none))
      ⊎ ((is_sequelize e.name ≡ true)
          × ((r : DbReply) × (sequelize_error_middleware e ≡ some r) × IsDbAnswer r))
unfolding sequelize_error_middleware
sequelize_error_middleware-answers e = named_answers e.name e.errors
