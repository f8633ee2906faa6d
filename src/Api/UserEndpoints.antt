-- ===== src/Api/UserEndpoints.antt =====
-- apps/api/src/controllers/abstract-crud.controller.ts and user-crud.controller.ts, with the routes of
-- apps/api/src/routes/user-crud.routes.ts and apps/api/src/middleware/validate.middleware.ts. The
-- schemas of zod are parameters; the `:id` of a path is taken as the number that it stands for.
pub mod Answers
pub mod Admins
pub mod Access
use Prim.Native.String.{◌++◌}
use fullstack_starter.Prelude.{ℕ, String, Bool, false, Option, none, some, List, [], ◌∷◌, or_else}
use fullstack_starter.Async.{Async, Result, ok, error, JsError, pure, ◌>>=◌, ◌>>◌}
use fullstack_starter.Http.{
  Body, json, empty, error_message, Response, Handler, success_json, success_empty, error_json,
  error_500, catching,
}
use fullstack_starter.Dto.{admin, UserDto}
use fullstack_starter.Api.Model.{Model}
use fullstack_starter.Api.AuthService.{Bcrypt}
use fullstack_starter.Api.UserCrud.{UserPayload, put, post, delete}
use fullstack_starter.Api.UserReads.{
  Counted, Reader, UserColumns, Where, not_deleted, get_all_paged, get_all, get_by_id,
}
use fullstack_starter.Gateway.InternalAuth.{
  user_request, VerifyOptions, Jose, Guarded, denied, passed, require_internal_auth,
}

-- a field `z.coerce.number().int().min(…).max(…).default(…)` of a schema
pub record IntSchema : Type 0 where
  pub minimum : ℕ
  pub maximum : Option ℕ
  pub default : ℕ

-- what zod makes of a field of a query, which may be missing, and may be a text or a list of texts
pub record Zod (Q : Type 0) : Type 0 where
  pub coerce_int : IntSchema → Option Q → Option ℕ

-- the fields of a query that its schema reads
pub record PageQuery (Q : Type 0) : Type 0 where
  pub page : Option Q
  pub limit : Option Q

abbrev pub page_schema : IntSchema
page_schema = record { minimum = 1; maximum = none; default = 1 }

abbrev pub limit_schema : IntSchema
limit_schema = record { minimum = 1; maximum = some 100; default = 10 }

pub record Pagination : Type 0 where
  pub page : ℕ
  pub limit : ℕ

abbrev both_parsed : Option ℕ → Option ℕ → Option Pagination
both_parsed (some page) (some limit) = some (record { page = page; limit = limit })
both_parsed _ _ = none

-- `paginationQuerySchema.safeParse`: an object is parsed if each of its fields is
unfoldable pub parse_pagination : {Q : Type 0} → Zod Q → PageQuery Q → Option Pagination
parse_pagination zod query =
    both_parsed (zod.coerce_int page_schema query.page) (zod.coerce_int limit_schema query.limit)

-- What the endpoints send as JSON. A created row is sent as the table has it.
pub data CrudData : Type 0 where
  page_of : Counted UserColumns → CrudData
  all_of : List UserColumns → CrudData
  row_of : Option UserColumns → CrudData
  created : UserDto → CrudData

-- the row with the id, if it is not soft-deleted
abbrev pub live_id : ℕ → Where
live_id id = record { id = some id; deleted = some false }

-- `parsed.success ? parsed.data : { page: 1, limit: 10 }`
abbrev pub pagination_or : Option Pagination → Pagination
pagination_or parsed = or_else parsed (record { page = 1; limit = 10 })

abbrev pub not_found_404 : Response CrudData
not_found_404 = error_json "Not found" 404

module _ {S : Type 0} (users : Model S UserDto) (reader : Reader S UserDto) where
  unfoldable pub get_all_paged_handler : Option Pagination → Handler S CrudData
  unfolding get_all_paged
  get_all_paged_handler parsed =
      catching
        (do
          data_page ←
              get_all_paged reader (pagination_or parsed).page (pagination_or parsed).limit
                not_deleted none
          pure (success_json (page_of data_page) 200))
        error_500

  -- the whole handler, from the query of the request
  abbrev pub get_all_paged_of : {Q : Type 0} → Zod Q → PageQuery Q → Handler S CrudData
  get_all_paged_of zod query = get_all_paged_handler (parse_pagination zod query)

  unfoldable pub get_all_handler : Handler S CrudData
  unfolding get_all
  get_all_handler =
      catching (do rows ← get_all reader not_deleted none; pure (success_json (all_of rows) 200))
        error_500

  unfoldable pub get_by_id_handler : ℕ → Handler S CrudData
  unfolding get_by_id
  get_by_id_handler id =
      catching (do row ← get_by_id users (live_id id) none; pure (success_json (row_of row) 200))
        error_500

module _ {S : Type 0} (users : Model S UserDto) (bcrypt : Bcrypt) (rounds : Option ℕ) where
  unfoldable pub post_handler : UserPayload → Handler S CrudData
  unfolding post
  post_handler body =
      catching (do row ← post users bcrypt rounds body; pure (success_json (created row) 201))
        error_500

  unfoldable pub put_existing : ℕ → UserPayload → Option UserColumns → Async S (Response CrudData)
  unfolding put get_by_id
  put_existing id body none = pure not_found_404
  put_existing id body (some existing) = do
    put users bcrypt rounds id body
    updated ← get_by_id users (live_id id) none
    pure (success_json (row_of updated) 200)

  unfoldable pub put_handler : ℕ → UserPayload → Handler S CrudData
  unfolding put_existing get_by_id
  put_handler id body =
      catching (do existing ← get_by_id users (live_id id) none; put_existing id body existing)
        error_500

  unfoldable pub delete_handler : ℕ → ℕ → Handler S CrudData
  unfolding delete
  delete_handler now id = catching (do delete users now id; pure (success_empty 200)) error_500

abbrev pub handle_parsed : {S A : Type 0} → (A → Handler S CrudData) → Result A → Handler S CrudData
handle_parsed handler (ok parsed) s = handler parsed s
handle_parsed handler (error e) s = (error_json ("Validation failed — " ++ e.message) 400, s)

-- `validate(schema)`: the handler gets what the schema has made of the body
unfoldable pub validate_body :
    {S A : Type 0} → (A → Result A) → (A → Handler S CrudData) → A → Handler S CrudData
validate_body safe_parse handler body = handle_parsed handler (safe_parse body)

-- a request under `/v1/user`, by method and path
pub data UserRequest : Type 0 where
  list_users : UserRequest
  list_paged : Option Pagination → UserRequest
  read_user : ℕ → UserRequest
  post_user : UserPayload → UserRequest
  put_user : ℕ → UserPayload → UserRequest
  delete_user : ℕ → UserRequest

-- the guard's refusal, or what the handler has answered
pub data RouteAnswer : Type 0 where
  refused : ℕ → String → RouteAnswer
  answered : Response CrudData → RouteAnswer
  failed : JsError → RouteAnswer

-- `requireInternalAuth({ allowedScopes: [USER_REQUEST], requiredPermissions: [ADMIN] })`
unfoldable pub require_admin :
    {W : Type 0} → Jose W → VerifyOptions → Option String → Async W Guarded
unfolding require_internal_auth
require_admin jose options header =
    require_internal_auth jose options (some (user_request ∷ [])) (some (admin ∷ [])) header

module _ {S : Type 0} (users : Model S UserDto) (reader : Reader S UserDto) (bcrypt : Bcrypt)
    (rounds : Option ℕ) (create_schema update_schema : UserPayload → Result UserPayload) where
  unfoldable pub route_handler : ℕ → UserRequest → Handler S CrudData
  unfolding get_all_handler get_all_paged_handler get_by_id_handler post_handler put_handler
      delete_handler validate_body
  route_handler now list_users = get_all_handler users reader
  route_handler now (list_paged parsed) = get_all_paged_handler users reader parsed
  route_handler now (read_user id) = get_by_id_handler users reader id
  route_handler now (post_user body) =
      validate_body create_schema (post_handler users bcrypt rounds) body
  route_handler now (put_user id body) =
      validate_body update_schema (put_handler users bcrypt rounds id) body
  route_handler now (delete_user id) = delete_handler users bcrypt rounds now id

  abbrev pub run_route : ℕ → UserRequest → Result Guarded → S → RouteAnswer × S
  run_route now req (ok (passed claims)) s =
      (answered (route_handler now req s).0, (route_handler now req s).1)
  run_route now req (ok (denied status code)) s = (refused status code, s)
  run_route now req (error e) s = (failed e, s)

  -- Every route has the guard. Its world is the key and the clock, the handlers' is the database.
  unfoldable pub user_router :
      {W : Type 0}
      → Jose W
      → VerifyOptions
      → ℕ
      → UserRequest
      → Option String
      → W
      → S
      → RouteAnswer × S
  unfolding route_handler require_admin
  user_router jose options now req header w s =
      run_route now req (require_admin jose options header w).0 s
