-- ===== src/Api/UserEndpoints/Admins.antt =====
-- The endpoints of accounts keep a live administrator, whatever they answer.
use fullstack_starter.Prelude.{ℕ, ◌≡◌, sym, subst, inl, inr, Option, none, some}
use fullstack_starter.Async.{Result, pure, ◌>>=◌, Result-cases, and_then-invariant}
use fullstack_starter.Http.{
  Response, Handler, answer_with, success_empty, answer_with-state, error_500, success_json,
}
use fullstack_starter.Dto.{UserDto}
use fullstack_starter.Api.Model.{Model, ModelLaws}
use fullstack_starter.Api.AuthService.{Bcrypt, user_id}
use fullstack_starter.Api.UserCrud.{UserPayload, put, post, delete}
use fullstack_starter.Api.UserCrud.LastAdmin.{
  HasAdminLeft, put-HasAdminLeft, post-HasAdminLeft, delete-HasAdminLeft,
}
use fullstack_starter.Api.UserReads.{
  Reader, UserColumns, Where, not_deleted, meets, get_all_paged, get_all, get_by_id,
}
use fullstack_starter.Api.UserReads.Pages.{get_all_paged-keeps}
use fullstack_starter.Api.UserEndpoints.{
  Pagination, pagination_or, CrudData, page_of, row_of, all_of, created, live_id, UserRequest,
  list_users, list_paged, read_user, post_user, put_user, delete_user, get_all_paged_handler,
  get_all_handler, get_by_id_handler, post_handler, put_existing, put_handler, delete_handler,
  validate_body, route_handler,
}

module _ {S : Type 0} (users : Model S UserDto) where
  get_by_id-state : (query : Where) (s : S) → (get_by_id users query none s).1 ≡ s
  unfolding get_by_id
  get_by_id-state query s = elim (Result-cases (users.find_one (meets query) s)) [
    | inl (x, answered) ↦ rw answered
    | inr (e, failed) ↦ rw failed
  ]

module _ {S : Type 0} (reader : Reader S UserDto) where
  get_all-state : (query : Where) (s : S) → (get_all reader query none s).1 ≡ s
  unfolding get_all
  get_all-state query s = elim (Result-cases (reader.find_all (meets query) s)) [
    | inl (x, answered) ↦ rw answered
    | inr (e, failed) ↦ rw failed
  ]

-- a handler keeps what its body keeps
kept_by_body :
    {S : Type 0} (P : S → Type 0) (x : Result (Response CrudData) × S)
    → P x.1
    → P (answer_with x error_500).1
kept_by_body P x h = subst P (sym (answer_with-state x error_500)) h

module _ {S : Type 0} {users : Model S UserDto} (laws : ModelLaws user_id users) (bcrypt : Bcrypt)
    (rounds : Option ℕ) where
  abbrev Safe : S → Type 0
  Safe = HasAdminLeft users

  put_existing-HasAdminLeft :
      (id : ℕ) (body : UserPayload) (x : Option UserColumns) (s : S)
      → Safe s
      → Safe (put_existing users bcrypt rounds id body x s).1
  unfolding put_existing
  put_existing-HasAdminLeft id body none s h = h
  put_existing-HasAdminLeft id body (some existing) s h =
      and_then-invariant Safe (put users bcrypt rounds id body s)
        (λ _.
          get_by_id users (live_id id) none
          >>= (λ updated. pure (success_json (row_of updated) 200)))
        (put-HasAdminLeft laws bcrypt rounds id body s h)
        (λ _ t k.
          and_then-invariant Safe (get_by_id users (live_id id) none t)
            (λ updated. pure (success_json (row_of updated) 200))
            (subst Safe (sym (get_by_id-state users (live_id id) t)) k) (λ a r kept. kept))

  put_handler-HasAdminLeft :
      (id : ℕ) (body : UserPayload) (s : S)
      → Safe s
      → Safe (put_handler users bcrypt rounds id body s).1
  unfolding put_handler
  put_handler-HasAdminLeft id body s h = kept_by_body Safe _ (
      and_then-invariant Safe (get_by_id users (live_id id) none s)
        (put_existing users bcrypt rounds id body)
        (subst Safe (sym (get_by_id-state users (live_id id) s)) h)
        (λ x t k. put_existing-HasAdminLeft id body x t k))

  post_handler-HasAdminLeft :
      (body : UserPayload) (s : S) → Safe s → Safe (post_handler users bcrypt rounds body s).1
  unfolding post_handler
  post_handler-HasAdminLeft body s h = kept_by_body Safe _ (
      and_then-invariant Safe (post users bcrypt rounds body s)
        (λ row. pure (success_json (created row) 201))
        (post-HasAdminLeft laws bcrypt rounds body s h) (λ a t k. k))

  delete_handler-HasAdminLeft :
      (now id : ℕ) (s : S) → Safe s → Safe (delete_handler users bcrypt rounds now id s).1
  unfolding delete_handler
  delete_handler-HasAdminLeft now id s h = kept_by_body Safe _ (
      and_then-invariant Safe (delete users now id s) (λ _. pure (success_empty 200))
        (delete-HasAdminLeft laws now id s h) (λ a t k. k))

module _ {S : Type 0} {users : Model S UserDto} where
  validated-HasAdminLeft :
      (schema : UserPayload → Result UserPayload) (handler : UserPayload → Handler S CrudData)
      (body : UserPayload) (s : S)
      → ((p : UserPayload) → HasAdminLeft users (handler p s).1)
      → HasAdminLeft users s
      → HasAdminLeft users (validate_body schema handler body s).1
  unfolding validate_body
  validated-HasAdminLeft schema handler body s keeps h = elim (Result-cases (schema body)) [
    | inl (p, parsed) ↦ rw parsed (keeps p)
    | inr (e, failed) ↦ rw failed h
  ]

module _ {S : Type 0} (users : Model S UserDto) (reader : Reader S UserDto) where
  abbrev Kept : S → Type 0
  Kept = HasAdminLeft users

  reads-HasAdminLeft :
      (s : S)
      → Kept s
      → Kept (get_all_handler users reader s).1
        × ((parsed : Option Pagination) → Kept (get_all_paged_handler users reader parsed s).1)
        × ((id : ℕ) → Kept (get_by_id_handler users reader id s).1)
  unfolding get_all_handler get_all_paged_handler get_by_id_handler
  reads-HasAdminLeft s h = (
    kept_by_body Kept _ (
        and_then-invariant Kept (get_all reader not_deleted none s)
          (λ rows. pure (success_json (all_of rows) 200))
          (subst Kept (sym (get_all-state reader not_deleted s)) h) (λ a t k. k)),
    λ parsed. kept_by_body Kept _ (
        and_then-invariant Kept
          (get_all_paged reader (pagination_or parsed).page (pagination_or parsed).limit not_deleted
            none s)
          (λ c. pure (success_json (page_of c) 200))
          (subst Kept (sym (get_all_paged-keeps reader _ _ not_deleted none s)) h) (λ a t k. k)),
    λ id. kept_by_body Kept _ (
        and_then-invariant Kept (get_by_id users (live_id id) none s)
          (λ row. pure (success_json (row_of row) 200))
          (subst Kept (sym (get_by_id-state users (live_id id) s)) h) (λ a t k. k)),
  )

module _ {S : Type 0} {users : Model S UserDto} (reader : Reader S UserDto)
    (laws : ModelLaws user_id users) (bcrypt : Bcrypt) (rounds : Option ℕ)
    (create_schema update_schema : UserPayload → Result UserPayload) where
  abbrev handler : ℕ → UserRequest → Handler S CrudData
  handler = route_handler users reader bcrypt rounds create_schema update_schema

  pub route_handler-HasAdminLeft :
      (now : ℕ) (req : UserRequest) (s : S)
      → HasAdminLeft users s
      → HasAdminLeft users (handler now req s).1
  unfolding route_handler
  route_handler-HasAdminLeft now list_users s h = (reads-HasAdminLeft users reader s h).0
  route_handler-HasAdminLeft now (list_paged parsed) s h =
      (reads-HasAdminLeft users reader s h).1 parsed
  route_handler-HasAdminLeft now (read_user id) s h = (reads-HasAdminLeft users reader s h).2 id
  route_handler-HasAdminLeft now (post_user body) s h =
      validated-HasAdminLeft create_schema _ body s
        (λ p. post_handler-HasAdminLeft laws bcrypt rounds p s h) h
  route_handler-HasAdminLeft now (put_user id body) s h =
      validated-HasAdminLeft update_schema _ body s
        (λ p. put_handler-HasAdminLeft laws bcrypt rounds id p s h) h
  route_handler-HasAdminLeft now (delete_user id) s h =
      delete_handler-HasAdminLeft laws bcrypt rounds now id s h
