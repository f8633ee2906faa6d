-- ===== src/Api/UserEndpoints/Answers.antt =====
-- What the endpoints of accounts answer.
use fullstack_starter.Prelude.{ℕ, ◌≡◌, ◌≤◌, Option, none, some, length, All}
use fullstack_starter.Async.{Async, pure, ◌>>=◌}
use fullstack_starter.Http.{Response, success_json}
use fullstack_starter.Dto.{UserDto}
use fullstack_starter.Api.Model.{Model}
use fullstack_starter.Api.UserReads.{Counted, Reader, UserColumns, not_deleted, get_all_paged}
use fullstack_starter.Api.UserReads.Pages.{IsListed}
use fullstack_starter.Api.UserEndpoints.{
  Pagination, pagination_or, CrudData, page_of, IntSchema, Zod,
}

abbrev pub IsAtMost : Option ℕ → ℕ → Type 0
IsAtMost none n = Unit
IsAtMost (some maximum) n = n ≤ maximum

-- What zod does for a number with its bounds: a value that it lets through keeps to them, and a
-- missing one is the default.
pub record ZodLaws {Q : Type 0} (zod : Zod Q) : Type 0 where
  pub given :
      (schema : IntSchema) (x : Q) (n : ℕ)
      → zod.coerce_int schema (some x) ≡ some n
      → (schema.minimum ≤ n) × IsAtMost schema.maximum n
  pub missing : (schema : IntSchema) → zod.coerce_int schema none ≡ some schema.default

-- the answer is a page of at most 100 accounts that are not soft-deleted, without their passwords
abbrev pub IsPage : Response CrudData → Type 0
IsPage r =
    (c : Counted UserColumns) × (r ≡ success_json (page_of c) 200)
    × All IsListed c.rows
    × (length c.rows ≤ 100)

module _ {S : Type 0} (users : Model S UserDto) (reader : Reader S UserDto) where
  abbrev paged_body : Option Pagination → Async S (Response CrudData)
  paged_body parsed = do
    data_page ←
        get_all_paged reader (pagination_or parsed).page (pagination_or parsed).limit not_deleted
          none
    pure (success_json (page_of data_page) 200)
