-- ===== src/Api/UserReads/Pages.antt =====
-- What a page of accounts holds.
use fullstack_starter.Prelude.{
  ℕ, suc, ◌-◌, ◌*◌, ◌≤◌, String, ◌≡◌, refl, ap, subst, Bool, true, false, inl, inr, Option, none,
  some, List, [], ◌∷◌, map, length, All, arith,
}
use fullstack_starter.Async.{ok, Result-cases, ok-injective}
use fullstack_starter.Dto.{UserDto}
use fullstack_starter.Api.UserReads.{
  Counted, Reader, UserColumns, Where, not_deleted, meets, project, exclude_columns, get_all_paged,
}

-- What the program relies on for a page: at most the limit of rows, each selected by the query.
pub record PageLaws {S : Type 0} (reader : Reader S UserDto) : Type 0 where
  pub page :
      (p : UserDto → Bool) (limit offset : ℕ) (s : S) (c : Counted UserDto)
      → reader.find_and_count_all p limit offset s ≡ ok c
      → All (λ r. p r ≡ true) c.rows × (length c.rows ≤ limit)

-- What an answer shows of an account: neither the password nor the marks of a deletion.
abbrev pub shown : UserDto → UserColumns
shown u = record {
  id = some u.id;
  email = some u.email;
  name = some u.name;
  last_name = some u.last_name;
  permissions = some u.permissions;
  password = none;
  auth_source = some u.auth_source;
  deleted = none;
  deleted_at = none;
}

pub project-shown : (u : UserDto) → project (exclude_columns false) u ≡ shown u
unfolding project
project-shown u = refl

-- It shows an account that is not soft-deleted.
abbrev pub IsListed : UserColumns → Type 0
IsListed c = (u : UserDto) × (u.deleted ≡ false) × (c ≡ shown u)

pub meets-live :
    (id : Option ℕ) (u : UserDto)
    → meets (record { id = id; deleted = some false }) u ≡ true
    → u.deleted ≡ false
meets-live id u h = ground arith

map-IsListed :
    (us : List UserDto)
    → All (λ u. meets not_deleted u ≡ true) us
    → All IsListed (map (project (exclude_columns false)) us)
map-IsListed [] h = tt
map-IsListed (u ∷ us) (first, rest) =
    ((u, meets-live none u first, project-shown u), map-IsListed us rest)

length-map {ℓ κ} :
    {A : Type ℓ} {B : Type κ} (f : A → B) (xs : List A) → length (map f xs) ≡ length xs
length-map f [] = refl
length-map f (x ∷ xs) = ap suc (length-map f xs)

module _ {S : Type 0} (reader : Reader S UserDto) where
  pub get_all_paged-IsListed :
      (laws : PageLaws reader) (page limit : ℕ) (s : S) (c : Counted UserColumns)
      → (get_all_paged reader page limit not_deleted none s).0 ≡ ok c
      → All IsListed c.rows × (length c.rows ≤ limit)
  unfolding get_all_paged
  get_all_paged-IsListed laws page limit s c h =
      elim (Result-cases
        (reader.find_and_count_all (meets not_deleted) limit ((page - 1) * limit) s)) [
          | inr (e, failed) ↦ cc (rw failed at h)
          | inl (found, answered) ↦
              let (live, bound) =
                laws.page (meets not_deleted) limit ((page - 1) * limit) s found answered in
              let columns = map (project (exclude_columns false)) found.rows in
              let same : columns ≡ c.rows = ap (λ z. z.rows) (ok-injective (rw answered at h)) in
              subst (λ z. All IsListed z × (length z ≤ limit)) same
                (
                  map-IsListed found.rows live,
                  omega (arith, bound, length-map (project (exclude_columns false)) found.rows),
                )
        ]

module _ {S : Type 0} (reader : Reader S UserDto) where
  -- a read leaves the database as it is
  pub get_all_paged-keeps :
      (page limit : ℕ) (query : Where) (columns : Option (List String)) (s : S)
      → (get_all_paged reader page limit query columns s).1 ≡ s
  unfolding get_all_paged
  get_all_paged-keeps page limit query columns s =
      elim (Result-cases (reader.find_and_count_all (meets query) limit ((page - 1) * limit) s)) [
        | inl (found, answered) ↦ rw answered
        | inr (e, failed) ↦ rw failed
      ]
