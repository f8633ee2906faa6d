-- ===== src/Api/UserCrud/Fields.antt =====
-- What a change of a user writes: the listed columns of one row, and a password only as a hash.
use mathlib.Core.Path.{fun_ext}
use fullstack_starter.Prelude.{
  ℕ, String, ◌≡◌, sym, ◌∙◌, ap, inl, inr, Bool-cases, ◌&&◌, not, Option, none, some, if◌then◌else◌,
  or_else, map_option,
}
use fullstack_starter.Async.{ok, and_then-inv}
use fullstack_starter.Dto.{UserDto}
use fullstack_starter.Api.Model.{Model, ModelLaws}
use fullstack_starter.Api.AuthService.{Bcrypt, user_id}
use fullstack_starter.Api.UserCrud.{
  UserPayload, user_writable_fields, write_fields, by_id, has_admin, keeps_admin, hash_given,
  keep_one_admin, put_found, put, last_admin_demoted,
}
use fullstack_starter.Api.UserCrud.Steps.{
  IsHashed, hash_given-fields, hash_given-state, write_hashed, write_fields-id,
  keep_one_admin-state,
}

-- What a payload may do to a row: the five columns that a client may write, and no other.
abbrev pub changed : UserPayload → Option String → UserDto → UserDto
changed p hashed u = record u {
  email = or_else p.email u.email;
  name = or_else p.name u.name;
  last_name = or_else p.last_name u.last_name;
  permissions = or_else p.permissions u.permissions;
  password = or_else (map_option some hashed) u.password;
}

write_fields-changed :
    (p p' : UserPayload) (u : UserDto)
    → p'.email ≡ p.email
    → p'.name ≡ p.name
    → p'.last_name ≡ p.last_name
    → p'.permissions ≡ p.permissions
    → write_fields user_writable_fields p' u ≡ changed p p'.password u
unfolding write_fields
write_fields-changed p p' u email name last_name permissions =
    rw (email, name, last_name, permissions)

module _ {S : Type 0} (users : Model S UserDto) (bcrypt : Bcrypt) (rounds : Option ℕ) where
  -- A change that succeeded has passed its checks, which change nothing.
  put_found-written :
      (id : ℕ) (p : UserPayload) (current : UserDto) (s : S) (n : ℕ)
      → (put_found users bcrypt rounds id p (some current) s).0 ≡ ok n
      → put_found users bcrypt rounds id p (some current) s
        ≡ write_hashed users bcrypt rounds id p s
  unfolding put_found
  put_found-written id p current s n h =
      elim (Bool-cases (has_admin current && not (keeps_admin p))) [
        | inl demoted ↦
            let (_, _, after, _) =
              and_then-inv (keep_one_admin users last_admin_demoted id s) _ n (rw demoted at h) in
            rw demoted (
              after
              ∙ ap (write_hashed users bcrypt rounds id p)
                  (keep_one_admin-state users last_admin_demoted id s))
        | inr kept ↦ rw kept
      ]

  -- What a change that succeeded has done to the table.
  record IsPut (id : ℕ) (p : UserPayload) (s t : S) (n : ℕ) : Type 0 where
    payload : UserPayload
    hashed : (hash_given bcrypt rounds p s).0 ≡ ok payload
    written : (users.update (by_id id) (write_fields user_writable_fields payload) s).0 ≡ ok n
    state : t ≡ (users.update (by_id id) (write_fields user_writable_fields payload) s).1

  write_hashed-IsPut :
      (id : ℕ) (p : UserPayload) (s : S) (n : ℕ)
      → (write_hashed users bcrypt rounds id p s).0 ≡ ok n
      → IsPut id p s (write_hashed users bcrypt rounds id p s).1 n
  write_hashed-IsPut id p s n h =
      let (p', hashed, after, written) = and_then-inv (hash_given bcrypt rounds p s) _ n h in
      let at_s = hash_given-state bcrypt rounds p s in
      record {
        payload = p';
        hashed = hashed;
        written =
            ap (λ t. (users.update (by_id id) (write_fields user_writable_fields p') t).0)
              (sym at_s)
            ∙ written;
        state =
            ap (λ z. z.1) after
            ∙ ap (λ t. (users.update (by_id id) (write_fields user_writable_fields p') t).1) at_s;
      }

  put_found-IsPut :
      (id : ℕ) (p : UserPayload) (x : Option UserDto) (s : S) (n : ℕ)
      → (put_found users bcrypt rounds id p x s).0 ≡ ok n
      → IsPut id p s (put_found users bcrypt rounds id p x s).1 n
  put_found-IsPut id p none s n h = unfold put_found in cc
  put_found-IsPut id p (some current) s n h =
      let same = put_found-written id p current s n h in
      rw same (write_hashed-IsPut id p s n (rw same at h))

  -- A change that succeeded has written, to the row with the key, the five columns that a client may
  -- write as the payload gives them, with the password hashed by bcrypt or, if it is missing or
  -- blank, left as it was; every other column and every other row is as before.
  pub put_effect :
      ModelLaws user_id users
      → (id : ℕ) (p : UserPayload) (s : S) (n : ℕ) → (put users bcrypt rounds id p s).0 ≡ ok n
      → (hashed : Option String) × IsHashed bcrypt rounds p.password hashed
        × ((i : ℕ)
            → users.view (put users bcrypt rounds id p s).1 i
              ≡ map_option (λ u. if by_id id u then changed p hashed u else u) (users.view s i))
  unfolding put
  put_effect laws id p s n h =
      let (x, found, after, same) =
        and_then-inv (users.find_one (by_id id) s, s) (put_found users bcrypt rounds id p) n h in
      let w = put_found-IsPut id p x s n same in
      let (email, name, last_name, permissions, password) =
        hash_given-fields bcrypt rounds p w.payload s w.hashed in
      (
        w.payload.password,
        password,
        λ i.
            ap (λ t. users.view t i) (ap (λ z. z.1) after ∙ w.state)
            ∙ laws.update_view (by_id id) (write_fields user_writable_fields w.payload) s n i
                (write_fields-id w.payload) w.written
            ∙ ap
                (λ (f : UserDto → UserDto).
                  map_option (λ u. if by_id id u then f u else u) (users.view s i))
                (fun_ext
                  (λ u. write_fields-changed p w.payload u email name last_name permissions)),
      )
