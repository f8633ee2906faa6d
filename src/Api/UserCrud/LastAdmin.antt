-- ===== src/Api/UserCrud/LastAdmin.antt =====
-- The system keeps a live administrator: no creation, change or deletion of a user takes the last
-- one away, also where the database or bcrypt fails on the way.
use mathlib.Core.Bool.{false≢true}
use fullstack_starter.Prelude.{
  ℕ, suc, zero, String, ◌≡◌, ◌≢◌, refl, sym, ◌∙◌, ap, subst, inl, inr, true, false, Bool-cases,
  ◌&&◌, not, Option, none, some, arith, eqb_iff, some_cancel, if◌then◌else◌,
}
use fullstack_starter.Async.{
  Async, ok, Result-cases, and_then-inv, and_then-ok, and_then-error, and_then,
}
use fullstack_starter.Dto.{UserDto}
use fullstack_starter.Api.Model.{Model, ModelLaws}
use fullstack_starter.Api.AuthService.{Bcrypt, user_id}
use fullstack_starter.Api.UserCrud.Steps.{
  keep_one_admin-state, hash_given-state, hash_given-permissions, write_fields-id,
  write_fields-live, write_fields-admin, hash_new-state, current_keeps, write_hashed,
}
use fullstack_starter.Api.UserCrud.{
  UserPayload, user_writable_fields, create_with, hash_new, post, blank_user, write_fields, by_id,
  has_admin, is_other_admin, keeps_admin, soft_delete, last_admin_demoted, last_admin_deleted,
  hash_given, keep_one_admin, put_found, put, delete_found, delete,
}

-- A live administrator stands in the table.
pub record HasAdminLeft {S : Type 0} (users : Model S UserDto) (s : S) : Type 0 where
  pub index : ℕ
  pub user : UserDto
  pub stored : users.view s index ≡ some user
  pub admin : has_admin user ≡ true
  pub live : user.deleted ≡ false

module _ {S : Type 0} {users : Model S UserDto} (laws : ModelLaws user_id users) where
  -- An update of one row keeps an administrator that it does not touch, or leaves as one.
  update-HasAdminLeft :
      (id : ℕ) (f : UserDto → UserDto) (s : S)
      → ((u : UserDto) → user_id (f u) ≡ user_id u)
      → (h : HasAdminLeft users s)
      → (by_id id h.user ≡ true → (has_admin (f h.user) ≡ true) × ((f h.user).deleted ≡ false))
      → HasAdminLeft users (users.update (by_id id) f s).1
  update-HasAdminLeft id f s same_key h keeps =
      elim (Result-cases (users.update (by_id id) f s).0) [
        | inr (e, failed) ↦ record {
          index = h.index;
          user = h.user;
          stored = laws.update_failed (by_id id) f s e h.index failed ∙ h.stored;
          admin = h.admin;
          live = h.live;
        }
        | inl (n, done) ↦ elim (Bool-cases (by_id id h.user)) [
          | inl hit ↦ record {
            index = h.index;
            user = f h.user;
            stored =
                rw (laws.update_view (by_id id) f s n h.index same_key done, h.stored)
                  (ap (λ b. some (if b then f h.user else h.user)) hit);
            admin = (keeps hit).0;
            live = (keeps hit).1;
          }
          | inr missed ↦ record {
            index = h.index;
            user = h.user;
            stored =
                rw (laws.update_view (by_id id) f s n h.index same_key done, h.stored)
                  (ap (λ b. some (if b then f h.user else h.user)) missed);
            admin = h.admin;
            live = h.live;
          }
        ]
      ]

  -- Two rows that a query by key may mean are one.
  same_row :
      (id : ℕ) (s : S) (h : HasAdminLeft users s) (current : UserDto)
      → users.find_one (by_id id) s ≡ ok (some current)
      → by_id id h.user ≡ true
      → h.user ≡ current
  same_row id s h current answered hit =
      let (stored, found) = laws.find_some (by_id id) s current answered in
      let at_key : h.user.id ≡ h.index = laws.view_key s h.index h.user h.stored in
      let one : h.index ≡ current.id =
        sym at_key ∙ (eqb_iff _ _).0 hit ∙ sym ((eqb_iff _ _).0 found) in
      some_cancel (sym h.stored ∙ ap (users.view s) one ∙ stored)

  other_admin_left :
      (m : String) (id n : ℕ) (s : S)
      → users.count (is_other_admin id) s ≡ ok n
      → n ≢ 0
      → (h : HasAdminLeft users s) × (by_id id h.user ≡ false)
  other_admin_left m id zero s counted nonzero = absurd (nonzero refl)
  other_admin_left m id (suc n) s counted nonzero =
      let (q, stored, passes) = laws.count_suc (is_other_admin id) s n counted in
      (
        record {
          index = q.id;
          user = q;
          stored = stored;
          admin = ground (arith, passes);
          live = ground (arith, passes);
        },
        ground (arith, passes),
      )

  -- The check of the last administrator passes where another one is left.
  keep_one_admin-other :
      (m : String) (id : ℕ) (s : S)
      → (keep_one_admin users m id s).0 ≡ ok tt
      → (h : HasAdminLeft users s) × (by_id id h.user ≡ false)
  unfolding keep_one_admin
  keep_one_admin-other m id s e =
      let (n, counted, _, same) = and_then-inv (users.count (is_other_admin id) s, s) _ _ e in
      other_admin_left m id n s counted (λ zero_left. cc (rw zero_left at same))

-- What follows a check of the last administrator may rely on another one.
checked-HasAdminLeft :
    {S : Type 0} {users : Model S UserDto} (laws : ModelLaws user_id users) (m : String) (id : ℕ)
    (k : Async S ℕ) (s : S)
    → HasAdminLeft users s
    → ((h : HasAdminLeft users s) → by_id id h.user ≡ false → HasAdminLeft users (k s).1)
    → HasAdminLeft users (and_then (keep_one_admin users m id s) (λ _. k)).1
checked-HasAdminLeft {users} laws m id k s h next =
    let same = keep_one_admin-state users m id s in
    elim (Result-cases (keep_one_admin users m id s).0) [
      | inr (e, failed) ↦
          subst (HasAdminLeft users)
            (sym (ap (λ z. z.1) (and_then-error _ (λ _. k) e failed) ∙ same)) h
      | inl (_, passed) ↦
          let (other, apart) = keep_one_admin-other laws m id s passed in
          let step = and_then-ok (keep_one_admin users m id s) (λ _. k) tt passed in
          subst (HasAdminLeft users) (sym (ap (λ z. z.1) step ∙ ap (λ t. (k t).1) same))
            (next other apart)
    ]

module _ {S : Type 0} {users : Model S UserDto} (laws : ModelLaws user_id users) (bcrypt : Bcrypt)
    (rounds : Option ℕ) where
  write_hashed-HasAdminLeft :
      (id : ℕ) (p : UserPayload) (s : S) (h : HasAdminLeft users s)
      → (by_id id h.user ≡ true → keeps_admin p ≡ true)
      → HasAdminLeft users (write_hashed users bcrypt rounds id p s).1
  write_hashed-HasAdminLeft id p s h keeps = elim (Result-cases (hash_given bcrypt rounds p s).0) [
    | inr (e, failed) ↦
        subst (HasAdminLeft users)
          (sym (ap (λ z. z.1) (and_then-error _ _ e failed) ∙ hash_given-state bcrypt rounds p s)) h
    | inl (p', hashed) ↦
        let same = hash_given-permissions bcrypt rounds p p' s hashed in
        let f = write_fields user_writable_fields p' in
        let step =
          and_then-ok (hash_given bcrypt rounds p s)
            (λ p'. users.update (by_id id) (write_fields user_writable_fields p')) p' hashed in
        let at_s = ap (λ t. (users.update (by_id id) f t).1) (hash_given-state bcrypt rounds p s) in
        subst (HasAdminLeft users) (sym (ap (λ z. z.1) step ∙ at_s)) (
          update-HasAdminLeft laws id f s (write_fields-id p') h (λ hit. (
            write_fields-admin p p' h.user same (keeps hit),
            write_fields-live p' h.user ∙ h.live,
          )))
  ]

  put_found-HasAdminLeft :
      (id : ℕ) (p : UserPayload) (s : S) (x : Option UserDto)
      → users.find_one (by_id id) s ≡ ok x
      → HasAdminLeft users s
      → HasAdminLeft users (put_found users bcrypt rounds id p x s).1
  unfolding put_found
  put_found-HasAdminLeft id p s none answered h = h
  put_found-HasAdminLeft id p s (some current) answered h =
      elim (Bool-cases (has_admin current && not (keeps_admin p))) [
        | inl demoted ↦ rw demoted (
            checked-HasAdminLeft laws last_admin_demoted id (write_hashed users bcrypt rounds id p)
              s h (λ k other. write_hashed-HasAdminLeft id p s k (λ hit. cc)))
        | inr kept ↦ rw kept (
            write_hashed-HasAdminLeft id p s h (λ hit.
              current_keeps current p
                (ap has_admin (sym (same_row laws id s h current answered hit)) ∙ h.admin) kept))
      ]

  -- In a database that keeps the laws of a model, a change of a user, whatever it writes and however
  -- it ends, leaves a live administrator where there was one.
  pub put-HasAdminLeft :
      (id : ℕ) (p : UserPayload) (s : S)
      → HasAdminLeft users s
      → HasAdminLeft users (put users bcrypt rounds id p s).1
  unfolding put
  put-HasAdminLeft id p s h = elim (Result-cases (users.find_one (by_id id) s)) [
    | inr (e, failed) ↦ rw failed h
    | inl (x, answered) ↦ rw answered (put_found-HasAdminLeft id p s x answered h)
  ]

module _ {S : Type 0} {users : Model S UserDto} (laws : ModelLaws user_id users) where
  delete_found-HasAdminLeft :
      (now id : ℕ) (s : S) (x : Option UserDto)
      → users.find_one (by_id id) s ≡ ok x
      → HasAdminLeft users s
      → HasAdminLeft users (delete_found users now id x s).1
  unfolding delete_found
  delete_found-HasAdminLeft now id s none answered h = h
  delete_found-HasAdminLeft now id s (some user) answered h = elim (Bool-cases (has_admin user)) [
    | inl is_admin ↦ rw is_admin (
        checked-HasAdminLeft laws last_admin_deleted id (users.update (by_id id) (soft_delete now))
          s h
          (λ k other. update-HasAdminLeft laws id (soft_delete now) s (λ u. refl) k (λ hit. cc)))
    | inr is_not ↦ rw is_not (
        update-HasAdminLeft laws id (soft_delete now) s (λ u. refl) h
          (λ hit. absurd (
            false≢true (
              sym is_not ∙ ap has_admin (sym (same_row laws id s h user answered hit)) ∙ h.admin))))
  ]

  -- A deletion of a user, however it ends, leaves a live administrator where there was one.
  pub delete-HasAdminLeft :
      (now id : ℕ) (s : S) → HasAdminLeft users s → HasAdminLeft users (delete users now id s).1
  unfolding delete
  delete-HasAdminLeft now id s h = elim (Result-cases (users.find_one (by_id id) s)) [
    | inr (e, failed) ↦ rw failed h
    | inl (x, answered) ↦ rw answered (delete_found-HasAdminLeft now id s x answered h)
  ]

  -- An insertion, whatever its row, leaves a live administrator where there was one.
  create-HasAdminLeft :
      (mk : ℕ → UserDto) (s : S)
      → ((i : ℕ) → user_id (mk i) ≡ i)
      → HasAdminLeft users s
      → HasAdminLeft users (users.create mk s).1
  create-HasAdminLeft mk s same h = record {
    index = h.index;
    user = h.user;
    stored = elim (Result-cases (users.create mk s).0) [
      | inl (r, done) ↦ ground (
        arith,
        laws.create_view mk s r h.index same done,
        laws.create_ok mk s r same done,
        eqb_iff h.index r.id,
      )
      | inr (e, failed) ↦ laws.create_failed mk s e h.index failed ∙ h.stored
    ];
    admin = h.admin;
    live = h.live;
  }

  create_with-HasAdminLeft :
      (p : UserPayload) (x : Option String) (s : S)
      → HasAdminLeft users s
      → HasAdminLeft users (create_with users p x s).1
  unfolding create_with
  create_with-HasAdminLeft p none s h = h
  create_with-HasAdminLeft p (some email) s h =
      create-HasAdminLeft (λ i. write_fields user_writable_fields p (blank_user email i)) s
        (λ i. refl) h

  -- A creation of a user, however it ends, leaves a live administrator where there was one.
  pub post-HasAdminLeft :
      (bcrypt : Bcrypt) (rounds : Option ℕ) (p : UserPayload) (s : S)
      → HasAdminLeft users s
      → HasAdminLeft users (post users bcrypt rounds p s).1
  unfolding post
  post-HasAdminLeft bcrypt rounds p s h = elim (Result-cases (hash_new bcrypt rounds p s).0) [
    | inr (e, failed) ↦
        subst (HasAdminLeft users)
          (sym (ap (λ z. z.1) (and_then-error _ _ e failed) ∙ hash_new-state bcrypt rounds p s)) h
    | inl (p', hashed) ↦
        let step =
          and_then-ok (hash_new bcrypt rounds p s) (λ q. create_with users q q.email) p' hashed in
        let at_s =
          ap (λ t. (create_with users p' p'.email t).1) (hash_new-state bcrypt rounds p s) in
        subst (HasAdminLeft users) (sym (ap (λ z. z.1) step ∙ at_s))
          (create_with-HasAdminLeft p' p'.email s h)
  ]
