-- ===== src/Api/Federated/Resolution.antt =====
-- Which user an identity resolves to, and that a resolution never escalates.
use fullstack_starter.Prelude.{
  String, ◌≡◌, refl, sym, ◌∙◌, ap, subst, inl, inr, true, false, Bool-cases, Option, none, some,
  to_lower_case, trim,
}
use fullstack_starter.Async.{
  and_then, handle_with-ok, handle_with-error, unique_constraint, plain, token_expired, ErrorKind,
  ok, error, JsError, and_then-inv, and_then-ok, ok-injective, handle_with-inv,
}
use fullstack_starter.Dto.{UserDto}
use fullstack_starter.Api.Model.{Model, ModelLaws}
use fullstack_starter.Api.AuthService.{user_id}
use fullstack_starter.Api.Federated.{
  IdentityRow, ResolveInput, ResolvedUser, to_response, not_resolved, Transaction,
  find_user_by_identity, in_transaction, raced_user, on_error, resolve_unknown, resolve_known,
  resolve_or_provision, is_unique_constraint,
}
use fullstack_starter.Api.Federated.Origin.{
  TransactionLaws, TablesApart, identity_id, IsLinked, Origin,
}
use fullstack_starter.Api.Federated.Links.{find_user-state, find_user-IsLinked, in_transaction-Done}

module _ {S : Type 0} (users : Model S UserDto) (identities : Model S IdentityRow) where
  -- An identity that the table knows resolves to its user, as it is stored: the suggested
  -- permissions and the email of the assertion are ignored, and nothing is written.
  pub resolve-known :
      (transaction : Transaction S) (input : ResolveInput) (s : S) (user : UserDto)
      → (find_user_by_identity users identities input.provider input.subject s).0 ≡ ok (some user)
      → resolve_or_provision users identities transaction input s ≡ (ok (to_response user), s)
  unfolding resolve_or_provision
  resolve-known transaction input s user known =
      and_then-ok (find_user_by_identity users identities input.provider input.subject s) _
        (some user) known
      ∙ ap (λ t. (ok (to_response user), t))
          (find_user-state users identities input.provider input.subject s)

  resolve_unknown-unverified :
      (transaction : Transaction S) (input : ResolveInput) (email : String) (s : S)
      → input.email_verified ≡ false
      → resolve_unknown users identities transaction input email s ≡ (error not_resolved, s)
  unfolding resolve_unknown
  resolve_unknown-unverified transaction input email s unverified = rw unverified

  -- An identity that the table does not know is refused if its email is not verified, and nothing is
  -- written: neither a link nor an account.
  pub resolve-unverified :
      (transaction : Transaction S) (input : ResolveInput) (s : S)
      → (find_user_by_identity users identities input.provider input.subject s).0 ≡ ok none
      → input.email_verified ≡ false
      → resolve_or_provision users identities transaction input s ≡ (error not_resolved, s)
  unfolding resolve_or_provision
  resolve-unverified transaction input s unknown unverified =
      and_then-ok (find_user_by_identity users identities input.provider input.subject s) _ none
        unknown
      ∙ rw (find_user-state users identities input.provider input.subject s) (
          resolve_unknown-unverified transaction input (to_lower_case (trim input.email)) s
            unverified)

unique_kind : (k : ErrorKind) → is_unique_constraint k ≡ true → k ≡ unique_constraint
unique_kind unique_constraint h = refl
unique_kind plain h = cc
unique_kind token_expired h = cc

module _ {S : Type 0} {users : Model S UserDto} {identities : Model S IdentityRow}
    (laws : ModelLaws user_id users) (links : ModelLaws identity_id identities)
    (tables : TablesApart users identities) where
  raced_user-inv :
      (e : JsError) (x : Option UserDto) (s : S) (r : ResolvedUser)
      → (raced_user users identities e x s).0 ≡ ok r
      → (user : UserDto) × (x ≡ some user)
        × (to_response user ≡ r)
        × ((raced_user users identities e x s).1 ≡ s)
  unfolding raced_user
  raced_user-inv e none s r h = cc
  raced_user-inv e (some user) s r h = (user, refl, ok-injective h, refl)

  on_error-IsLinked :
      (provider subject : String) (e : JsError) (s : S) (r : ResolvedUser)
      → (on_error users identities provider subject e s).0 ≡ ok r
      → IsLinked users identities provider subject
          (on_error users identities provider subject e s).1
          r
        × (e.kind ≡ unique_constraint)
  unfolding on_error
  on_error-IsLinked provider subject e s r h = elim (Bool-cases (is_unique_constraint e.kind)) [
    | inr other ↦ cc (rw other at h)
    | inl unique ↦
        let find = find_user_by_identity users identities provider subject s in
        let (raced, found, stepped, same) =
          and_then-inv find (raced_user users identities e) r (rw unique at h) in
        let (user, some_user, described, kept) = raced_user-inv e raced find.1 r same in
        let linked =
          find_user-IsLinked laws links tables provider subject s user (found ∙ ap ok some_user) in
        let still = kept ∙ find_user-state users identities provider subject s in
        (
          rw unique (
              subst
                (λ (z : ResolvedUser).
                  IsLinked users identities provider subject
                    (and_then find (raced_user users identities e)).1 z)
                described
                (subst (λ (t : S). IsLinked users identities provider subject t (to_response user))
                  (sym (ap (λ z. z.1) stepped ∙ still)) linked)),
          unique_kind e.kind unique,
        )
  ]

  abbrev From : Transaction S → ResolveInput → S → S → ResolvedUser → Type 0
  From = Origin users identities

  resolve_unknown-Origin :
      (transaction : Transaction S) (input : ResolveInput) (s : S) (r : ResolvedUser)
      → TransactionLaws transaction
      → let out =
          resolve_unknown users identities transaction input (to_lower_case (trim input.email)) s in
        out.0 ≡ ok r → From transaction input s out.1 r
  unfolding resolve_unknown
  resolve_unknown-Origin transaction input s r t h = elim (Bool-cases input.email_verified) [
    | inr unverified ↦ cc (
      h,
      resolve_unknown-unverified users identities transaction input
          (to_lower_case (trim input.email)) s unverified,
    )
    | inl verified ↦
        let body = in_transaction users identities input (to_lower_case (trim input.email)) in
        let run = transaction body s in
        let raced = on_error users identities input.provider input.subject in
        elim (handle_with-inv run raced r (rw (verified, resolve_unknown) at h)) [
          | inl done ↦
              let same = t.committed body s r done in
              let (linked, how) =
                in_transaction-Done laws links tables input s r (ap (λ z. z.0) (sym same) ∙ done) in
              let whole = handle_with-ok run raced r done ∙ same in
              (
                rw verified (
                    subst (λ (z : S). IsLinked users identities input.provider input.subject z r)
                      (sym (ap (λ z. z.1) whole)) linked),
                inr (verified, elim how [ inl a ↦ inl a | inr b ↦ inr (inl b) ]),
              )
          | inr (e, failed, won) ↦
              let (linked, unique) = on_error-IsLinked input.provider input.subject e run.1 r won in
              let whole = handle_with-error run raced e failed in
              (
                rw verified (
                    subst (λ (z : S). IsLinked users identities input.provider input.subject z r)
                      (sym (ap (λ z. z.1) whole)) linked),
                inr (verified, inr (inr (e, failed, unique))),
              )
        ]
  ]

  resolve_known-Origin :
      (transaction : Transaction S) (input : ResolveInput) (x : Option UserDto) (s : S)
      (r : ResolvedUser)
      → TransactionLaws transaction
      → (find_user_by_identity users identities input.provider input.subject s).0 ≡ ok x
      → let out =
          resolve_known users identities transaction input (to_lower_case (trim input.email)) x s in
        out.0 ≡ ok r → From transaction input s out.1 r
  unfolding resolve_known
  resolve_known-Origin transaction input none s r t found h =
      resolve_unknown-Origin transaction input s r t h
  resolve_known-Origin transaction input (some user) s r t found h =
      let linked =
        subst (λ (z : ResolvedUser). IsLinked users identities input.provider input.subject s z)
          (ok-injective h)
          (find_user-IsLinked laws links tables input.provider input.subject s user found) in
      (linked, inl linked)

  -- After a resolution that succeeded, the tables link the identity, by provider and subject, to the
  -- live user that was answered, as it is stored. They did so before, or the address of the identity
  -- is verified: then the user is the live one that had this address, or a new one with this address
  -- and the permissions that are left of the suggested ones, or the one that another request has
  -- linked, where the transaction has failed on a UNIQUE constraint. The tables keep the laws of a
  -- model, a link leaves the users as they are, and a transaction that answers has done its body.
  pub resolve-Origin :
      (transaction : Transaction S) (input : ResolveInput) (s : S) (r : ResolvedUser)
      → TransactionLaws transaction
      → (resolve_or_provision users identities transaction input s).0 ≡ ok r
      → Origin users identities transaction input s
          (resolve_or_provision users identities transaction input s).1
          r
  unfolding resolve_or_provision
  resolve-Origin transaction input s r t h =
      let email = to_lower_case (trim input.email) in
      let find = find_user_by_identity users identities input.provider input.subject s in
      let still = find_user-state users identities input.provider input.subject s in
      let (x, found, stepped, same) =
        and_then-inv find (resolve_known users identities transaction input email) r h in
      let here =
        subst (λ (z : S). (resolve_known users identities transaction input email x z).0 ≡ ok r)
          still same in
      let at_s =
        ap (λ (z : S). (resolve_known users identities transaction input email x z).1) still in
      subst (λ (z : S). From transaction input s z r) (sym (ap (λ z. z.1) stepped ∙ at_s))
        (resolve_known-Origin transaction input x s r t found here)
