-- ===== src/Api/Federated/Origin.antt =====
-- What a resolution of an identity promises, and what it relies on.
use fullstack_starter.Prelude.{ℕ, String, ◌≡◌, ◌⊎◌, true, false, none, some, to_lower_case, trim}
use fullstack_starter.Async.{unique_constraint, Async, ok, error, JsError}
use fullstack_starter.Dto.{UserDto}
use fullstack_starter.Api.Model.{Model}
use fullstack_starter.Api.Federated.{
  IdentityRow, ResolveInput, ResolvedUser, sanitize_permissions, Transaction, in_transaction,
}

-- What the service relies on of a transaction: one that answers has done what its body does.
pub record TransactionLaws {S : Type 0} (transaction : Transaction S) : Type 0 where
  pub committed :
      (m : Async S ResolvedUser) (s : S) (r : ResolvedUser)
      → (transaction m s).0 ≡ ok r
      → transaction m s ≡ m s

-- An insertion of a link leaves the table of users as it is.
pub record TablesApart {S : Type 0} (users : Model S UserDto) (identities : Model S IdentityRow)
    : Type 0 where
  pub apart :
      (mk : ℕ → IdentityRow) (s : S) (i : ℕ)
      → users.view (identities.create mk s).1 i ≡ users.view s i

abbrev pub identity_id : IdentityRow → ℕ
identity_id r = r.id

-- The answer is the user, as it is stored.
abbrev pub Describes : ResolvedUser → UserDto → Type 0
Describes r user = (r.id ≡ user.id) × (r.email ≡ user.email) × (r.permissions ≡ user.permissions)

-- The tables link the identity, by a row that is not deleted, to the live user that is answered.
pub record IsLinked {S : Type 0} (users : Model S UserDto) (identities : Model S IdentityRow)
    (provider subject : String) (s : S) (r : ResolvedUser) : Type 0 where
  pub identity : IdentityRow
  pub linked : identities.view s identity.id ≡ some identity
  pub of_provider : identity.provider ≡ provider
  pub of_subject : identity.subject ≡ subject
  pub link_live : identity.deleted ≡ false
  pub user : UserDto
  pub to_user : identity.user_id ≡ user.id
  pub stored : users.view s user.id ≡ some user
  pub user_live : user.deleted ≡ false
  pub described : Describes r user

-- The answer is the live user that has the address.
pub record HasAddress {S : Type 0} (users : Model S UserDto) (email : String) (s : S)
    (r : ResolvedUser) : Type 0 where
  pub user : UserDto
  pub stored : users.view s user.id ≡ some user
  pub live : user.deleted ≡ false
  pub addressed : user.email ≡ email
  pub described : Describes r user

module _ {S : Type 0} (users : Model S UserDto) (identities : Model S IdentityRow) where
  -- The answer is a user that has not been there, with the address and with the permissions that are
  -- left of the suggested ones.
  abbrev pub IsProvisioned : ResolveInput → S → ResolvedUser → Type 0
  IsProvisioned input s r =
      (users.view s r.id ≡ none)
      × (r.permissions ≡ sanitize_permissions input.suggested_permissions)
      × (r.email ≡ to_lower_case (trim input.email))

  -- Another request has won: the transaction has failed on a UNIQUE constraint.
  abbrev pub HasRaced : Transaction S → ResolveInput → S → Type 0
  HasRaced transaction input s =
      (e : JsError) × ((transaction
          (in_transaction users identities input (to_lower_case (trim input.email))) s).0
        ≡ error e)
      × (e.kind ≡ unique_constraint)

  -- Whose user is answered for a verified address that no identity was linked to.
  abbrev pub Joined : Transaction S → ResolveInput → S → ResolvedUser → Type 0
  Joined transaction input s r =
      HasAddress users (to_lower_case (trim input.email)) s r
      ⊎ (IsProvisioned input s r ⊎ HasRaced transaction input s)

  -- How a resolution from one state to another came to its answer.
  abbrev pub Origin : Transaction S → ResolveInput → S → S → ResolvedUser → Type 0
  Origin transaction input s t r =
      IsLinked users identities input.provider input.subject t r
      × (IsLinked users identities input.provider input.subject s r
          ⊎ ((input.email_verified ≡ true) × Joined transaction input s r))
