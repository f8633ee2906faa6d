-- ===== src/Api/Federated/Links.antt =====
-- The links between identities and users that a resolution finds, or inserts in its transaction.
use fullstack_starter.Prelude.{
  String, Bool, ◌≡◌, refl, sym, ◌∙◌, ap, subst, ◌⊎◌, inl, inr, false, Option, none, some, arith,
  eq_iff, eqb_iff, if◌then◌else◌, to_lower_case, trim,
}
use fullstack_starter.Async.{pure, ◌>>=◌, ok, Result-cases, and_then-inv, ok-injective}
use fullstack_starter.Dto.{UserDto}
use fullstack_starter.Api.Model.{Model, ModelLaws}
use fullstack_starter.Api.AuthService.{user_id, has_email, is_live}
use fullstack_starter.Api.Federated.{
  IdentityRow, ResolveInput, ResolvedUser, to_response, is_identity, sanitize_permissions,
  provisioned, find_user_of, find_user_by_identity, link_or_provision, in_transaction,
  identity_attrs,
}
use fullstack_starter.Api.Federated.Origin.{
  TablesApart, identity_id, Describes, IsLinked, HasAddress, IsProvisioned,
}

module _ {S : Type 0} (users : Model S UserDto) (identities : Model S IdentityRow) where
  find_user_of-state : (x : Option IdentityRow) (s : S) → (find_user_of users identities x s).1 ≡ s
  unfolding find_user_of
  find_user_of-state none s = refl
  find_user_of-state (some identity) s = refl

  pub find_user-state :
      (provider subject : String) (s : S)
      → (find_user_by_identity users identities provider subject s).1 ≡ s
  unfolding find_user_by_identity
  find_user-state provider subject s =
      elim (Result-cases (identities.find_one (is_identity provider subject) s)) [
        | inl (x, found) ↦ rw found (find_user_of-state x s)
        | inr (e, failed) ↦ rw failed
      ]

described_by : (user : UserDto) (r : ResolvedUser) → to_response user ≡ r → Describes r user
described_by user r same =
    (sym (ap (λ z. z.id) same), sym (ap (λ z. z.email) same), sym (ap (λ z. z.permissions) same))

module _ {S : Type 0} {users : Model S UserDto} {identities : Model S IdentityRow}
    (laws : ModelLaws user_id users) (links : ModelLaws identity_id identities)
    (tables : TablesApart users identities) where
  find_user_of-IsLinked :
      (provider subject : String) (x : Option IdentityRow) (s : S) (user : UserDto)
      → identities.find_one (is_identity provider subject) s ≡ ok x
      → (find_user_of users identities x s).0 ≡ ok (some user)
      → IsLinked users identities provider subject s (to_response user)
  unfolding find_user_of
  find_user_of-IsLinked provider subject none s user read h = cc
  find_user_of-IsLinked provider subject (some identity) s user read h =
      let (linked, named) = links.find_some (is_identity provider subject) s identity read in
      let (stored, live) = laws.find_some (is_live identity.user_id) s user h in
      record {
        identity = identity;
        linked = linked;
        of_provider = (eq_iff identity.provider provider).0 (ground (arith, named));
        of_subject = (eq_iff identity.subject subject).0 (ground (arith, named));
        link_live = ground (arith, named);
        user = user;
        to_user = sym ((eqb_iff user.id identity.user_id).0 (ground (arith, live)));
        stored = stored;
        user_live = ground (arith, live);
        described = (refl, refl, refl);
      }

  pub find_user-IsLinked :
      (provider subject : String) (s : S) (user : UserDto)
      → (find_user_by_identity users identities provider subject s).0 ≡ ok (some user)
      → IsLinked users identities provider subject s (to_response user)
  unfolding find_user_by_identity
  find_user-IsLinked provider subject s user h =
      let (x, found, after, same) =
        and_then-inv (identities.find_one (is_identity provider subject) s, s)
          (find_user_of users identities) (some user) h in
      find_user_of-IsLinked provider subject x s user found same

  -- the link that is inserted for a user of the table
  inserted-IsLinked :
      (input : ResolveInput) (email : String) (s : S) (user : UserDto) (link : IdentityRow)
      → (identities.create (identity_attrs user.id input.provider input.subject email) s).0
        ≡ ok link
      → users.view s user.id ≡ some user
      → user.deleted ≡ false
      → IsLinked users identities input.provider input.subject
          (identities.create (identity_attrs user.id input.provider input.subject email) s).1
          (to_response user)
  inserted-IsLinked input email s user link made stored live =
      let mk = identity_attrs user.id input.provider input.subject email in
      let row = (links.create_ok mk s link (λ k. refl) made).0 in
      record {
        identity = link;
        linked =
            links.create_view mk s link link.id (λ k. refl) made
            ∙ ap (λ (b : Bool). if b then some link else identities.view s link.id)
                ((eqb_iff link.id link.id).1 refl);
        of_provider = ap (λ l. l.provider) row;
        of_subject = ap (λ l. l.subject) row;
        link_live = ap (λ l. l.deleted) row;
        user = user;
        to_user = ap (λ l. l.user_id) row;
        stored = tables.apart mk s user.id ∙ stored;
        user_live = live;
        described = (refl, refl, refl);
      }

  -- what a body of the transaction has done
  abbrev pub Done : ResolveInput → S → S → ResolvedUser → Type 0
  Done input s t r =
      IsLinked users identities input.provider input.subject t r
      × (HasAddress users (to_lower_case (trim input.email)) s r
          ⊎ IsProvisioned users identities input s r)

  link_or_provision-Done :
      (input : ResolveInput) (x : Option UserDto) (s : S) (r : ResolvedUser)
      → users.find_one (has_email (to_lower_case (trim input.email))) s ≡ ok x
      → (link_or_provision users identities input (to_lower_case (trim input.email)) x s).0 ≡ ok r
      → Done input s
          (link_or_provision users identities input (to_lower_case (trim input.email)) x s).1
          r
  unfolding link_or_provision
  link_or_provision-Done input (some user) s r found h =
      let email = to_lower_case (trim input.email) in
      let (stored, passes) = laws.find_some (has_email email) s user found in
      let live : user.deleted ≡ false = ground (arith, passes) in
      let (link, made, stepped, same) =
        and_then-inv
          (identities.create (identity_attrs user.id input.provider input.subject email) s)
          (λ _ t. (ok (to_response user), t)) r h in
      let linked = inserted-IsLinked input email s user link made stored live in
      (
        subst
            (λ (z : ResolvedUser).
              IsLinked users identities input.provider input.subject
                (link_or_provision users identities input email (some user) s).1 z)
            (ok-injective same)
            (subst
              (λ t. IsLinked users identities input.provider input.subject t (to_response user))
              (sym (ap (λ z. z.1) stepped)) linked),
        inl (record {
          user = user;
          stored = stored;
          live = live;
          addressed = (eq_iff user.email email).0 (ground (arith, passes));
          described = described_by user r (ok-injective same);
        }),
      )
  link_or_provision-Done input none s r found h =
      let email = to_lower_case (trim input.email) in
      let mk = provisioned email (sanitize_permissions input.suggested_permissions) in
      let after = (users.create mk s).1 in
      let (created, made, first, rest) =
        and_then-inv (users.create mk s)
          (λ c.
            (identities.create (identity_attrs c.id input.provider input.subject email))
            >>= (λ _. pure (to_response c)))
          r h in
      let (link, linked_to, second, same) =
        and_then-inv
          (identities.create (identity_attrs created.id input.provider input.subject email) after)
          (λ _ t. (ok (to_response created), t)) r rest in
      let (row, free) = laws.create_ok mk s created (λ k. refl) made in
      let stored : users.view after created.id ≡ some created =
        laws.create_view mk s created created.id (λ k. refl) made
        ∙ ap (λ (b : Bool). if b then some created else users.view s created.id)
            ((eqb_iff created.id created.id).1 refl) in
      let linked =
        inserted-IsLinked input email after created link linked_to stored
          (ap (λ u. u.deleted) row) in
      let described : to_response created ≡ r = ok-injective same in
      (
        subst
            (λ (z : ResolvedUser).
              IsLinked users identities input.provider input.subject
                (link_or_provision users identities input email none s).1 z)
            described
            (subst
              (λ t. IsLinked users identities input.provider input.subject t (to_response created))
              (sym (ap (λ z. z.1) (first ∙ second))) linked),
        inr (
          ap (users.view s) (sym (ap (λ z. z.id) described)) ∙ free,
          sym (ap (λ z. z.permissions) described) ∙ ap (λ u. u.permissions) row,
          sym (ap (λ z. z.email) described) ∙ ap (λ u. u.email) row,
        ),
      )

  pub in_transaction-Done :
      (input : ResolveInput) (s : S) (r : ResolvedUser)
      → (in_transaction users identities input (to_lower_case (trim input.email)) s).0 ≡ ok r
      → Done input s
          (in_transaction users identities input (to_lower_case (trim input.email)) s).1
          r
  unfolding in_transaction
  in_transaction-Done input s r h =
      let email = to_lower_case (trim input.email) in
      let (x, found, stepped, same) =
        and_then-inv (users.find_one (has_email email) s, s)
          (link_or_provision users identities input email) r h in
      subst (λ (z : S). Done input s z r) (sym (ap (λ z. z.1) stepped))
        (link_or_provision-Done input x s r found same)
