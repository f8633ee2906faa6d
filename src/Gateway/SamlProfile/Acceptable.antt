-- ===== src/Gateway/SamlProfile/Acceptable.antt =====
-- Which profiles the assertion consumer accepts, as a condition on the profile.
use fullstack_starter.Prelude.{
  String, ◌≡◌, refl, ap, subst, ◌⊎◌, inl, inr, Bool, true, false, ◌&&◌, Bool-cases, Option, none,
  some, List, Any, any_sound, arith, ltb, length, present, present-inv, ◌==◌, eq_iff,
}
use fullstack_starter.Async.{ok, ok-injective}
use fullstack_starter.Throwing.{bind-inv}
use fullstack_starter.Gateway.ProviderRegistry.{is_text}
use fullstack_starter.Gateway.SamlConfig.{SamlProviderConfig}
use fullstack_starter.Gateway.SignedCookie.{SamlTransaction}
use fullstack_starter.Gateway.SsoState.{Profile}
use fullstack_starter.Gateway.SamlProfile.{
  AssertedUser, persistent_format, email_format, is_accepted_format, is_plausible_email,
  refuse_unless, stable_name, asserted_email, email_domain, includes_text, check_profile,
}

-- The profile comes from the identity provider of the configuration and answers the request of the
-- transaction; its subject has a stable format; the address that it asserts for this subject is the
-- user's, plausible and in an allowed domain.
abbrev pub IsAcceptable : SamlProviderConfig → SamlTransaction → Profile → AssertedUser → Type 0
IsAcceptable config tx profile user =
    (profile.issuer ≡ some config.idp_issuer)
    × (profile.in_response_to ≡ some tx.request_id)
    × (profile.name_id ≡ some user.subject)
    × ((profile.name_id_format ≡ some persistent_format)
        ⊎ (profile.name_id_format ≡ some email_format))
    × (user.email ≡ asserted_email config profile user.subject)
    × (is_plausible_email user.email ≡ true)
    × Any (λ domain. domain ≡ email_domain user.email) config.allowed_domains

is_text-inv : (x : Option String) (s : String) → is_text x s ≡ true → x ≡ some s
is_text-inv none s h = cc
is_text-inv (some t) s h = ap some ((eq_iff t s).0 h)

refuse_unless-inv :
    (b : Bool) (message : String) → refuse_unless b message ≡ ok (record {}) → b ≡ true
refuse_unless-inv true message h = refl
refuse_unless-inv false message h = cc

accepted_format-inv :
    (format : Option String)
    → is_accepted_format format ≡ true
    → (format ≡ some persistent_format) ⊎ (format ≡ some email_format)
accepted_format-inv none h = cc
accepted_format-inv (some f) h = elim (Bool-cases (f == persistent_format)) [
  | inl persistent ↦ inl (ap some ((eq_iff _ _).0 persistent))
  | inr other ↦ inr (ap some ((eq_iff _ _).0 (rw other at h)))
]

stable_name-inv :
    (name format : Option String) (subject : String)
    → stable_name name format ≡ ok subject
    → (name ≡ some subject) × (is_accepted_format format ≡ true)
stable_name-inv none format subject h = cc
stable_name-inv (some name_id) format subject h = elim (Bool-cases (is_accepted_format format)) [
  | inl accepted ↦ (ap some (ok-injective (rw accepted at h)), accepted)
  | inr refused ↦ cc (rw refused at h)
]

domain-inv :
    (domains : List String) (domain : String)
    → (ltb 0 (length domains) && includes_text domains domain) ≡ true
    → Any (λ d. d ≡ domain) domains
domain-inv domains domain h =
    any_sound (λ d. d ≡ domain) (λ d. d == domain) (λ d. (eq_iff d domain).0) domains (ground arith)

-- A profile that is accepted meets every condition.
pub check_profile-IsAcceptable :
    (config : SamlProviderConfig) (tx : SamlTransaction) (profile : Profile) (user : AssertedUser)
    → check_profile config tx profile ≡ ok user
    → IsAcceptable config tx profile user
unfolding check_profile
check_profile-IsAcceptable config tx profile user h =
    let pinned = is_text profile.issuer config.idp_issuer in
    let bound = is_text profile.in_response_to tx.request_id in
    let (u1, a, r1) =
      bind-inv (refuse_unless pinned "SAML: response Issuer does not match the configured IdP") _
        user h in
    let (u2, b, r2) =
      bind-inv (refuse_unless bound "SAML: InResponseTo does not match the transaction") _ user
        r1 in
    let (subject, c, r3) =
      bind-inv (stable_name (present profile.name_id) profile.name_id_format) _ user r2 in
    let email = asserted_email config profile subject in
    let (u3, d, r4) =
      bind-inv
        (refuse_unless (is_plausible_email email) "SAML: asserted email is missing or malformed") _
        user r3 in
    let domains = config.allowed_domains in
    let inside = ltb 0 (length domains) && includes_text domains (email_domain email) in
    let (u4, e, made) =
      bind-inv (refuse_unless inside "SAML: asserted email domain is not allowed") _ user r4 in
    let (named, accepted) =
      stable_name-inv (present profile.name_id) profile.name_id_format subject c in
    subst (IsAcceptable config tx profile) (ok-injective made) (
      is_text-inv profile.issuer config.idp_issuer (refuse_unless-inv pinned _ a),
      is_text-inv profile.in_response_to tx.request_id (refuse_unless-inv bound _ b),
      present-inv profile.name_id subject named,
      accepted_format-inv profile.name_id_format accepted,
      refl,
      refuse_unless-inv (is_plausible_email email) _ d,
      domain-inv domains (email_domain email) (refuse_unless-inv inside _ e),
    )
