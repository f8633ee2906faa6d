-- ===== src/Gateway/SamlProfile.antt =====
-- What the assertion consumer of apps/gateway/src/controllers/saml.controller.ts asks of a profile
-- whose signatures node-saml has verified.
pub mod Acceptable
use Prim.Native.Char.{code}
use fullstack_starter.Prelude.{
  ℕ, String, Bool, true, false, ◌&&◌, ◌||◌, not, Option, none, some, List, [], ◌∷◌, any, length,
  if◌then◌else◌, leb, ltb, eqb, is_truthy, present, or_else, trim, to_lower_case, ◌==◌, is_space,
  break_at, text_length, has_any_char, has_inner_dot, after_last,
}
use fullstack_starter.Async.{Result, ok, error, new_error}
use fullstack_starter.Throwing.{◌>>=◌}
use fullstack_starter.Gateway.SafeReturn.{has_control_chars}
use fullstack_starter.Gateway.PermissionMapper.{GroupsClaim, array, text, other}
use fullstack_starter.Gateway.ProviderRegistry.{is_text}
use fullstack_starter.Gateway.SamlConfig.{SamlProviderConfig}
use fullstack_starter.Gateway.SignedCookie.{SamlTransaction}
use fullstack_starter.Gateway.SsoState.{Profile}

abbrev pub persistent_format : String
persistent_format = "urn:oasis:names:tc:SAML:2.0:nameid-format:persistent"

abbrev pub email_format : String
email_format = "urn:oasis:names:tc:SAML:1.1:nameid-format:emailAddress"

-- the parts of `^[^\s@]+@[^\s@]+\.[^\s@]+$`, around the first `@`
abbrev pub is_address : Option (String × String) → Bool
is_address none = false
is_address (some (local, domain)) =
    is_truthy local && not (has_any_char (eqb b'@') domain) && has_inner_dot domain

-- The length counts code points here, and units of UTF-16 in the source.
unfoldable pub is_plausible_email : String → Bool
unfolding text_length has_control_chars has_any_char break_at has_inner_dot is_space
is_plausible_email value =
    if not (is_truthy value) || ltb 150 (text_length value)
    then false
    else (if has_control_chars value
        then false
        else (if has_any_char
              (λ c.
                eqb c b'<' || eqb c b'>' || eqb c b'"' || eqb c b'\'' || eqb c b'`' || eqb c b'\\')
              value
            then false
            else not (has_any_char is_space value) && is_address (break_at b'@' value)))

abbrev pub attribute_as_string : GroupsClaim → Option String
attribute_as_string (text s) = some s
attribute_as_string (array (some s ∷ values)) = some s
attribute_as_string (array _) = none
attribute_as_string other = none

abbrev pub is_accepted_format : Option String → Bool
is_accepted_format none = false
is_accepted_format (some format) = format == persistent_format || format == email_format

-- what an accepted profile says of its user
pub record AssertedUser : Type 0 where
  pub subject : String
  pub email : String

abbrev pub refuse_unless : Bool → String → Result (Unit {0})
refuse_unless true message = ok (record {})
refuse_unless false message = error (new_error message)

abbrev pub stable_name : Option String → Option String → Result String
stable_name none format = error (new_error "SAML: NameID missing or non-persistent format")
stable_name (some name_id) format =
    if is_accepted_format format
    then ok name_id
    else error (new_error "SAML: NameID missing or non-persistent format")

unfoldable pub asserted_email : SamlProviderConfig → Profile → String → String
unfolding trim to_lower_case
asserted_email config profile name_id = to_lower_case (
    trim (
      or_else (attribute_as_string (profile.attribute config.email_attribute))
        (if is_text profile.name_id_format email_format then name_id else "")))

unfoldable pub email_domain : String → String
unfolding after_last
email_domain email = after_last b'@' email

abbrev pub includes_text : List String → String → Bool
includes_text texts s = any (λ t. t == s) texts

unfoldable pub check_profile : SamlProviderConfig → SamlTransaction → Profile → Result AssertedUser
unfolding asserted_email is_plausible_email email_domain
check_profile config tx profile = do
  pinned ←
      refuse_unless (is_text profile.issuer config.idp_issuer)
        "SAML: response Issuer does not match the configured IdP"
  bound ←
      refuse_unless (is_text profile.in_response_to tx.request_id)
        "SAML: InResponseTo does not match the transaction"
  name_id ← stable_name (present profile.name_id) profile.name_id_format
  plausible ←
      refuse_unless (is_plausible_email (asserted_email config profile name_id))
        "SAML: asserted email is missing or malformed"
  allowed ←
      refuse_unless
        (ltb 0 (length config.allowed_domains)
          && includes_text config.allowed_domains
              (email_domain (asserted_email config profile name_id)))
        "SAML: asserted email domain is not allowed"
  ok (record { subject = name_id; email = asserted_email config profile name_id })
