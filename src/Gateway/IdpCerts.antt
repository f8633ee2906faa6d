-- ===== src/Gateway/IdpCerts.antt =====
-- apps/gateway/src/sso/saml-provider-registry.ts, the certificates of an identity provider.
-- `X509Certificate` is a parameter; the warning for a certificate that expires soon is left out.
use Prim.Native.String.{◌++◌}
use fullstack_starter.Prelude.{
  ℕ, ◌≤◌, String, ◌≡◌, subst, inl, inr, Bool, false, Bool-cases, ◌&&◌, ◌||◌, Option, none, some,
  List, [], ◌∷◌, All, arith, if◌then◌else◌, ltb, trim, starts_with, ◌==◌, remove_spaces,
  to_upper_case, unescape_newlines, wrap_64,
}
use fullstack_starter.Async.{Result, ok, error, new_error, ok-injective}
use fullstack_starter.Throwing.{
  ◌>>=◌, bind-inv, map_throwing, map_throwing-All, map_throwing-length,
}
use fullstack_starter.Gateway.PermissionMap.{trimmed_parts}

-- what the program reads of a certificate: `validTo` as a text and in milliseconds, which is `none`
-- where it is no date, and its public key
pub record X509Certificate : Type 0 where
  pub valid_to_text : String
  pub valid_to : Option ℕ
  pub asymmetric_key_type : Option String
  pub modulus_length : Option ℕ

unfoldable pub normalise_cert_pem : String → String
unfolding unescape_newlines trim starts_with remove_spaces wrap_64
normalise_cert_pem raw =
    let unescaped = trim (unescape_newlines raw) in
    if starts_with unescaped "-----BEGIN"
    then unescaped
    else ("-----BEGIN CERTIFICATE-----\n"
        ++ wrap_64 (remove_spaces unescaped)
        ++ "\n-----END CERTIFICATE-----")

abbrev pub cert_error : String → String → Result (Unit {0})
cert_error provider_id message =
    error (new_error ("SAML provider \"" ++ provider_id ++ "\" " ++ message))

-- a date that is not one is less than nothing
abbrev pub is_before : Option ℕ → ℕ → Bool
is_before none now = false
is_before (some valid_to) now = ltb valid_to now

abbrev pub is_rsa : Option String → Bool
is_rsa none = false
is_rsa (some type) = type == "rsa" || type == "rsa-pss"

abbrev pub is_weak : Option ℕ → Bool
is_weak none = false
is_weak (some modulus_length) = ltb modulus_length 2048

unfoldable pub check_cert : String → ℕ → Option X509Certificate → Result (Unit {0})
check_cert provider_id now none = cert_error provider_id "has an unparseable IdP certificate"
check_cert provider_id now (some cert) =
    if is_before cert.valid_to now
    then cert_error provider_id
        ("IdP certificate has expired (validTo: " ++ cert.valid_to_text ++ ")")
    else (if is_rsa cert.asymmetric_key_type && is_weak cert.modulus_length
        then cert_error provider_id "IdP certificate uses an RSA key smaller than 2048 bits"
        else ok (record {}))

module _ (parse_cert : String → Option X509Certificate) (now : ℕ) where
  unfoldable pub validate_cert : String → String → Result (Unit {0})
  unfolding check_cert
  validate_cert provider_id pem = check_cert provider_id now (parse_cert pem)

  abbrev pub parse_idp_cert : String → String → Result String
  parse_idp_cert provider_id raw = do
    valid ← validate_cert provider_id (normalise_cert_pem raw)
    ok (normalise_cert_pem raw)

  abbrev pub parse_cert_entries : String → List String → Result (List String)
  parse_cert_entries provider_id [] = error (
      new_error (
        "SAML provider \""
        ++ provider_id
        ++ "\" SAML_"
        ++ to_upper_case provider_id
        ++ "_IDP_CERT is empty"))
  parse_cert_entries provider_id (raw ∷ entries) =
      map_throwing (parse_idp_cert provider_id) (raw ∷ entries)

  unfoldable pub parse_idp_certs : String → String → Result (List String)
  unfolding validate_cert normalise_cert_pem trimmed_parts to_upper_case
  parse_idp_certs provider_id raw_certs =
      parse_cert_entries provider_id (trimmed_parts b';' raw_certs)

-- Not expired.
abbrev pub IsCurrent : ℕ → Option ℕ → Type 0
IsCurrent now none = Unit
IsCurrent now (some valid_to) = now ≤ valid_to

-- A certificate that parses, is not expired, and has no short RSA key.
abbrev pub IsTrusted : ℕ → Option X509Certificate → Type 0
IsTrusted now none = ⊥
IsTrusted now (some cert) =
    IsCurrent now cert.valid_to
    × ((is_rsa cert.asymmetric_key_type && is_weak cert.modulus_length) ≡ false)

abbrev pub IsNonempty {ℓ} : {A : Type ℓ} → List A → Type 0
IsNonempty [] = ⊥
IsNonempty (x ∷ xs) = Unit

before-IsCurrent : (now : ℕ) (date : Option ℕ) → is_before date now ≡ false → IsCurrent now date
before-IsCurrent now none h = tt
before-IsCurrent now (some valid_to) h = ground arith

check_cert-IsTrusted :
    (provider_id : String) (now : ℕ) (cert : Option X509Certificate)
    → check_cert provider_id now cert ≡ ok (record {})
    → IsTrusted now cert
unfolding check_cert
check_cert-IsTrusted provider_id now none h = cc
check_cert-IsTrusted provider_id now (some cert) h =
    elim (Bool-cases (is_before cert.valid_to now)) [
      | inl expired ↦ cc (rw expired at h)
      | inr current ↦
          elim (Bool-cases (is_rsa cert.asymmetric_key_type && is_weak cert.modulus_length)) [
            | inl weak ↦ cc (rw (current, weak) at h)
            | inr strong ↦ (before-IsCurrent now cert.valid_to current, strong)
          ]
    ]

module _ (parse_cert : String → Option X509Certificate) (now : ℕ) where
  parse_idp_cert-IsTrusted :
      (provider_id raw pem : String)
      → parse_idp_cert parse_cert now provider_id raw ≡ ok pem
      → IsTrusted now (parse_cert pem)
  unfolding validate_cert
  parse_idp_cert-IsTrusted provider_id raw pem h =
      let given = normalise_cert_pem raw in
      let (valid, checked, made) =
        bind-inv (validate_cert parse_cert now provider_id given) _ pem h in
      subst (λ p. IsTrusted now (parse_cert p)) (ok-injective made)
        (check_cert-IsTrusted provider_id now (parse_cert given) checked)

  map_certs-IsNonempty :
      (provider_id raw : String) (entries pems : List String)
      → map_throwing (parse_idp_cert parse_cert now provider_id) (raw ∷ entries) ≡ ok pems
      → IsNonempty pems
  map_certs-IsNonempty provider_id raw entries [] h = absurd (
      omega (
        arith,
        map_throwing-length (parse_idp_cert parse_cert now provider_id) (raw ∷ entries) [] h,
      ))
  map_certs-IsNonempty provider_id raw entries (pem ∷ pems) h = tt

  entries-IsTrusted :
      (provider_id : String) (entries pems : List String)
      → parse_cert_entries parse_cert now provider_id entries ≡ ok pems
      → IsNonempty pems × All (λ pem. IsTrusted now (parse_cert pem)) pems
  entries-IsTrusted provider_id [] pems h = cc
  entries-IsTrusted provider_id (raw ∷ entries) pems h = (
    map_certs-IsNonempty provider_id raw entries pems h,
    map_throwing-All (λ pem. IsTrusted now (parse_cert pem))
        (parse_idp_cert parse_cert now provider_id) (raw ∷ entries) pems
        (parse_idp_cert-IsTrusted provider_id) h,
  )

  -- Certificates that are accepted are at least one, and each of them is trusted.
  pub parse_idp_certs-IsTrusted :
      (provider_id raw_certs : String) (pems : List String)
      → parse_idp_certs parse_cert now provider_id raw_certs ≡ ok pems
      → IsNonempty pems × All (λ pem. IsTrusted now (parse_cert pem)) pems
  unfolding parse_idp_certs
  parse_idp_certs-IsTrusted provider_id raw_certs pems h =
      entries-IsTrusted provider_id (trimmed_parts b';' raw_certs) pems h
