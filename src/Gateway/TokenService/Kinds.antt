-- ===== src/Gateway/TokenService/Kinds.antt =====
-- That the two kinds of client token cannot stand for each other.
use fullstack_starter.Prelude.{
  String, ◌≡◌, ◌≢◌, sym, ap, ◌∙◌, subst, inl, inr, Bool, true, Bool-cases, Option, is_truthy,
}
use fullstack_starter.Async.{ok, and_then-inv, ok-injective}
use fullstack_starter.Gateway.Platform.{Platform, Claims, Expiry}
use fullstack_starter.Gateway.TokenService.{
  TokenInput, is_typ, access_secret, refresh_secret, token_issuer, token_audience, access_claims,
  refresh_claims, typed, generate_access_token, generate_refresh_token, verify_access_token,
  verify_refresh_token,
}

-- A token that verifies carries the `typ` that it was signed with, whatever the secrets are.
pub record JwtLaws {W : Type 0} (p : Platform W) : Type 0 where
  pub integrity :
      (c d : Claims) (secret issuer audience : String) (expiry : Expiry) (w : W) (token : String)
      (other_secret other_issuer other_audience : String) (later : W)
      → p.jwt_sign c secret issuer audience expiry w ≡ ok token
      → p.jwt_verify token other_secret other_issuer other_audience later ≡ ok d
      → d.typ ≡ c.typ

module _ {W : Type 0} (p : Platform W) (laws : JwtLaws p) where
  typed-inv :
      (kind message : String) (c d : Claims) (w : W)
      → (typed p kind message c w).0 ≡ ok d
      → (is_typ d.typ kind ≡ true) × (c ≡ d)
  typed-inv kind message c d w h = elim (Bool-cases (is_typ c.typ kind)) [
    | inl same ↦
        let one : c ≡ d = ok-injective (rw same at h) in
        (subst (λ z. is_typ z.typ kind ≡ true) one same, one)
    | inr other ↦ cc (rw other at h)
  ]

  -- No refresh token is accepted as an access token, at whatever time, even if both secrets are the
  -- same.
  pub refresh_token-not_access :
      (input : TokenInput) (remember : Option Bool) (family_id : Option String) (jti token : String)
      (w later : W) (d : Claims)
      → (generate_refresh_token p input remember family_id jti w).0 ≡ ok token
      → (verify_access_token p token later).0 ≢ ok d
  unfolding generate_refresh_token verify_access_token
  refresh_token-not_access input remember family_id jti token w later d made accepted =
      let (c, verified, _, rest) =
        and_then-inv
          (
            p.jwt_verify token (access_secret p.env) (token_issuer p.env) (token_audience p.env)
                later,
            later,
          )
          (typed p "access" "Expected access token, got ") d accepted in
      let (kind, one) = typed-inv "access" "Expected access token, got " c d later rest in
      elim (Bool-cases (is_truthy (refresh_secret p.env))) [
        | inl configured ↦
            let same =
              laws.integrity (refresh_claims input remember family_id jti) c _ _ _ _ w token _ _ _
                later (rw configured at made) verified in
            cc (subst (λ z. is_typ z "access" ≡ true) (sym (ap (λ z. z.typ) one) ∙ same) kind)
        | inr missing ↦ cc (rw missing at made)
      ]

  -- No access token is accepted as a refresh token.
  pub access_token-not_refresh :
      (input : TokenInput) (token : String) (w later : W) (d : Claims)
      → (generate_access_token p input w).0 ≡ ok token
      → (verify_refresh_token p token later).0 ≢ ok d
  unfolding generate_access_token verify_refresh_token
  access_token-not_refresh input token w later d made accepted =
      let (c, verified, _, rest) =
        and_then-inv
          (
            p.jwt_verify token (refresh_secret p.env) (token_issuer p.env) (token_audience p.env)
                later,
            later,
          )
          (typed p "refresh" "Expected refresh token, got ") d accepted in
      let (kind, one) = typed-inv "refresh" "Expected refresh token, got " c d later rest in
      elim (Bool-cases (is_truthy (access_secret p.env))) [
        | inl configured ↦
            let same =
              laws.integrity (access_claims input (p.random_uuid w).0) c _ _ _ _ (p.random_uuid w).1
                token _ _ _ later (rw configured at made) verified in
            cc (subst (λ z. is_typ z "refresh" ≡ true) (sym (ap (λ z. z.typ) one) ∙ same) kind)
        | inr missing ↦ cc (rw missing at made)
      ]
