-- ===== src/Identity.antt =====
-- A device's key in crates/warp-masque/src/keys.rs, and its use in crates/warp-masque/src/tls.rs: the
-- identity that it presents, the pin on the key of the endpoint, and the configuration of the trace.
--
-- Keys, encodings and certificates are those of the parameter `Crypto`. A text is the list of its code
-- points, an instant a number of seconds.
pub mod Laws
pub mod Tests
use warp_proxy.Base.{ℕ, ◌+◌, ◌-◌, ◌*◌, Bool, List, [], ◌∷◌, Option, none, some}
use warp_proxy.Base.{if◌then◌else◌}
use warp_proxy.Config.{WarpConfig, trim}
use warp_proxy.Registration.{Outcome, ok, err, or_err, then_try, key, config}

-- What the code uses of base64, p256, rcgen, x509_cert and rustls. `none` is an error.
pub record Crypto : Type 1 where
  pub Secret : Type 0
  pub Public : Type 0
  pub b64_encode : List ℕ → List ℕ
  pub b64_decode : List ℕ → Option (List ℕ)
  pub to_sec1_der : Secret → Option (List ℕ)
  pub from_sec1_der : List ℕ → Option Secret
  pub public_key : Secret → Public
  pub to_public_key_der : Public → Option (List ℕ)
  pub from_public_key_der : List ℕ → Option Public
  pub from_public_key_pem : List ℕ → Option Public
  pub same_key : Public → Public → Bool
  pub to_pkcs8_der : Secret → Option (List ℕ)
  pub RcgenKey : Type 0
  pub from_pkcs8_der : List ℕ → Option RcgenKey
  pub self_signed : ℕ × ℕ → RcgenKey → Option (List ℕ)
  pub Certificate : Type 0
  pub from_der : List ℕ → Option Certificate
  pub spki_der : Certificate → Option (List ℕ)
  pub Builder : Type 0
  pub with_protocol_versions : Option Builder
  pub with_client_auth_cert : Builder → List ℕ → List ℕ → Option Builder

-- `rustls::Error::General`, by its message.
pub data Refusal : Type 0 where
  parse_server_cert encode_server_spki not_p256 mismatch : Refusal

pub data Verdict : Type 0 where
  verified : Verdict
  refused : Refusal → Verdict

-- `ClientIdentity`
pub record ClientIdentity : Type 0 where
  pub cert_der : List ℕ
  pub key_der : List ℕ

module _ (C : Crypto) where
  open C use {Secret, Public}

  unfoldable pub from_private_b64 : List ℕ → Outcome Secret
  unfolding then_try or_err
  from_private_b64 b64 =
      then_try (or_err key (C.b64_decode (trim b64))) (λ der. or_err key (C.from_sec1_der der))

  unfoldable pub private_b64 : Secret → Outcome (List ℕ)
  unfolding then_try or_err
  private_b64 secret = then_try (or_err key (C.to_sec1_der secret)) (λ doc. ok (C.b64_encode doc))

  unfoldable pub public_spki_b64 : Secret → Outcome (List ℕ)
  unfolding then_try or_err
  public_spki_b64 secret =
      then_try (or_err key (C.to_public_key_der (C.public_key secret)))
        (λ der. ok (C.b64_encode der))

  -- The certificate is valid from an hour before `now` to a day behind it.
  pub self_signed_identity : ℕ → Secret → Outcome ClientIdentity
  unfolding then_try or_err
  self_signed_identity now secret = then_try (or_err key (C.to_pkcs8_der secret)) (λ pkcs8.
      then_try (or_err key (C.from_pkcs8_der pkcs8)) (λ rcgen_key.
        then_try (or_err key (C.self_signed (now - 3600, now + 24 * 3600) rcgen_key))
          (λ cert. ok (record { cert_der = cert; key_der = pkcs8 }))))

  -- What `PinnedVerifier` makes of the key of a certificate.
  compare_pin : Public → Option Public → Verdict
  compare_pin pinned none = refused not_p256
  compare_pin pinned (some got) = if C.same_key got pinned then verified else refused mismatch

  of_spki : Public → Option (List ℕ) → Verdict
  unfolding compare_pin
  of_spki pinned none = refused encode_server_spki
  of_spki pinned (some der) = compare_pin pinned (C.from_public_key_der der)

  of_certificate : Public → Option C.Certificate → Verdict
  unfolding of_spki
  of_certificate pinned none = refused parse_server_cert
  of_certificate pinned (some cert) = of_spki pinned (C.spki_der cert)

  -- `PinnedVerifier::verify_server_cert`
  pub verify_server_cert : Public → List ℕ → Verdict
  unfolding of_certificate
  verify_server_cert pinned end_entity = of_certificate pinned (C.from_der end_entity)

  -- `rustls::ClientConfig`, by the key that its verifier pins.
  pub record ClientConfig : Type 0 where
    pub pinned : Public
    pub identity : ClientIdentity
    pub alpn_protocols : List (List ℕ)

  unfoldable pub tunnel_client_config :
      ℕ → WarpConfig → Secret → List (List ℕ) → Outcome ClientConfig
  unfolding self_signed_identity then_try or_err
  tunnel_client_config now cfg secret alpn =
      then_try (or_err config (C.from_public_key_pem (trim cfg.endpoint_pub_key))) (λ pinned.
        then_try (self_signed_identity now secret) (λ identity.
          then_try (or_err config C.with_protocol_versions) (λ builder.
            then_try
              (or_err config (C.with_client_auth_cert builder identity.cert_der identity.key_der))
              (λ client.
                ok (record { pinned = pinned; identity = identity; alpn_protocols = alpn })))))

-- `AcceptAny::verify_server_cert`
unfoldable pub accept_any : List ℕ → Verdict
accept_any end_entity = verified

-- The `rustls::ClientConfig` of the egress trace, which presents no identity, by the judgement of its
-- verifier.
pub record InsecureConfig : Type 0 where
  pub verifier : List ℕ → Verdict
  pub alpn_protocols : List (List ℕ)

-- The builder is what rustls gives for TLS 1.3.
unfoldable pub insecure_client_config :
    {Builder : Type 0} → Option Builder → List (List ℕ) → Outcome InsecureConfig
unfolding then_try or_err accept_any
insecure_client_config builder alpn =
    then_try (or_err config builder)
      (λ b. ok (record { verifier = accept_any; alpn_protocols = alpn }))
