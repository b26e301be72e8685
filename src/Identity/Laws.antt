-- ===== src/Identity/Laws.antt =====
-- What the pin accepts, and that a key is restored from what is saved of it.
use warp_proxy.Base.{ℕ, ◌≡◌, refl, ap, sym, ◌∙◌, Bool, true, false, List, some, ◌↔◌}
use warp_proxy.Base.{Bool-cases, Option-cases, inl, inr, arith}
use warp_proxy.Config.{WarpConfig, trim}
use warp_proxy.Config.Endpoints.{Solid, trim-Solid}
use warp_proxy.Registration.{ok, or_err, then_try, key, config}
use warp_proxy.Registration.Outcomes.{then_try-ok, or_err-ok, ok-injective}
use warp_proxy.Identity.{
  Crypto, Verdict, verified, refused, verify_server_cert, of_certificate, of_spki, compare_pin,
  from_private_b64, private_b64, ClientConfig, tunnel_client_config, self_signed_identity,
}

module _ (C : Crypto) where
  -- A certificate whose key is the pinned one.
  pub record HasKey (pinned : C.Public) (end_entity : List ℕ) : Type 0 where
    pub certificate : C.Certificate
    pub der : List ℕ
    pub got : C.Public
    pub parsed : C.from_der end_entity ≡ some certificate
    pub spki : C.spki_der certificate ≡ some der
    pub public : C.from_public_key_der der ≡ some got
    pub agrees : C.same_key got pinned ≡ true

  is_verified : Verdict → Bool
  is_verified verified = true
  is_verified (refused why) = false

  refused_verified : {A : Type 0} (v : Verdict) → is_verified v ≡ false → v ≡ verified → A
  unfolding is_verified
  refused_verified v no_pass e = absurd (ground (arith, sym no_pass ∙ ap is_verified e))

  -- The verifier passes exactly the certificates that parse and carry the pinned key; neither the name of
  -- the server nor who signed the certificate matters.
  pub verify_server_cert_iff :
      (pinned : C.Public) (end_entity : List ℕ)
      → (verify_server_cert C pinned end_entity ≡ verified) ↔ HasKey pinned end_entity
  unfolding verify_server_cert of_certificate of_spki compare_pin is_verified
  verify_server_cert_iff pinned end_entity =
      (passes, λ h. rw (verify_server_cert, h.parsed, h.spki, h.public, h.agrees) refl)
    where
      passes : verify_server_cert C pinned end_entity ≡ verified → HasKey pinned end_entity
      passes e = elim (Option-cases (C.from_der end_entity)) [
        | inl bad ↦
            refused_verified (verify_server_cert C pinned end_entity)
              (rw (verify_server_cert, bad) refl) e
        | inr (certificate, parsed) ↦ elim (Option-cases (C.spki_der certificate)) [
          | inl bad ↦
              refused_verified (verify_server_cert C pinned end_entity)
                (rw (verify_server_cert, parsed, bad) refl) e
          | inr (der, spki) ↦ elim (Option-cases (C.from_public_key_der der)) [
            | inl bad ↦
                refused_verified (verify_server_cert C pinned end_entity)
                  (rw (verify_server_cert, parsed, spki, bad) refl) e
            | inr (got, public) ↦ elim (Bool-cases (C.same_key got pinned)) [
              | inl same ↦ record {
                certificate = certificate;
                der = der;
                got = got;
                parsed = parsed;
                spki = spki;
                public = public;
                agrees = same;
              }
              | inr other ↦
                  refused_verified (verify_server_cert C pinned end_entity)
                    (rw (verify_server_cert, parsed, spki, public, other) refl) e
            ]
          ]
        ]
      ]

  -- What the restoring of a key relies on in base64 and in SEC1: each reads back what it has written, and
  -- base64 has no white space.
  pub record RoundTrips : Type 0 where
    pub b64_encode-Solid : (bytes : List ℕ) → Solid (C.b64_encode bytes)
    pub b64_decode-b64_encode : (bytes : List ℕ) → C.b64_decode (C.b64_encode bytes) ≡ some bytes
    pub from_sec1_der-to_sec1_der :
        (s : C.Secret) (der : List ℕ) → C.to_sec1_der s ≡ some der → C.from_sec1_der der ≡ some s

  -- A key is restored from the text that is saved of it.
  pub from_private_b64-private_b64 :
      (R : RoundTrips) (s : C.Secret) (saved : List ℕ)
      → private_b64 C s ≡ ok saved
      → from_private_b64 C saved ≡ ok s
  unfolding private_b64 from_private_b64
  from_private_b64-private_b64 R s saved e =
      let (der, written, text) = then_try-ok (or_err key (C.to_sec1_der s)) _ saved e in
      let same : C.b64_encode der ≡ saved = ok-injective (C.b64_encode der) saved text in
      ap (λ t. from_private_b64 C t) (sym same)
      ∙ restored der
          (ap C.b64_decode (trim-Solid _ (R.b64_encode-Solid der)) ∙ R.b64_decode-b64_encode der)
          (R.from_sec1_der-to_sec1_der s der (or_err-ok key _ der written))
    where
      restored :
          (der : List ℕ)
          → C.b64_decode (trim (C.b64_encode der)) ≡ some der
          → C.from_sec1_der der ≡ some s
          → from_private_b64 C (C.b64_encode der) ≡ ok s
      restored der decodes parses =
          unfold then_try or_err in rw (from_private_b64, decodes, parses) refl

  -- The parts of a configuration for a tunnel.
  pub record Configured (now : ℕ) (cfg : WarpConfig) (secret : C.Secret) (alpn : List (List ℕ))
      (client : ClientConfig C) : Type 0 where
    pub pin : C.from_public_key_pem (trim cfg.endpoint_pub_key) ≡ some client.pinned
    pub identity : self_signed_identity C now secret ≡ ok client.identity
    pub alpn_protocols : client.alpn_protocols ≡ alpn

  pub tunnel_client_config-Configured :
      (now : ℕ) (cfg : WarpConfig) (secret : C.Secret) (alpn : List (List ℕ))
      (client : ClientConfig C)
      → tunnel_client_config C now cfg secret alpn ≡ ok client
      → Configured now cfg secret alpn client
  unfolding tunnel_client_config
  tunnel_client_config-Configured now cfg secret alpn client e =
      let (pinned, at_pinned, e1) =
        then_try-ok (or_err config (C.from_public_key_pem (trim cfg.endpoint_pub_key))) _ client
          e in
      let (identity, at_identity, e2) =
        then_try-ok (self_signed_identity C now secret) _ client e1 in
      let (builder, at_builder, e3) =
        then_try-ok (or_err config C.with_protocol_versions) _ client e2 in
      let (auth, at_auth, e4) =
        then_try-ok
          (or_err config (C.with_client_auth_cert builder identity.cert_der identity.key_der)) _
          client e3 in
      let made = ok-injective _ client e4 in
      record {
        pin = or_err-ok config _ pinned at_pinned ∙ ap (λ c. some c.pinned) made;
        identity = at_identity ∙ ap (λ c. ok c.identity) made;
        alpn_protocols = sym (ap (λ c. c.alpn_protocols) made);
      }
