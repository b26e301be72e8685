-- ===== src/Dial/Device.antt =====
-- From a registration to the tunnel of its configuration: the part of `build_tunnel` of
-- crates/warp-masque/src/pool.rs up to the dial, and the key on the way there.
use warp_proxy.Base.{ℕ, ◌≡◌, ap, subst, sym, ◌∙◌, arith, Option, none, some}
use warp_proxy.Config.{WarpConfig, trim}
use warp_proxy.Registration.{Api, Outcome, ok, err, then_try, RegisterOptions}
use warp_proxy.Registration.Client.{Session, register}
use warp_proxy.Registration.Client.Laws.{Registered, register-Registered}
use warp_proxy.Registration.Outcomes.{then_try-ok, ok-injective}
use warp_proxy.Identity.{Crypto, ClientConfig, from_private_b64, private_b64, public_spki_b64}
use warp_proxy.Identity.Laws.{RoundTrips, from_private_b64-private_b64}
use warp_proxy.Pool.{Transport}
use warp_proxy.Dial.{Net, Tunnel, connect_with}
use warp_proxy.Dial.Laws.{Dialled, connect_with-Dialled}

abbrev pub to_option : {A : Type 0} → Outcome A → Option A
to_option (ok a) = some a
to_option (err e) = none

some-ok : {A : Type 0} (r : Outcome A) (a : A) → to_option r ≡ some a → r ≡ ok a
some-ok (ok b) a e = ap ok (ground (arith, e))
some-ok (err x) a e = absurd (ground (arith, e))

module _ (C : Crypto) where
  -- The registration, where a key pair is a device's key and is written as that is.
  abbrev pub keyed : (A : Api) → (A.World → C.Secret × A.World) → Api
  keyed A generate = record A {
    Keypair = C.Secret;
    generate = generate;
    public_spki_b64 = λ kp. to_option (public_spki_b64 C kp);
    private_b64 = λ kp. to_option (private_b64 C kp);
  }

module _ (C : Crypto) (N : Net (ClientConfig C)) (now : ℕ) where
  unfoldable pub dial_config : WarpConfig → Transport → Outcome Tunnel
  unfolding then_try
  dial_config cfg transport =
      then_try (from_private_b64 C cfg.private_key) (λ kp. connect_with C N now cfg kp transport)

  module _ (A : Api) (generate : A.World → C.Secret × A.World) where
    abbrev pub api : Api
    api = keyed C A generate

    -- One device: the key that was enrolled is the key that the tunnel is dialled with, and the pin is the
    -- key that the enrolment has answered.
    pub record SameDevice (client : A.Http) (opts : RegisterOptions) (s t : Session api)
        (cfg : WarpConfig) (transport : Transport) : Type 0 where
      pub registered : Registered api client opts s t cfg
      pub enrolled_key : public_spki_b64 C registered.keypair ≡ ok registered.spki
      pub dialled : Dialled C N now cfg registered.keypair transport
      pub pin :
          C.from_public_key_pem (trim registered.built.peer.public_key) ≡ some dialled.client.pinned

    -- Where the registration succeeds and then the dial of its configuration: the tunnel is dialled by a client
    -- that presents the identity of the key whose public half was enrolled, and that pins the key which the
    -- enrolment has answered.
    pub dial_config-SameDevice :
        (R : RoundTrips C) (client : A.Http) (opts : RegisterOptions) (s t : Session api)
        (cfg : WarpConfig) (transport : Transport) (tunnel : Tunnel)
        → register api client opts s ≡ (ok cfg, t)
        → dial_config cfg transport ≡ ok tunnel
        → SameDevice client opts s t cfg transport
    unfolding dial_config
    dial_config-SameDevice R client opts s t cfg transport tunnel e made =
        let r = register-Registered api client opts s t cfg e in
        let saved = some-ok (private_b64 C r.keypair) cfg.private_key r.built.private_key in
        let restored = from_private_b64-private_b64 C R r.keypair cfg.private_key saved in
        let (kp, found, dials) = then_try-ok (from_private_b64 C cfg.private_key) _ tunnel made in
        let same : kp ≡ r.keypair = ok-injective kp r.keypair (sym found ∙ restored) in
        let d =
          connect_with-Dialled C N now cfg r.keypair transport tunnel
            (subst (λ k. connect_with C N now cfg k transport ≡ ok tunnel) same dials) in
        record {
          registered = r;
          enrolled_key = some-ok (public_spki_b64 C r.keypair) r.spki r.public_key;
          dialled = d;
          pin = ap (λ p. C.from_public_key_pem (trim p)) (sym r.built.pinned) ∙ d.configured.pin;
        }
