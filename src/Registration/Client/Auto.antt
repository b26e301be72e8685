-- ===== src/Registration/Client/Auto.antt =====
-- `register_auto` of crates/warp-masque/src/register.rs: the direct attempt, and the one that bypasses DNS.
use warp_proxy.Base.{ℕ, ◌≡◌, refl, true, false, List, [], ◌∷◌, ◌⊎◌, inl, inr}
use warp_proxy.Config.{WarpConfig}
use warp_proxy.Registration.{
  Api, Outcome, ok, err, Error, http, bypass_unavailable, register_failed, or_err, RegisterOptions,
}
use warp_proxy.Registration.Doh.{
  api_addrs, fallbacks, api_fallback_ips, Equality, contains, contains-nil, AllIn-head,
  api_addrs-Distinct,
}
use warp_proxy.Registration.Client.{
  Session, register, with_default_client, with_doh_bypass, bypass, register_auto, is_none,
}

Outcome-cases : {A : Type 0} (r : Outcome A) → ((a : A) × (r ≡ ok a)) ⊎ ((e : Error) × (r ≡ err e))
Outcome-cases (ok a) = inl (a, refl)
Outcome-cases (err e) = inr (e, refl)

module _ (A : Api) where
  -- The error of a second attempt, after the error `d` of the first.
  abbrev After : Error → Error → Type 0
  After d e = (b : Error) × ((e ≡ bypass_unavailable d b) ⊎ (e ≡ register_failed d b))

  -- What a registration that may try twice has done.
  pub Tried : RegisterOptions → Session A → Outcome WarpConfig × Session A → Type 0
  Tried opts s (ok cfg, t) =
      (client : A.Http) × (before : Session A) × (register A client opts before ≡ (ok cfg, t))
  Tried opts s (err e, t) =
      (with_default_client A ≡ err e)
      ⊎ ((client : A.Http) × (d : Error) × ((register A client opts s).0 ≡ err d) × After d e)

  bypass-Tried :
      (opts : RegisterOptions) (client : A.Http) (d : Error) (s t : Session A)
      → (register A client opts s).0 ≡ err d
      → Tried opts s (bypass A opts d t)
  unfolding bypass Tried
  bypass-Tried opts client d s t failed = elim (Outcome-cases (with_doh_bypass A t).0) [
    | inr (b, missing) ↦ rw (bypass, missing) (inr (client, d, failed, (b, inl refl)))
    | inl (second, found) ↦
        elim (Outcome-cases (register A second opts (with_doh_bypass A t).1).0) [
          | inl (cfg, done) ↦
              rw (bypass, found, done)
                (
                  second,
                  (with_doh_bypass A t).1,
                  λ j. (done j, (register A second opts (with_doh_bypass A t).1).1),
                )
          | inr (b, again) ↦ rw (bypass, found, again) (inr (client, d, failed, (b, inr refl)))
        ]
  ]

  -- Whatever happens, the configuration that `register_auto` gives is that of one run of `register`; and
  -- an error is that of the default client, or it carries the error of the direct run beside the second.
  pub register_auto-Tried :
      (opts : RegisterOptions) (s : Session A) → Tried opts s (register_auto A opts s)
  unfolding register_auto Tried
  register_auto-Tried opts s = elim (Outcome-cases (with_default_client A)) [
    | inr (e, missing) ↦ rw (register_auto, missing) (inl missing)
    | inl (client, found) ↦ elim (Outcome-cases (register A client opts s).0) [
      | inl (cfg, done) ↦
          rw (register_auto, found, done) (client, s, λ j. (done j, (register A client opts s).1))
      | inr (d, failed) ↦
          rw (register_auto, found, failed)
            (bypass-Tried opts client d s (register A client opts s).1 failed)
    ]
  ]

  not_none :
      (ip : A.Ip) (addrs : List (A.Ip × ℕ)) → contains A ip addrs ≡ true → is_none A addrs ≡ false
  unfolding is_none
  not_none ip [] e = absurd (contains-nil A ip e)
  not_none ip (a ∷ addrs) e = refl

  -- The bypass always has an address to pin: where the first fallback parses as an address, the error that
  -- DoH could not resolve the API's host does not occur.
  pub with_doh_bypass-resolved :
      (Eq : Equality A) (ip : A.Ip) (rest : List A.Ip) (s : Session A)
      → fallbacks A api_fallback_ips ≡ ip ∷ rest
      → (with_doh_bypass A s).0 ≡ or_err http (A.pinned_client (api_addrs A s.world).0)
  unfolding with_doh_bypass
  with_doh_bypass-resolved Eq ip rest s parsed =
      let all = (api_addrs-Distinct A Eq s.world).2 in
      rw (not_none ip (api_addrs A s.world).0 (AllIn-head A Eq ip rest _ _ parsed all)) refl
