-- ===== src/Identity/Tests.antt =====
-- Keys that are numbers, and a certificate that is its key.
use warp_proxy.Base.{
  ℕ, ◌≡◌, refl, arith, ap, sym, some-injective, ◌+◌, ◌-◌, List, [], ◌∷◌, Option, none, some,
}
use warp_proxy.Base.{◌==◌, ◌↔◌}
use warp_proxy.Config.{is_whitespace}
use warp_proxy.Config.Endpoints.{Solid}
use warp_proxy.Identity.{Crypto, verified, verify_server_cert}
use warp_proxy.Identity.Laws.{HasKey, verify_server_cert_iff, RoundTrips}

abbrev pub only : List ℕ → Option ℕ
only (s ∷ []) = some s
only _ = none

-- An encoding without white space.
abbrev pub shift : List ℕ → List ℕ
shift [] = []
shift (b ∷ bytes) = (b + 0x10000) ∷ shift bytes

abbrev pub unshift : List ℕ → List ℕ
unshift [] = []
unshift (c ∷ t) = (c - 0x10000) ∷ unshift t

unshift-shift : (bytes : List ℕ) → unshift (shift bytes) ≡ bytes
unshift-shift [] = refl
unshift-shift (b ∷ bytes) =
    λ j. (let same : b + 0x10000 - 0x10000 ≡ b = omega arith in same) j ∷ unshift-shift bytes j

shift-Solid : (bytes : List ℕ) → Solid (shift bytes)
unfolding is_whitespace
shift-Solid [] = tt
shift-Solid (b ∷ bytes) = (ground arith, shift-Solid bytes)

abbrev pub toy_crypto : Crypto
toy_crypto = record {
  Secret = ℕ;
  Public = ℕ;
  b64_encode = shift;
  b64_decode = λ t. some (unshift t);
  to_sec1_der = λ s. some (s ∷ []);
  from_sec1_der = only;
  public_key = λ s. s;
  to_public_key_der = λ p. some (p ∷ []);
  from_public_key_der = only;
  from_public_key_pem = λ t. some 7;
  same_key = λ p q. p == q;
  to_pkcs8_der = λ s. some (s ∷ []);
  RcgenKey = ℕ;
  from_pkcs8_der = only;
  self_signed = λ validity k. some (k ∷ []);
  Certificate = ℕ;
  from_der = only;
  spki_der = λ c. some (c ∷ []);
  Builder = ℕ;
  with_protocol_versions = some 0;
  with_client_auth_cert = λ builder cert k. some builder;
}

only-injective : (s : ℕ) (der : List ℕ) → some (s ∷ []) ≡ some der → only der ≡ some s
only-injective s der e = ap only (sym (some-injective (s ∷ []) der e))

pub toy_RoundTrips : RoundTrips toy_crypto
toy_RoundTrips = record {
  b64_encode-Solid = shift-Solid;
  b64_decode-b64_encode = λ bytes. ap some (unshift-shift bytes);
  from_sec1_der-to_sec1_der = only-injective;
}

verify_server_cert_iff_example :
    (verify_server_cert toy_crypto 7 (7 ∷ []) ≡ verified) ↔ HasKey toy_crypto 7 (7 ∷ [])
verify_server_cert_iff_example = verify_server_cert_iff toy_crypto 7 (7 ∷ [])
