-- ===== src/Registration/Client.antt =====
-- `RegistrationClient` of crates/warp-masque/src/register.rs.
pub mod Laws
pub mod Auto
pub mod Tests
use warp_proxy.Base.{ℕ, List, [], ◌∷◌, ◌++◌, Option, none, some, Bool, true, false}
use warp_proxy.Base.{if◌then◌else◌}
use warp_proxy.Base.Text.{text}
use warp_proxy.Config.{WarpConfig, strip_v4_port, strip_v6_brackets}
use warp_proxy.Registration.{
  Api, Outcome, ok, err, or_err, then_try, and_then, is_success, Error, key, empty_endpoint, http,
  json, api, no_token, no_peers, unresolved, bypass_unavailable, register_failed, RegisterOptions,
  AccountData, Peer, Request, Method, post, patch,
}
use warp_proxy.Registration.Doh.{api_addrs}

-- `{API_URL}/{API_VERSION}/reg`
abbrev pub reg_url : List ℕ
reg_url = text "https://api.cloudflareclient.com/v0a4471/reg"

abbrev pub default_endpoint_h2_v4 : List ℕ
default_endpoint_h2_v4 = text "162.159.198.2"

-- The headers of `base_request`.
abbrev pub base_headers : List (List ℕ × List ℕ)
base_headers =
    (text "User-Agent", text "WARP for Android")
    ∷ (text "CF-Client-Version", text "a-6.35-4471")
    ∷ (text "Content-Type", text "application/json; charset=UTF-8")
    ∷ (text "Connection", text "Keep-Alive")
    ∷ []

-- `Vec::first_peer`
unfoldable pub first_peer : List Peer → Option Peer
first_peer [] = none
first_peer (peer ∷ peers) = some peer

-- A header or a member for a value that may be missing.
unfoldable pub optional : List ℕ → Option (List ℕ) → List (List ℕ × List ℕ)
optional name none = []
optional name (some value) = (name, value) ∷ []

module _ (A : Api) where
  open A use {World, Http, Keypair}

  -- The world, and the requests that were sent, with their clients.
  pub record Session : Type 0 where
    pub world : World
    pub sent : List (Http × Request)

  -- What `send_json` makes of the answer.
  unfoldable pub decode : Option (ℕ × List ℕ) → Outcome AccountData
  unfolding is_success or_err
  decode none = err http
  decode (some (status, body)) =
      if is_success status then or_err json (A.from_str body) else err (api status body)

  unfoldable pub send_json : Http → Request → Session → Outcome AccountData × Session
  unfolding decode
  send_json client req s =
      let (answer, w) = A.send s.world client req in
      (decode answer, record { world = w; sent = s.sent ++ (client, req) ∷ [] })

  unfoldable pub account_request : RegisterOptions → List ℕ → List ℕ → List ℕ → Request
  unfolding optional
  account_request opts wg_key tos serial = record {
    method = post;
    url = reg_url;
    headers = base_headers ++ optional (text "CF-Access-Jwt-Assertion") opts.jwt;
    body =
        (text "key", wg_key)
        ∷ (text "install_id", [])
        ∷ (text "fcm_token", [])
        ∷ (text "tos", tos)
        ∷ (text "model", opts.model)
        ∷ (text "serial_number", serial)
        ∷ (text "os_version", [])
        ∷ (text "key_type", text "curve25519")
        ∷ (text "tunnel_type", text "wireguard")
        ∷ (text "locale", opts.locale)
        ∷ [];
  }

  unfoldable pub create_account : Http → RegisterOptions → Session → Outcome AccountData × Session
  unfolding account_request send_json
  create_account client opts s =
      let (wg_key, w1) = A.random_wg_pubkey_b64 s.world in
      let (tos, w2) = A.cf_timestamp_now w1 in
      let (serial, w3) = A.random_android_serial w2 in
      send_json client (account_request opts wg_key tos serial) (record s { world = w3 })

  unfoldable pub enroll_request : List ℕ → List ℕ → List ℕ → Option (List ℕ) → Request
  unfolding optional
  enroll_request device_id token spki device_name = record {
    method = patch;
    url = reg_url ++ text "/" ++ device_id;
    headers = base_headers ++ (text "Authorization", text "Bearer " ++ token) ∷ [];
    body =
        (text "key", spki)
        ∷ (text "key_type", text "secp256r1")
        ∷ (text "tunnel_type", text "masque")
        ∷ optional (text "name") device_name;
  }

  unfoldable pub enroll_key :
      Http → List ℕ → List ℕ → Keypair → Option (List ℕ) → Session → Outcome AccountData × Session
  unfolding enroll_request send_json
  enroll_key client device_id token kp device_name s = elim (A.public_spki_b64 kp) [
    | none ↦ (err key, s)
    | some spki ↦ send_json client (enroll_request device_id token spki device_name) s
  ]

  unfoldable pub build_config : Keypair → List ℕ → AccountData → Outcome WarpConfig
  unfolding then_try or_err first_peer
  build_config kp token account =
      then_try (or_err no_peers (first_peer account.config.peers)) (λ peer.
        then_try (or_err key (A.private_b64 kp)) (λ private_key.
          then_try (or_err empty_endpoint (strip_v4_port peer.endpoint.v4)) (λ v4.
            then_try (or_err empty_endpoint (strip_v6_brackets peer.endpoint.v6)) (λ v6.
              ok (record {
                private_key = private_key;
                endpoint_v4 = v4;
                endpoint_v6 = v6;
                endpoint_h2_v4 = default_endpoint_h2_v4;
                endpoint_h2_v6 = [];
                endpoint_pub_key = peer.public_key;
                id = account.id;
                access_token = token;
                ipv4 = account.config.interface.v4;
                ipv6 = account.config.interface.v6;
              })))))

  -- The part of `register` behind the account.
  unfoldable pub enroll :
      Http → RegisterOptions → AccountData → Session → Outcome WarpConfig × Session
  unfolding enroll_key build_config and_then
  enroll client opts account s = elim account.token [
    | none ↦ (err no_token, s)
    | some token ↦
        let (kp, w) = A.generate s.world in
        and_then (enroll_key client account.id token kp opts.device_name (record s { world = w }))
          (λ enrolled t. (build_config kp token enrolled, t))
  ]

  unfoldable pub register : Http → RegisterOptions → Session → Outcome WarpConfig × Session
  unfolding create_account enroll and_then
  register client opts s =
      and_then (create_account client opts s) (λ account t. enroll client opts account t)

  unfoldable pub with_default_client : Outcome Http
  unfolding or_err
  with_default_client = or_err http A.default_client

  is_none : List (A.Ip × ℕ) → Bool
  is_none [] = true
  is_none (a ∷ addrs) = false

  unfoldable pub with_doh_bypass : Session → Outcome Http × Session
  unfolding or_err is_none
  with_doh_bypass s =
      let (addrs, w) = api_addrs A s.world in
      (
        if is_none addrs then err unresolved else or_err http (A.pinned_client addrs),
        record s { world = w },
      )

  -- The second attempt of `register_auto`, behind the error of the first_peer.
  unfoldable pub bypass : RegisterOptions → Error → Session → Outcome WarpConfig × Session
  unfolding with_doh_bypass register
  bypass opts direct_err s =
      let (client, t) = with_doh_bypass s in
      elim client [
        | err e ↦ (err (bypass_unavailable direct_err e), t)
        | ok http_client ↦
            let (second, u) = register http_client opts t in
            elim second [ ok cfg ↦ (ok cfg, u) | err e ↦ (err (register_failed direct_err e), u) ]
      ]

  pub register_auto : RegisterOptions → Session → Outcome WarpConfig × Session
  unfolding with_default_client register bypass
  register_auto opts s = elim with_default_client [
    | err e ↦ (err e, s)
    | ok client ↦
        let (direct, t) = register client opts s in
        elim direct [ ok cfg ↦ (ok cfg, t) | err direct_err ↦ bypass opts direct_err t ]
  ]
