-- ===== src/Registration/Client/Laws.antt =====
-- What a registration that succeeds has sent, and what its configuration is made of.
use warp_proxy.Base.{ℕ, ◌≡◌, refl, ap, sym, ◌∙◌, List, [], ◌∷◌, ◌++◌, Option, none, some}
use warp_proxy.Base.{Option-cases, inl, inr}
use warp_proxy.Config.{WarpConfig, strip_v4_port, strip_v6_brackets}
use warp_proxy.Registration.{
  Api, Outcome, ok, err, and_then, key, empty_endpoint, no_peers, no_token, RegisterOptions,
  AccountData, Peer, Request,
}
use warp_proxy.Registration.Client.{
  Session, first_peer, decode, send_json, account_request, create_account, enroll_request,
  enroll_key, build_config, enroll, register, default_endpoint_h2_v4,
}
use warp_proxy.Registration.Outcomes.{ok-injective, err_ok, then_try-ok, or_err-ok, and_then-ok}

module _ (A : Api) where
  open A use {World, Http, Keypair}

  -- The configuration, part by part.
  pub record Assembled (kp : Keypair) (token : List ℕ) (account : AccountData) (cfg : WarpConfig)
      : Type 0 where
    pub peer : Peer
    pub at_peer : first_peer account.config.peers ≡ some peer
    pub private_key : A.private_b64 kp ≡ some cfg.private_key
    pub endpoint_v4 : strip_v4_port peer.endpoint.v4 ≡ some cfg.endpoint_v4
    pub endpoint_v6 : strip_v6_brackets peer.endpoint.v6 ≡ some cfg.endpoint_v6
    pub endpoint_h2_v4 : cfg.endpoint_h2_v4 ≡ default_endpoint_h2_v4
    pub pinned : cfg.endpoint_pub_key ≡ peer.public_key
    pub id : cfg.id ≡ account.id
    pub access_token : cfg.access_token ≡ token
    pub ipv4 : cfg.ipv4 ≡ account.config.interface.v4
    pub ipv6 : cfg.ipv6 ≡ account.config.interface.v6

  build_config-Assembled :
      (kp : Keypair) (token : List ℕ) (account : AccountData) (cfg : WarpConfig)
      → build_config A kp token account ≡ ok cfg
      → Assembled kp token account cfg
  unfolding build_config
  build_config-Assembled kp token account cfg e =
      let (peer, found, e1) = then_try-ok _ _ cfg e in
      let (secret, at_secret, e2) = then_try-ok _ _ cfg e1 in
      let (v4, at_v4, e3) = then_try-ok _ _ cfg e2 in
      let (v6, at_v6, e4) = then_try-ok _ _ cfg e3 in
      let made = ok-injective _ cfg e4 in
      record {
        peer = peer;
        at_peer = or_err-ok no_peers _ peer found;
        private_key = or_err-ok key _ secret at_secret ∙ ap (λ c. some c.private_key) made;
        endpoint_v4 = or_err-ok empty_endpoint _ v4 at_v4 ∙ ap (λ c. some c.endpoint_v4) made;
        endpoint_v6 = or_err-ok empty_endpoint _ v6 at_v6 ∙ ap (λ c. some c.endpoint_v6) made;
        endpoint_h2_v4 = sym (ap (λ c. c.endpoint_h2_v4) made);
        pinned = sym (ap (λ c. c.endpoint_pub_key) made);
        id = sym (ap (λ c. c.id) made);
        access_token = sym (ap (λ c. c.access_token) made);
        ipv4 = sym (ap (λ c. c.ipv4) made);
        ipv6 = sym (ap (λ c. c.ipv6) made);
      }

  -- A call of `send_json` on some world, with its answer.
  pub record Exchange (client : Http) (req : Request) (account : AccountData) : Type 0 where
    pub world : World
    pub answer : decode A (A.send world client req).0 ≡ ok account

  -- What is drawn for the account: the WireGuard key, the time of the terms, the serial number, and the
  -- world behind them.
  pub draws : World → List ℕ × List ℕ × List ℕ × World
  draws w =
      let (wg_key, w1) = A.random_wg_pubkey_b64 w in
      let (tos, w2) = A.cf_timestamp_now w1 in
      let (serial, w3) = A.random_android_serial w2 in (wg_key, tos, serial, w3)

  -- What a registration that succeeds has done.
  pub record Registered (client : Http) (opts : RegisterOptions) (s t : Session A)
      (cfg : WarpConfig) : Type 0 where
    pub wg_key : List ℕ
    pub tos : List ℕ
    pub serial : List ℕ
    pub spki : List ℕ
    pub account : AccountData
    pub enrolled : AccountData
    pub keypair : Keypair
    pub created : Exchange client (account_request A opts wg_key tos serial) account
    pub drawn : draws s.world ≡ (wg_key, tos, serial, created.world)
    pub bearer : List ℕ
    pub token : account.token ≡ some bearer
    pub public_key : A.public_spki_b64 keypair ≡ some spki
    pub patched :
        Exchange client (enroll_request A account.id bearer spki opts.device_name) enrolled
    pub generated :
        A.generate (A.send created.world client (account_request A opts wg_key tos serial)).1
        ≡ (keypair, patched.world)
    pub last :
        t.world
        ≡ (A.send patched.world client (enroll_request A account.id bearer spki opts.device_name)).1
    pub built : Assembled keypair bearer enrolled cfg
    pub sent :
        t.sent
        ≡ (s.sent ++ (client, account_request A opts wg_key tos serial) ∷ [])
          ++ (client, enroll_request A account.id bearer spki opts.device_name) ∷ []

  send-Exchange :
      (client : Http) (req : Request) (s : Session A) (account : AccountData)
      → (send_json A client req s).0 ≡ ok account
      → Exchange client req account
  unfolding send_json
  send-Exchange client req s account e = record { world = s.world; answer = e }

  send-sent :
      (client : Http) (req : Request) (s : Session A)
      → (send_json A client req s).1.sent ≡ s.sent ++ (client, req) ∷ []
  unfolding send_json
  send-sent client req s = refl

  send-world :
      (client : Http) (req : Request) (s : Session A)
      → (send_json A client req s).1.world ≡ (A.send s.world client req).1
  unfolding send_json
  send-world client req s = refl

  -- `enroll_key`, when it succeeds, is one call of `send_json`.
  enroll_key-ok :
      (client : Http) (device_id token : List ℕ) (kp : Keypair) (name : Option (List ℕ))
      (s : Session A) (account : AccountData)
      → (enroll_key A client device_id token kp name s).0 ≡ ok account
      → (spki : List ℕ) × (A.public_spki_b64 kp ≡ some spki)
        × (enroll_key A client device_id token kp name s
            ≡ send_json A client (enroll_request A device_id token spki name) s)
  unfolding enroll_key
  enroll_key-ok client device_id token kp name s account e =
      elim (Option-cases (A.public_spki_b64 kp)) [
        | inl missing ↦
            let failed : (enroll_key A client device_id token kp name s).0 ≡ err key =
              rw (enroll_key, missing) refl in
            absurd (err_ok key account (sym failed ∙ e))
        | inr (spki, found) ↦ (spki, found, rw (enroll_key, found) refl)
      ]

  enroll-none :
      (client : Http) (opts : RegisterOptions) (account : AccountData) (s : Session A)
      → account.token ≡ none
      → (enroll A client opts account s).0 ≡ err no_token
  unfolding enroll
  enroll-none client opts account s missing = rw (enroll, missing) refl

  -- `enroll` behind the account `account`.
  enroll_ok :
      (client : Http) (opts : RegisterOptions) (account : AccountData) (token : List ℕ)
      (s t : Session A) (cfg : WarpConfig) (wg_key tos serial : List ℕ) (s0 : Session A)
      → account.token ≡ some token
      → (created : Exchange client (account_request A opts wg_key tos serial) account)
      → draws s0.world ≡ (wg_key, tos, serial, created.world)
      → s.world ≡ (A.send created.world client (account_request A opts wg_key tos serial)).1
      → s.sent ≡ s0.sent ++ (client, account_request A opts wg_key tos serial) ∷ []
      → enroll A client opts account s ≡ (ok cfg, t)
      → Registered client opts s0 t cfg
  unfolding enroll send-Exchange
  enroll_ok client opts account token s t cfg wg_key tos serial s0 has_token created drawn now
        before e =
      let (kp, w) = A.generate s.world in
      let fresh : Session A = record s { world = w } in
      let build : AccountData → Session A → Outcome WarpConfig × Session A =
        λ enrolled u. (build_config A kp token enrolled, u) in
      let opened : and_then (enroll_key A client account.id token kp opts.device_name fresh) build
          ≡ (ok cfg, t) =
        let shut : enroll A client opts account s
            ≡ and_then (enroll_key A client account.id token kp opts.device_name fresh) build =
          rw (enroll, has_token) refl in
        sym shut ∙ e in
      let (enrolled, at_enrolled, rest) =
        and_then-ok (enroll_key A client account.id token kp opts.device_name fresh) build cfg
          (λ j. (opened j).0) in
      let done = sym rest ∙ opened in
      let (spki, found, called) =
        enroll_key-ok client account.id token kp opts.device_name fresh enrolled at_enrolled in
      let built = build_config-Assembled kp token enrolled cfg (λ j. (done j).0) in
      let req = enroll_request A account.id token spki opts.device_name in
      record {
        wg_key = wg_key;
        tos = tos;
        serial = serial;
        spki = spki;
        account = account;
        enrolled = enrolled;
        keypair = kp;
        created = created;
        drawn = drawn;
        generated = ap A.generate (sym now);
        last =
            sym (λ j. (done j).1.world) ∙ (λ j. (called j).1.world) ∙ send-world client req fresh;
        bearer = token;
        token = has_token;
        public_key = found;
        patched = send-Exchange client req fresh enrolled ((λ j. (sym called j).0) ∙ at_enrolled);
        built = built;
        sent =
            sym (λ j. (done j).1.sent)
            ∙ (λ j. (called j).1.sent)
            ∙ send-sent client req fresh
            ∙ ap (λ l. l ++ (client, req) ∷ []) before;
      }

  -- A registration that succeeds has sent two requests: the POST that creates an account, with the key,
  -- the time and the serial number that are drawn at its start, and the PATCH of that account on its
  -- token with the public key of the pair that the generator gives behind the first answer, in the state
  -- that the generator leaves; its configuration has that token, that pair's private key, and the
  -- endpoint, pin and addresses of the second answer.
  pub register-Registered :
      (client : Http) (opts : RegisterOptions) (s t : Session A) (cfg : WarpConfig)
      → register A client opts s ≡ (ok cfg, t)
      → Registered client opts s t cfg
  unfolding register create_account send-Exchange draws
  register-Registered client opts s t cfg e =
      let next : AccountData → Session A → Outcome WarpConfig × Session A =
        λ account u. enroll A client opts account u in
      let (account, at_account, rest) =
        and_then-ok (create_account A client opts s) next cfg (λ j. (e j).0) in
      let (wg_key, w1) = A.random_wg_pubkey_b64 s.world in
      let (tos, w2) = A.cf_timestamp_now w1 in
      let (serial, w3) = A.random_android_serial w2 in
      let req = account_request A opts wg_key tos serial in
      let drawn : Session A = record s { world = w3 } in
      let created = send-Exchange client req drawn account at_account in
      let done : enroll A client opts account (send_json A client req drawn).1 ≡ (ok cfg, t) =
        sym rest ∙ e in
      elim (Option-cases account.token) [
        | inl missing ↦
            let failed : (enroll A client opts account (send_json A client req drawn).1).0
                ≡ err no_token =
              enroll-none client opts account _ missing in
            absurd (err_ok no_token cfg (sym failed ∙ (λ j. (done j).0)))
        | inr (token, found) ↦
            enroll_ok client opts account token _ t cfg wg_key tos serial s found created refl
              (send-world client req drawn) (send-sent client req drawn) done
      ]
