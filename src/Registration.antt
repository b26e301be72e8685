-- ===== src/Registration.antt =====
-- Registration: crates/warp-masque/src/register.rs, and the bootstrap of crates/warp-masque/src/doh.rs.
--
-- A text is the list of its code points. A JSON body is the list of its members, whose values are texts.
-- An attempt takes a session and gives an outcome with the session behind it.
pub mod Outcomes
pub mod Doh
pub mod Client
use warp_proxy.Base.{ℕ, List, [], ◌∷◌, ◌++◌, Option, none, some, Bool, ◌&&◌}
use warp_proxy.Base.{leb}
use warp_proxy.Base.Text.{text}

-- `Error`, without the messages that no code reads; a `Response` error by its reason.
pub data Error : Type 0 where
  key config http json io tunnel : Error
  api : ℕ → List ℕ → Error
  no_token no_peers empty_endpoint unresolved : Error
  bypass_unavailable register_failed : Error → Error → Error

pub data Outcome (A : Type 0) : Type 0 where
  ok : A → Outcome A
  err : Error → Outcome A

-- `ok_or` and `map_err`
unfoldable pub or_err : {A : Type 0} → Error → Option A → Outcome A
or_err e none = err e
or_err e (some a) = ok a

-- `?` on a value.
unfoldable pub then_try : {A B : Type 0} → Outcome A → (A → Outcome B) → Outcome B
then_try (ok a) f = f a
then_try (err e) f = err e

-- `?` behind an await.
unfoldable pub and_then : {A B S : Type 0} → Outcome A × S → (A → S → Outcome B × S) → Outcome B × S
and_then (ok a, s) f = f a s
and_then (err e, s) f = (err e, s)

-- `StatusCode::is_success`
unfoldable pub is_success : ℕ → Bool
is_success status = leb 200 status && leb status 299

-- `RegisterOptions`
pub record RegisterOptions : Type 0 where
  pub model : List ℕ
  pub locale : List ℕ
  pub device_name : Option (List ℕ)
  pub jwt : Option (List ℕ)

-- `RegisterOptions::default`
pub default_options : RegisterOptions
default_options = record {
  model = text "PC";
  locale = text "en_US";
  device_name = none;
  jwt = none;
}

-- `Endpoint` and `Addresses`
pub record Addresses : Type 0 where
  pub v4 : List ℕ
  pub v6 : List ℕ

pub record Peer : Type 0 where
  pub public_key : List ℕ
  pub endpoint : Addresses

-- `RegConfig`, with the addresses of its interface.
pub record RegConfig : Type 0 where
  pub peers : List Peer
  pub interface : Addresses

pub record AccountData : Type 0 where
  pub id : List ℕ
  pub token : Option (List ℕ)
  pub config : RegConfig

pub data Method : Type 0 where
  post patch : Method

pub record Request : Type 0 where
  pub method : Method
  pub url : List ℕ
  pub headers : List (List ℕ × List ℕ)
  pub body : List (List ℕ × List ℕ)

-- What registration uses of reqwest, serde_json, chrono, the keys and the resolver. `none` is an error.
-- `World` is all that a call may change.
pub record Api : Type 1 where
  pub World : Type 0
  pub Http : Type 0
  pub Keypair : Type 0
  pub Ip : Type 0
  pub default_client : Option Http
  pub pinned_client : List (Ip × ℕ) → Option Http
  pub send : World → Http → Request → Option (ℕ × List ℕ) × World
  pub from_str : List ℕ → Option AccountData
  pub random_wg_pubkey_b64 : World → List ℕ × World
  pub random_android_serial : World → List ℕ × World
  pub cf_timestamp_now : World → List ℕ × World
  pub generate : World → Keypair × World
  pub public_spki_b64 : Keypair → Option (List ℕ)
  pub private_b64 : Keypair → Option (List ℕ)
  pub parse_ip : List ℕ → Option Ip
  pub same_ip : Ip → Ip → Bool
  pub ask_doh : World → List ℕ → Option (List (ℕ × List ℕ)) × World
