-- ===== src/Registration/Client/Tests.antt =====
-- A registration server with one answer, which the default client does not reach.
use warp_proxy.Base.{ℕ, ◌+◌, ◌≡◌, refl, Bool, true, false, List, [], ◌∷◌, Option, none, some}
use warp_proxy.Base.{◌==◌, ==_iff, length}
use warp_proxy.Base.Text.{text}
use warp_proxy.Config.{WarpConfig, strip_v4_port, strip_v6_brackets}
use warp_proxy.Registration.{
  Api, ok, or_err, default_options, AccountData, and_then, then_try, is_success,
}
use warp_proxy.Registration.Doh.{Equality}
use warp_proxy.Registration.Client.{
  Session, register, register_auto, default_endpoint_h2_v4, build_config, enroll, enroll_key,
  create_account, send_json, decode, first_peer,
}
use warp_proxy.Registration.Client.Laws.{Registered, register-Registered}
use warp_proxy.Registration.Client.Auto.{Tried, register_auto-Tried}

abbrev the_account : AccountData
the_account = record {
  id = text "d1";
  token = some (text "tok");
  config = record {
    peers =
        record {
          public_key = text "pin";
          endpoint = record { v4 = text "1.2.3.4:0"; v6 = text "[1::2]:0" };
        }
        ∷ [];
    interface = record { v4 = text "100.96.0.3"; v6 = [] };
  };
}

abbrev the_answer : Bool → Option (ℕ × List ℕ)
the_answer true = some (200, [])
the_answer false = none

abbrev pub toy : Api
toy = record {
  World = ℕ;
  Http = Bool;
  Keypair = ℕ;
  Ip = ℕ;
  default_client = some false;
  pinned_client = λ addrs. some true;
  send = λ w client req. (the_answer client, w + 1);
  from_str = λ body. some the_account;
  random_wg_pubkey_b64 = λ w. (w ∷ [], w + 1);
  random_android_serial = λ w. (w ∷ [], w + 1);
  cf_timestamp_now = λ w. (w ∷ [], w + 1);
  generate = λ w. (w, w + 1);
  public_spki_b64 = λ kp. some (kp ∷ []);
  private_b64 = λ kp. some (kp ∷ []);
  parse_ip = λ t. some (length t);
  same_ip = λ i j. i == j;
  ask_doh = λ w host. (some ((1, text "9.9.9.9") ∷ (5, text "alias") ∷ []), w + 1);
}

toy_Equality : Equality toy
toy_Equality = record { same_iff = λ i j. ((==_iff i j).0, (==_iff i j).1) }

abbrev pub session : Session toy
session = record { world = 0; sent = [] }

register_auto-Tried_example :
    Tried toy default_options session (register_auto toy default_options session)
register_auto-Tried_example = register_auto-Tried toy default_options session

abbrev pub the_config : WarpConfig
the_config = record {
  private_key = 4 ∷ [];
  endpoint_v4 = text "1.2.3.4";
  endpoint_v6 = text "1::2";
  endpoint_h2_v4 = default_endpoint_h2_v4;
  endpoint_h2_v6 = [];
  endpoint_pub_key = text "pin";
  id = text "d1";
  access_token = text "tok";
  ipv4 = text "100.96.0.3";
  ipv6 = [];
}

abbrev session_after : Session toy
session_after = (register toy true default_options session).1

registers : register toy true default_options session ≡ (ok the_config, session_after)
unfolding register create_account enroll enroll_key send_json decode build_config and_then then_try
    or_err is_success first_peer strip_v4_port strip_v6_brackets
registers = refl

register-Registered_example : Registered toy true default_options session session_after the_config
register-Registered_example =
    register-Registered toy true default_options session session_after the_config registers
