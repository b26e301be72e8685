-- ===== src/Daemon.antt =====
-- The daemon, crates/warp-proxy/src/main.rs: its arguments, its accounts and its token; and the
-- persistence of an account in crates/warp-masque/src/config.rs.
--
-- The file of account `i` in the state directory is known by `i`, which its name is made from.
pub mod Options
pub mod Accounts
pub mod Token
mod Tests
use warp_proxy.Base.{
  ℕ, zero, suc, ◌+◌, ◌*◌, ◌/◌, ◌%◌, ◌^◌, max, Bool, true, false, ◌&&◌, List, [], ◌∷◌, ◌++◌, Option,
  none, some,
}
use warp_proxy.Base.{◌==◌, ltb, if◌then◌else◌}
use warp_proxy.Base.Text.{text, same}
use warp_proxy.Config.{WarpConfig}
use warp_proxy.Control.{digits}
use warp_proxy.Registration.{
  Api, Outcome, ok, err, or_err, and_then, json, io, RegisterOptions, default_options,
}
use warp_proxy.Registration.Client.{Session, register_auto}

-- `Args`
pub record Args : Type 0 where
  pub accounts : ℕ
  pub socks : List ℕ
  pub control : List ℕ
  pub state_dir : Option (List ℕ)
  pub http2 : Bool

abbrev pub default_args : Args
default_args = record {
  accounts = 2;
  socks = text "127.0.0.1:1080";
  control = text "127.0.0.1:47100";
  state_dir = none;
  http2 = false;
}

-- `str::parse::<usize>`
below_usize : Option ℕ → Option ℕ
below_usize none = none
below_usize (some n) = if ltb n (2 ^ 64) then some n else none

unsigned : List ℕ → Option ℕ
unfolding below_usize
unsigned [] = none
unsigned (c ∷ t) = below_usize (digits 0 (c ∷ t))

unfoldable pub parse_usize : List ℕ → Option ℕ
unfolding unsigned
parse_usize [] = none
parse_usize (c ∷ t) = if c == 0x2b then unsigned t else unsigned (c ∷ t)

unfoldable set_accounts : Args → List ℕ → Args
set_accounts a v = elim (parse_usize v) [ none ↦ a | some n ↦ record a { accounts = n } ]

-- An option that takes a value, and the value; `none` for another argument.
unfoldable with_value : Args → List ℕ → List ℕ → Option Args
unfolding set_accounts
with_value a arg v =
    if same arg (text "--accounts")
    then some (set_accounts a v)
    else if same arg (text "--socks")
    then some (record a { socks = v })
    else if same arg (text "--control")
    then some (record a { control = v })
    else if same arg (text "--state-dir")
    then some (record a { state_dir = some v })
    else none

-- An argument without a value behind it, or that takes none.
unfoldable without_value : Args → List ℕ → Args
without_value a arg =
    if same arg (text "--state-dir")
    then record a { state_dir = none }
    else if same arg (text "--http2")
    then record a { http2 = true }
    else a

-- The `while` loop over the arguments.
pub read_args : Args → List (List ℕ) → Args
unfolding with_value without_value
read_args a [] = a
read_args a (arg ∷ []) = without_value a arg
read_args a (arg ∷ v ∷ rest) =
    let skipped = read_args (without_value a arg) (v ∷ rest) in
    elim (with_value a arg v) [ none ↦ skipped | some b ↦ read_args b rest ]

pub parse_args : List (List ℕ) → Args
unfolding read_args
parse_args argv = let a = read_args default_args argv in record a { accounts = max a.accounts 1 }

-- The digits of a number but its last, of which there are fewer than the number.
leading : ℕ → ℕ → List ℕ
leading zero n = []
leading (suc fuel) n =
    let rest = leading fuel (n / 10) in if ltb n 10 then [] else rest ++ (0x30 + n / 10 % 10) ∷ []

-- A number in a `format!`.
pub decimal : ℕ → List ℕ
unfolding leading
decimal n = leading (suc n) n ++ (0x30 + n % 10) ∷ []

pub options_for : ℕ → RegisterOptions
unfolding decimal
options_for i = record default_options { device_name = some (text "warp-proxy-" ++ decimal i) }

module _ (A : Api) where
  -- The files of the accounts, and which writes fail: with what they then leave of the file, which may be
  -- the old content, a part of the new one, or no file.
  pub record Disk : Type 0 where
    pub session : Session A
    pub files : ℕ → Option (List ℕ)
    pub fails : ℕ → Option (Option (List ℕ))

module _ (A : Api) (to_vec_pretty : WarpConfig → List ℕ)
    (from_slice : List ℕ → Option WarpConfig) where
  -- `WarpConfig::load` of a file that exists.
  pub load : List ℕ → Outcome WarpConfig
  unfolding or_err
  load content = or_err json (from_slice content)

  pub save : WarpConfig → ℕ → Disk A → Outcome Unit × Disk A
  save cfg i d = elim (d.fails i) [
    | none ↦
        (ok tt, record d { files = λ j. if j == i then some (to_vec_pretty cfg) else d.files j })
    | some left ↦ (err io, record d { files = λ j. if j == i then left else d.files j })
  ]

  unfoldable register_account : ℕ → Disk A → Outcome WarpConfig × Disk A
  unfolding options_for
  register_account i d =
      let (cfg, s) = register_auto A (options_for i) d.session in (cfg, record d { session = s })

  -- The body of the loop for account `i`, where there is a state directory.
  unfoldable persisted : ℕ → Disk A → Outcome WarpConfig × Disk A
  unfolding load register_account and_then save
  persisted i d = elim (d.files i) [
    | some content ↦ (load content, d)
    | none ↦
        and_then (register_account i d) (λ cfg t. and_then (save cfg i t) (λ done u. (ok cfg, u)))
  ]

  unfoldable account : Bool → ℕ → Disk A → Outcome WarpConfig × Disk A
  unfolding persisted register_account
  account has_dir i d = if has_dir then persisted i d else register_account i d

  -- The accounts from `i` on, `k` of them.
  pub accounts_from : Bool → ℕ → ℕ → Disk A → Outcome (List WarpConfig) × Disk A
  unfolding account and_then
  accounts_from has_dir i zero d = (ok [], d)
  accounts_from has_dir i (suc k) d =
      and_then (account has_dir i d)
        (λ cfg t. and_then (accounts_from has_dir (i + 1) k t) (λ cfgs u. (ok (cfg ∷ cfgs), u)))

  pub load_or_register : Bool → ℕ → Disk A → Outcome (List WarpConfig) × Disk A
  unfolding accounts_from
  load_or_register has_dir n d = accounts_from has_dir 1 n d

-- `{x:02x}`
hex_digit : ℕ → ℕ
hex_digit n = if ltb n 10 then 0x30 + n else 0x57 + n

-- The hexadecimal text of some bytes: `gen_token` of 16 random ones, and `random_android_serial` of 8.
pub hex : List ℕ → List ℕ
unfolding hex_digit
hex [] = []
hex (b ∷ bytes) = hex_digit (b / 16) ∷ hex_digit (b % 16) ∷ hex bytes
