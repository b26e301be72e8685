-- ===== src/Config.antt =====
-- The data of crates/warp-masque/src/config.rs, and its parsing of endpoints. A text is the list of its
-- bytes in WarpConfig, and of its code points where it is parsed.
pub mod Endpoints
mod Tests
use warp_proxy.Base.{ℕ, zero, suc, ◌+◌, ◌-◌, Bool, ◌&&◌, ◌||◌, List, [], ◌∷◌, Option, none, some}
use warp_proxy.Base.{◌==◌, ltb, leb, if◌then◌else◌, take, drop}

-- `WarpConfig`: a registered device.
pub record WarpConfig : Type 0 where
  pub private_key : List ℕ
  pub endpoint_v4 : List ℕ
  pub endpoint_v6 : List ℕ
  pub endpoint_h2_v4 : List ℕ
  pub endpoint_h2_v6 : List ℕ
  pub endpoint_pub_key : List ℕ
  pub id : List ℕ
  pub access_token : List ℕ
  pub ipv4 : List ℕ
  pub ipv6 : List ℕ

-- `char::is_whitespace`: the White_Space characters of Unicode.
unfoldable pub is_whitespace : ℕ → Bool
is_whitespace c =
    (leb 9 c && leb c 13)
    || c == 0x20
    || c == 0x85
    || c == 0xa0
    || c == 0x1680
    || (leb 0x2000 c && leb c 0x200a)
    || c == 0x2028
    || c == 0x2029
    || c == 0x202f
    || c == 0x205f
    || c == 0x3000

trim_start : List ℕ → List ℕ
unfolding is_whitespace
trim_start [] = []
trim_start (c ∷ t) = let rest = trim_start t in if is_whitespace c then rest else c ∷ t

trim_end : List ℕ → List ℕ
unfolding is_whitespace
trim_end [] = []
trim_end (c ∷ t) =
    let rest = trim_end t in
    elim rest [ [] ↦ if is_whitespace c then [] else c ∷ [] | d ∷ ds ↦ c ∷ d ∷ ds ]

-- `str::trim`
pub trim : List ℕ → List ℕ
unfolding trim_start trim_end
trim t = trim_end (trim_start t)

-- `str::rsplit_once` at a character.
rsplit_once : ℕ → List ℕ → Option (List ℕ × List ℕ)
rsplit_once sep [] = none
rsplit_once sep (c ∷ t) = elim (rsplit_once sep t) [
  | some (k, v) ↦ some (c ∷ k, v)
  | none ↦ if c == sep then some ([], t) else none
]

-- `str::find` and `str::rfind` of a character.
find_char : ℕ → List ℕ → Option ℕ
find_char x [] = none
find_char x (c ∷ t) =
    let rest = find_char x t in
    if c == x then some 0 else (elim rest [ none ↦ none | some i ↦ some (suc i) ])

rfind_char : ℕ → List ℕ → Option ℕ
rfind_char x [] = none
rfind_char x (c ∷ t) = elim (rfind_char x t) [
  | some i ↦ some (suc i)
  | none ↦ if c == x then some 0 else none
]

-- `Error::Response` is `none`.
or_whole : List ℕ → Option (List ℕ)
or_whole [] = none
or_whole (c ∷ s) = some (c ∷ s)

-- The two functions behind `let s = s.trim()`.
v4_host : List ℕ → Option (List ℕ)
unfolding rsplit_once or_whole
v4_host s = elim (rsplit_once 0x3a s) [
  | none ↦ or_whole s
  | some ([], port) ↦ or_whole s
  | some (c ∷ host, port) ↦ some (c ∷ host)
]

v6_address : List ℕ → Option (List ℕ)
unfolding find_char rfind_char or_whole
v6_address s = elim (find_char 0x5b s) [
  | none ↦ or_whole s
  | some start ↦ elim (rfind_char 0x5d s) [
    | none ↦ or_whole s
    | some end ↦
        if ltb start end then some (take (end - (start + 1)) (drop (start + 1) s)) else or_whole s
  ]
]

unfoldable pub strip_v4_port : List ℕ → Option (List ℕ)
unfolding trim v4_host
strip_v4_port text = v4_host (trim text)

unfoldable pub strip_v6_brackets : List ℕ → Option (List ℕ)
unfolding trim v6_address
strip_v6_brackets text = v6_address (trim text)
