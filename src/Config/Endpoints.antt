-- ===== src/Config/Endpoints.antt =====
-- What the parsing of endpoints makes of the texts that the registration API sends.
use warp_proxy.Base.{
  ℕ, suc, ◌-◌, ◌≡◌, refl, ap, ◌∙◌, arith, true, false, ltb, List, [], ◌∷◌, ◌++◌, none, some, All,
  length, take-append, ◌==◌, ==_refl,
}
use warp_proxy.Base.Text.{Without}
use warp_proxy.Config.{
  is_whitespace, trim, trim_start, trim_end, rsplit_once, find_char, rfind_char, v4_host,
  v6_address, strip_v4_port, strip_v6_brackets,
}

-- A text without white space.
abbrev pub Solid : List ℕ → Type 0
Solid t = All (λ c. is_whitespace c ≡ false) t

trim_end-Solid : (t : List ℕ) → Solid t → trim_end t ≡ t
unfolding trim_end
trim_end-Solid [] h = refl
trim_end-Solid (c ∷ []) h = rw h.0 refl
trim_end-Solid (c ∷ d ∷ t) h = rw (trim_end-Solid (d ∷ t) h.1) refl

pub trim-Solid : (t : List ℕ) → Solid t → trim t ≡ t
unfolding trim trim_start
trim-Solid [] h = refl
trim-Solid (c ∷ t) h = rw h.0 (trim_end-Solid (c ∷ t) h)

rsplit_once-Without : (sep : ℕ) (v : List ℕ) → Without sep v → rsplit_once sep v ≡ none
unfolding rsplit_once
rsplit_once-Without sep [] h = refl
rsplit_once-Without sep (c ∷ v) h =
    let other : (c == sep) ≡ false = ground (arith, h.0) in
    rw (rsplit_once-Without sep v h.1, other) refl

rsplit_once-append :
    (sep : ℕ) (k v : List ℕ) → Without sep v → rsplit_once sep (k ++ sep ∷ v) ≡ some (k, v)
unfolding rsplit_once
rsplit_once-append sep [] v h = rw (rsplit_once-Without sep v h, ==_refl sep) refl
rsplit_once-append sep (c ∷ k) v h = rw (rsplit_once-append sep k v h) refl

-- From `host:port`, a text without white space whose port has no colon, `strip_v4_port` takes the host.
pub strip_v4_port-host :
    (c : ℕ) (host port : List ℕ)
    → Solid (c ∷ host ++ 0x3a ∷ port)
    → Without 0x3a port
    → strip_v4_port (c ∷ host ++ 0x3a ∷ port) ≡ some (c ∷ host)
unfolding strip_v4_port
strip_v4_port-host c host port solid plain =
    ap v4_host (trim-Solid (c ∷ host ++ 0x3a ∷ port) solid)
    ∙ rw (v4_host, rsplit_once-append 0x3a (c ∷ host) port plain) refl

rfind_char-Without : (x : ℕ) (t : List ℕ) → Without x t → rfind_char x t ≡ none
unfolding rfind_char
rfind_char-Without x [] h = refl
rfind_char-Without x (c ∷ t) h =
    let other : (c == x) ≡ false = ground (arith, h.0) in
    rw (rfind_char-Without x t h.1, other) refl

rfind_char-append :
    (x : ℕ) (a t : List ℕ) → Without x t → rfind_char x (a ++ x ∷ t) ≡ some (length a)
unfolding rfind_char
rfind_char-append x [] t h = rw (rfind_char-Without x t h, ==_refl x) refl
rfind_char-append x (c ∷ a) t h = rw (rfind_char-append x a t h) refl

v6_address-bracketed :
    (addr rest : List ℕ) → Without 0x5d rest → v6_address (0x5b ∷ addr ++ 0x5d ∷ rest) ≡ some addr
unfolding v6_address find_char
v6_address-bracketed addr rest plain =
    let inside : ltb 0 (suc (length addr)) ≡ true = ground arith in
    rw (rfind_char-append 0x5d (0x5b ∷ addr) rest plain, inside)
      (ap some (take-append addr (0x5d ∷ rest) (suc (length addr) - 1) (omega arith)))

-- From `[addr]` and what follows it, a text without white space in which no bracket closes later,
-- `strip_v6_brackets` takes the address.
pub strip_v6_brackets-address :
    (addr rest : List ℕ)
    → Solid (0x5b ∷ addr ++ 0x5d ∷ rest)
    → Without 0x5d rest
    → strip_v6_brackets (0x5b ∷ addr ++ 0x5d ∷ rest) ≡ some addr
unfolding strip_v6_brackets
strip_v6_brackets-address addr rest solid plain =
    ap v6_address (trim-Solid (0x5b ∷ addr ++ 0x5d ∷ rest) solid)
    ∙ v6_address-bracketed addr rest plain
