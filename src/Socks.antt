-- ===== src/Socks.antt =====
-- The SOCKS5 server of crates/warp-masque/src/socks.rs: `read_request`, and how a connection is routed.
--
-- The client's side is the bytes that it sends, up to the end of its stream, and those that it has
-- been sent; writes to it succeed. A text is the list of its bytes. What the relays carry after the
-- reply is not modelled.
pub mod Handler
pub mod Request
mod Tests
use warp_proxy.Base.Text.{text, same, ends_with}
use warp_proxy.Base.{
  ℕ, zero, suc, ◌+◌, ◌-◌, ◌*◌, Bool, true, false, ◌||◌, not, List, [], ◌∷◌, ◌++◌, Option, none,
  some, ◌≡◌,
}
use warp_proxy.Base.{◌==◌, ltb, if◌then◌else◌, length, take, drop}

abbrev pub ver : ℕ
ver = 0x05

abbrev pub cmd_connect : ℕ
cmd_connect = 0x01

abbrev pub atyp_v4 : ℕ
atyp_v4 = 0x01

abbrev pub atyp_domain : ℕ
atyp_domain = 0x03

abbrev pub atyp_v6 : ℕ
atyp_v6 = 0x04

-- `IpAddr`, by the octets.
pub data IpAddr : Type 0 where
  v4 v6 : List ℕ → IpAddr

-- The texts of the standard library: `IpAddr::to_string`, `str::parse` and `String::from_utf8_lossy`.
pub record Texts : Type 0 where
  pub show_ip : IpAddr → List ℕ
  pub parse_ip : List ℕ → Option IpAddr
  pub from_utf8_lossy : List ℕ → List ℕ
  pub parse_ip-show_ip : (ip : IpAddr) → parse_ip (show_ip ip) ≡ some ip

pub record Client : Type 0 where
  pub input : List ℕ
  pub output : List ℕ

-- A step on the client's stream; `eof` is the error of `read_exact` at the stream's end.
pub data Io (A : Type 0) : Type 0 where
  done : A → Client → Io A
  eof : Client → Io A

infixl 5 ◌>>=◌
abbrev pub ◌>>=◌ : {A B : Type 0} → (Client → Io A) → (A → Client → Io B) → Client → Io B
◌>>=◌ m f c = elim (m c) [ done a c' ↦ f a c' | eof c' ↦ eof c' ]

abbrev pub return : {A : Type 0} → A → Client → Io A
return a c = done a c

pub read_exact : ℕ → Client → Io (List ℕ)
read_exact n c =
    if ltb (length c.input) n
    then eof (record c { input = [] })
    else done (take n c.input) (record c { input = drop n c.input })

pub write_all : List ℕ → Client → Io (Unit {0})
write_all bytes c = done tt (record c { output = c.output ++ bytes })

-- `a[i]` on an array that has the index.
at : List ℕ → ℕ → ℕ
at [] i = 0
at (b ∷ bs) zero = b
at (b ∷ bs) (suc i) = at bs i

pub reply : ℕ → List ℕ
reply status = ver ∷ status ∷ 0x00 ∷ atyp_v4 ∷ 0 ∷ 0 ∷ 0 ∷ 0 ∷ 0 ∷ 0 ∷ []

abbrev pub localhost : List ℕ
localhost = text "localhost"

-- A reply that ends the request.
refuse : {A : Type 0} → ℕ → Client → Io (Option A)
unfolding write_all reply
refuse status = do _ ← write_all (reply status); return none

is_loopback : IpAddr → Bool
unfolding at same
is_loopback (v4 octets) = at octets 0 == 127
is_loopback (v6 octets) =
    same octets (0 ∷ 0 ∷ 0 ∷ 0 ∷ 0 ∷ 0 ∷ 0 ∷ 0 ∷ 0 ∷ 0 ∷ 0 ∷ 0 ∷ 0 ∷ 0 ∷ 0 ∷ 1 ∷ [])

module _ (t : Texts) where
  -- The host by the address type: `none` is the branch of an unsupported type.
  read_host : ℕ → Client → Io (Option (List ℕ))
  unfolding read_exact at refuse
  read_host atyp =
      if atyp == atyp_v4
      then (do a ← read_exact 4; return (some (t.show_ip (v4 a))))
      else if atyp == atyp_v6
      then (do a ← read_exact 16; return (some (t.show_ip (v6 a))))
      else if atyp == atyp_domain
      then (do len ← read_exact 1; d ← read_exact (at len 0); return (some (t.from_utf8_lossy d)))
      else refuse 0x08

  read_target : ℕ → Client → Io (Option (List ℕ × ℕ))
  unfolding read_host read_exact at
  read_target atyp = do
    host ← read_host atyp
    elim host [
      | none ↦ return none
      | some h ↦ (do pb ← read_exact 2; return (some (h, at pb 0 * 256 + at pb 1)))
    ]

  -- The request behind the greeting.
  read_connect : Client → Io (Option (List ℕ × ℕ))
  unfolding read_target refuse read_exact at
  read_connect = do
    req ← read_exact 4
    if not (at req 0 == ver)
        then return none
        else if not (at req 1 == cmd_connect)
        then refuse 0x07
        else read_target (at req 3)

  pub read_request : Client → Io (Option (List ℕ × ℕ))
  unfolding read_connect read_exact write_all at
  read_request = do
    head ← read_exact 2
    if not (at head 0 == ver)
        then return none
        else (do methods ← read_exact (at head 1); _ ← write_all (ver ∷ 0x00 ∷ []); read_connect)

  pub is_loopback_host : List ℕ → Bool
  unfolding is_loopback ends_with
  is_loopback_host host =
      if same host localhost || ends_with host (0x2e ∷ localhost)
      then true
      else (elim (t.parse_ip host) [ none ↦ false | some ip ↦ is_loopback ip ])
