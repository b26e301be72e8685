-- ===== src/Socks/Request.antt =====
-- What `read_request` makes of a well-formed greeting and CONNECT request.
use warp_proxy.Base.{
  ℕ, ◌+◌, ◌*◌, ◌/◌, ◌%◌, ◌<◌, ◌≡◌, refl, ap, sym, arith, List, [], ◌∷◌, ◌++◌, some,
}
use warp_proxy.Base.{false, ltb, length, take-append, drop-append, length-append, append_assoc}
use warp_proxy.Socks.{
  Texts, v4, v6, Client, Io, done, ◌>>=◌, read_exact, write_all, read_request, read_connect,
  read_target, read_host, ver, cmd_connect, atyp_v4, atyp_v6, atyp_domain,
}

read_exact-append :
    (a b o : List ℕ) (n : ℕ)
    → n ≡ length a
    → read_exact n (record { input = a ++ b; output = o })
      ≡ done a (record { input = b; output = o })
unfolding read_exact
read_exact-append a b o n e =
    let long : ltb (length (a ++ b)) n ≡ false = ground (arith, length-append a b) in
    rw (long, e, take-append a b, drop-append a b) refl

bind-done :
    {A B : Type 0} (m : Client → Io A) (f : A → Client → Io B) (c c' : Client) (a : A)
    → m c ≡ done a c'
    → (m >>= f) c ≡ f a c'
bind-done m f c c' a e = rw (◌>>=◌, e) refl

-- The target of a request: an address, or the bytes of a name.
pub data Target : Type 0 where
  to_v4 to_v6 to_name : List ℕ → Target

-- The sizes that the protocol has for them.
abbrev pub Sized : Target → Type 0
Sized (to_v4 a) = length a ≡ 4
Sized (to_v6 a) = length a ≡ 16
Sized (to_name d) = length d < 256

pub address : Target → List ℕ
address (to_v4 a) = atyp_v4 ∷ a
address (to_v6 a) = atyp_v6 ∷ a
address (to_name d) = atyp_domain ∷ length d ∷ d

pub host_of : Texts → Target → List ℕ
host_of t (to_v4 a) = t.show_ip (v4 a)
host_of t (to_v6 a) = t.show_ip (v6 a)
host_of t (to_name d) = t.from_utf8_lossy d

-- What a client sends.
pub request_bytes : List ℕ → Target → ℕ → List ℕ
unfolding address
request_bytes methods target port =
    ver
    ∷ length methods
    ∷ (methods ++ (ver ∷ cmd_connect ∷ 0 ∷ (address target ++ port / 256 ∷ port % 256 ∷ [])))

read_host-Sized :
    (t : Texts) (target : Target) (b o : List ℕ)
    → Sized target
    → (atyp : ℕ) × (addr : List ℕ) × (address target ≡ atyp ∷ addr)
      × (read_host t atyp (record { input = addr ++ b; output = o })
          ≡ done (some (host_of t target)) (record { input = b; output = o }))
unfolding address read_host host_of
read_host-Sized t (to_v4 a) b o e =
    (atyp_v4, a, refl, bind-done (read_exact 4) _ _ _ _ (read_exact-append a b o 4 (sym e)))
read_host-Sized t (to_v6 a) b o e =
    (atyp_v6, a, refl, bind-done (read_exact 16) _ _ _ _ (read_exact-append a b o 16 (sym e)))
read_host-Sized t (to_name d) b o e = (
  atyp_domain,
  length d ∷ d,
  refl,
  rw
      (
        ◌>>=◌,
        read_exact-append (length d ∷ []) (d ++ b) o 1 refl,
        read_exact-append d b o (length d) refl,
      )
      refl,
)

port-split : (port : ℕ) → port / 256 * 256 + port % 256 ≡ port
port-split port = omega arith

read_connect-address :
    (t : Texts) (target : Target) (port : ℕ) (later o : List ℕ)
    → Sized target
    → read_connect t (record {
      input = ver ∷ cmd_connect ∷ 0 ∷ (address target ++ (port / 256 ∷ port % 256 ∷ later));
      output = o;
    })
      ≡ done (some (host_of t target, port)) (record { input = later; output = o })
unfolding read_connect read_target
read_connect-address t target port later o sized =
    let ports : List ℕ = port / 256 ∷ port % 256 ∷ [] in
    let (atyp, addr, split, host) = read_host-Sized t target (ports ++ later) o sized in
    rw
      (
        split,
        ◌>>=◌,
        read_exact-append (ver ∷ cmd_connect ∷ 0 ∷ atyp ∷ []) (addr ++ (ports ++ later)) o 4 refl,
        host,
        read_exact-append ports later o 2 refl,
      )
      (ap (λ n. done (some (host_of t target, n)) (record { input = later; output = o }))
        (port-split port))

-- A well-formed greeting and CONNECT request, whichever methods are offered, gives the target's host
-- and the port, is answered with "no authentication", and leaves what the client has sent behind it.
pub read_request-request_bytes :
    (t : Texts) (methods : List ℕ) (target : Target) (port : ℕ) (later o : List ℕ)
    → Sized target
    → read_request t (record { input = request_bytes methods target port ++ later; output = o })
      ≡ done (some (host_of t target, port)) (record { input = later; output = o ++ ver ∷ 0 ∷ [] })
unfolding request_bytes read_request write_all
read_request-request_bytes t methods target port later o sized =
    let ports : List ℕ = port / 256 ∷ port % 256 ∷ [] in
    let behind : List ℕ = ver ∷ cmd_connect ∷ 0 ∷ (address target ++ ports) in
    let whole : (methods ++ behind) ++ later
        ≡ methods
          ++ (ver ∷ cmd_connect ∷ 0 ∷ (address target ++ (port / 256 ∷ port % 256 ∷ later))) =
      rw (append_assoc methods behind later, append_assoc (address target) ports later) refl in
    rw
      (
        whole,
        ◌>>=◌,
        read_exact-append (ver ∷ length methods ∷ []) _ o 2 refl,
        read_exact-append methods _ o (length methods) refl,
        read_connect-address t target port later (o ++ ver ∷ 0 ∷ []) sized,
      )
      refl
