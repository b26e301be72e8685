-- ===== src/Trace.antt =====
-- The egress trace of crates/warp-masque/src/trace.rs.
--
-- The netstack's handle and the TLS client are the parameter `Site`; an error is its text.
pub mod Laws
pub mod Page
mod Tests
use warp_proxy.Base.{ℕ, zero, suc, Bool, true, false, ◌&&◌, List, [], ◌∷◌, ◌++◌, Option, none, some}
use warp_proxy.Base.{◌==◌, if◌then◌else◌}
use warp_proxy.Base.Text.{text, same, split, split_once}
use warp_proxy.Config.{trim}
use warp_proxy.Socks.{IpAddr}
use warp_proxy.Registration.{Outcome, ok, err, Error}
use warp_proxy.Identity.{InsecureConfig, insecure_client_config}
use warp_proxy.Pool.{TraceInfo}

-- `Result<A, String>`
pub data Fetched (A : Type 0) : Type 0 where
  got : A → Fetched A
  refused : List ℕ → Fetched A

infixl 5 ◌>>=◌
abbrev pub ◌>>=◌ : {A B : Type 0} → Fetched A → (A → Fetched B) → Fetched B
got a >>= f = f a
refused e >>= f = refused e

-- `map_err(|e| e.to_string())` on an error of the crate.
unfoldable pub told : {A : Type 0} → (Error → List ℕ) → Outcome A → Fetched A
told to_string (ok a) = got a
told to_string (err e) = refused (to_string e)

-- What the fetch uses of the netstack, rustls and tokio.
pub record Site : Type 1 where
  pub Conn : Type 0
  pub Builder : Type 0
  pub Name : Type 0
  pub Tls : Type 0
  pub resolve : List ℕ → Fetched IpAddr
  pub connect : IpAddr × ℕ → Fetched Conn
  pub with_protocol_versions : Option Builder
  pub to_string : Error → List ℕ
  pub server_name : List ℕ → Fetched Name
  pub tls_connect : InsecureConfig → Name → Conn → Fetched Tls
  pub write_all : Tls → List ℕ → Fetched Tls
  pub read_to_end : Tls → Fetched (List ℕ)
  pub from_utf8_lossy : List ℕ → List ℕ

abbrev pub trace_host : List ℕ
trace_host = text "www.cloudflare.com"

abbrev pub crlf : List ℕ
crlf = 13 ∷ 10 ∷ []

abbrev pub request_text : List ℕ
request_text =
    text "GET /cdn-cgi/trace HTTP/1.1"
    ++ crlf
    ++ text "Host: "
    ++ trace_host
    ++ crlf
    ++ text "User-Agent: warp-proxy"
    ++ crlf
    ++ text "Accept: */*"
    ++ crlf
    ++ text "Connection: close"
    ++ crlf
    ++ crlf

unfoldable pub blank_at : List ℕ → Bool
blank_at (a ∷ b ∷ c ∷ d ∷ t) = a == 13 && (b == 10 && (c == 13 && d == 10))
blank_at _ = false

unfoldable pub extend : ℕ → List (List ℕ) → List (List ℕ)
extend c [] = (c ∷ []) ∷ []
extend c (part ∷ parts) = (c ∷ part) ∷ parts

-- `split("\r\n\r\n")`, with the characters of a separator that are still to be passed.
unfoldable pub split_blank : ℕ → List ℕ → List (List ℕ)
unfolding blank_at extend
split_blank passed [] = [] ∷ []
split_blank (suc passed) (c ∷ t) = split_blank passed t
split_blank zero (c ∷ t) =
    let behind = split_blank 3 t in
    let within = split_blank 0 t in if blank_at (c ∷ t) then [] ∷ behind else extend c within

-- `nth(1).unwrap_or("")`
unfoldable pub second_part : List (List ℕ) → List ℕ
second_part (first ∷ part ∷ parts) = part
second_part _ = []

unfoldable pub strip_cr : List ℕ → List ℕ
strip_cr [] = []
strip_cr (c ∷ []) = if c == 13 then [] else c ∷ []
strip_cr (c ∷ d ∷ t) = c ∷ strip_cr (d ∷ t)

-- What stands between the line feeds; the text behind the last one is a line unless it is empty.
unfoldable pub ended_lines : List (List ℕ) → List (List ℕ)
unfolding strip_cr
ended_lines [] = []
ended_lines ([] ∷ []) = []
ended_lines (last ∷ []) = last ∷ []
ended_lines (line ∷ more ∷ lines) = strip_cr line ∷ ended_lines (more ∷ lines)

-- `str::lines`
unfoldable pub lines_of : List ℕ → List (List ℕ)
unfolding ended_lines split
lines_of t = ended_lines (split 10 t)

abbrev pub no_info : TraceInfo
no_info = record { ip = []; colo = []; warp = []; err = none }

unfoldable pub set_field : TraceInfo → List ℕ → List ℕ → TraceInfo
unfolding same
set_field info k v =
    if same k (text "ip")
    then record info { ip = trim v }
    else if same k (text "warp")
    then record info { warp = trim v }
    else if same k (text "colo")
    then record info { colo = trim v }
    else info

unfoldable pub read_line : TraceInfo → List ℕ → TraceInfo
unfolding set_field split_once
read_line info line = elim (split_once 0x3d line) [ none ↦ info | some (k, v) ↦ set_field info k v ]

unfoldable pub read_lines : TraceInfo → List (List ℕ) → TraceInfo
unfolding read_line
read_lines info [] = info
read_lines info (line ∷ lines) = read_lines (read_line info line) lines

unfoldable pub is_empty_text : List ℕ → Bool
is_empty_text [] = true
is_empty_text (c ∷ t) = false

-- The part of `do_fetch` behind the transfer.
unfoldable pub parse_trace : List ℕ → Fetched TraceInfo
unfolding second_part split_blank lines_of read_lines is_empty_text
parse_trace t =
    let info = read_lines no_info (lines_of (second_part (split_blank 0 t))) in
    if is_empty_text info.ip && is_empty_text info.warp
    then refused (text "no trace fields in response")
    else got info

module _ (S : Site) where
  unfoldable pub do_fetch : Fetched TraceInfo
  unfolding parse_trace told
  do_fetch = do
    ip ← S.resolve trace_host
    conn ← S.connect (ip, 443)
    cfg ← told S.to_string (insecure_client_config S.with_protocol_versions (text "http/1.1" ∷ []))
    sni ← S.server_name trace_host
    tls ← S.tls_connect cfg sni conn
    written ← S.write_all tls request_text
    buf ← S.read_to_end written
    parse_trace (S.from_utf8_lossy buf)

-- What the timeout makes of the fetch: `none` where its 15 seconds are over first.
unfoldable pub fetch_trace : Option (Fetched TraceInfo) → TraceInfo
fetch_trace (some (got info)) = info
fetch_trace (some (refused e)) = record no_info { err = some e }
fetch_trace none = record no_info { err = some (text "trace timeout") }
