-- ===== src/Trace/Tests.antt =====
-- The trace of a page that gives the address twice, and of a network without a resolver.
use warp_proxy.Base.{ℕ, ◌≡◌, refl, arith, true, List, [], ◌∷◌, ◌&&◌, some, map}
use warp_proxy.Base.{if◌then◌else◌, ◌==◌, Bool, false, Bool-cases, inl, inr}
use warp_proxy.Base.Text.{text, Without}
use warp_proxy.Trace.{got, refused, Site, do_fetch, fetch_trace, parse_trace, is_empty_text}
use warp_proxy.Trace.Page.{page, fed}
use warp_proxy.Trace.Laws.{
  line_of, IsField, info_of, last_of, parse_trace-page, Reported, fetch_trace-Reported,
}

abbrev lacks : ℕ → List ℕ → Bool
lacks sep [] = true
lacks sep (c ∷ t) = let rest = lacks sep t in if c == sep then false else rest

lacks-Without : (sep : ℕ) (t : List ℕ) → lacks sep t ≡ true → Without sep t
lacks-Without sep [] e = tt
lacks-Without sep (c ∷ t) e = elim (Bool-cases (c == sep)) [
  | inl here ↦ absurd (ground (arith, here))
  | inr other ↦ (ground arith, lacks-Without sep t (rw other at e))
]

an_IsField :
    (k v : List ℕ)
    → (lacks 0x3d k && (lacks 10 k && (lacks 13 k && (lacks 10 v && lacks 13 v)))) ≡ true
    → IsField (k, v)
an_IsField k v e = (
  lacks-Without 0x3d k (ground (arith, e)),
  lacks-Without 10 k (ground (arith, e)),
  lacks-Without 13 k (ground (arith, e)),
  lacks-Without 10 v (ground (arith, e)),
  lacks-Without 13 v (ground (arith, e)),
)

abbrev fields : List (List ℕ × List ℕ)
fields =
    (text "ip", text "1.2")
    ∷ (text "fl", text "x=y")
    ∷ (text "ip", text " 8")
    ∷ (text "warp", text "on")
    ∷ []

parse_trace-page_example :
    parse_trace (page (text "HTTP/1.1 200 OK") (text "A: b" ∷ []) (fed (map line_of fields))) ≡ (
      if is_empty_text (last_of (text "ip") [] fields)
        && is_empty_text (last_of (text "warp") [] fields)
      then refused (text "no trace fields in response")
      else got (
          info_of
            (last_of (text "ip") [] fields)
            (last_of (text "colo") [] fields)
            (last_of (text "warp") [] fields)))
parse_trace-page_example =
    parse_trace-page (text "HTTP/1.1 200 OK") (text "A: b" ∷ []) fields
      (
        (lacks-Without 13 (text "HTTP/1.1 200 OK") refl, λ e. absurd (ground (arith, e))),
        ((lacks-Without 13 (text "A: b") refl, λ e. absurd (ground (arith, e))), tt),
      )
      (
        an_IsField (text "ip") (text "1.2") refl,
        (
          an_IsField (text "fl") (text "x=y") refl,
          (
            an_IsField (text "ip") (text " 8") refl,
            (an_IsField (text "warp") (text "on") refl, tt),
          ),
        ),
      )

abbrev no_site : Site
no_site = record {
  Conn = ℕ;
  Builder = ℕ;
  Name = ℕ;
  Tls = ℕ;
  resolve = λ name. refused (text "no address");
  connect = λ addr. got 0;
  with_protocol_versions = some 0;
  to_string = λ e. text "config";
  server_name = λ name. got 0;
  tls_connect = λ cfg name conn. got 0;
  write_all = λ tls bytes. got tls;
  read_to_end = λ tls. got [];
  from_utf8_lossy = λ bytes. bytes;
}

fetch_trace-Reported_example : Reported (fetch_trace (some (do_fetch no_site)))
fetch_trace-Reported_example = fetch_trace-Reported no_site true
