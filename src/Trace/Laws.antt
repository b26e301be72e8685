-- ===== src/Trace/Laws.antt =====
-- What the fetch makes of a page of fields.
use warp_proxy.Base.{
  ℕ, ◌≡◌, ◌≢◌, ◌⊎◌, refl, ap, subst, sym, ◌∙◌, arith, Bool, true, false, ◌&&◌, List, [], ◌∷◌, ◌++◌,
  none, some, map,
}
use warp_proxy.Base.{if◌then◌else◌, All, All-append, Bool-cases, inl, inr}
use warp_proxy.Base.Text.{text, same, same_iff, Without, split_once-append}
use warp_proxy.Config.{trim}
use warp_proxy.Identity.{insecure_client_config}
use warp_proxy.Pool.{TraceInfo}
use warp_proxy.Trace.{
  Fetched, got, refused, second_part, split_blank, lines_of, no_info, set_field, read_line,
  read_lines, is_empty_text, parse_trace, fetch_trace, Site, do_fetch, trace_host, request_text,
  told, ◌>>=◌,
}
use warp_proxy.Trace.Page.{page, IsLine, second_part-page, fed, fed-Without, lines_of-fed}

-- A field by its name and value, and its line.
abbrev pub line_of : List ℕ × List ℕ → List ℕ
line_of (k, v) = k ++ 0x3d ∷ v

abbrev pub IsField : List ℕ × List ℕ → Type 0
IsField (k, v) = Without 0x3d k × Without 10 k × Without 13 k × Without 10 v × Without 13 v

-- The value of the last field of a name, trimmed.
pub last_of : List ℕ → List ℕ → List (List ℕ × List ℕ) → List ℕ
last_of key before [] = before
last_of key before ((k, v) ∷ fields) = last_of key (if same k key then trim v else before) fields

line_of-Plain : (f : List ℕ × List ℕ) → IsField f → Without 10 (line_of f) × Without 13 (line_of f)
line_of-Plain (k, v) (a, b, c, d, e) = (
  All-append (λ c. c ≢ 10) k (0x3d ∷ v) b (λ e. absurd (omega (arith, e)), d),
  All-append (λ c. c ≢ 13) k (0x3d ∷ v) c (λ e. absurd (omega (arith, e)), e),
)

lines-Plain :
    (fields : List (List ℕ × List ℕ))
    → All IsField fields
    → All (λ l. Without 10 l × Without 13 l) (map line_of fields)
lines-Plain [] h = tt
lines-Plain (f ∷ fields) h = (line_of-Plain f h.0, lines-Plain fields h.1)

-- The three fields of the result.
abbrev pub info_of : List ℕ → List ℕ → List ℕ → TraceInfo
info_of ip colo warp = record { ip = ip; colo = colo; warp = warp; err = none }

same_no : (k a b : List ℕ) → same a b ≡ false → same k a ≡ true → same k b ≡ false
same_no k a b apart e = subst (λ l. same l b ≡ false) (sym ((same_iff k a).0 e)) apart

set_field-info :
    (ip colo warp k v : List ℕ)
    → set_field (info_of ip colo warp) k v
      ≡ info_of
          (if same k (text "ip") then trim v else ip)
          (if same k (text "colo") then trim v else colo)
          (if same k (text "warp") then trim v else warp)
unfolding set_field same
set_field-info ip colo warp k v = elim (Bool-cases (same k (text "ip"))) [
  | inl e ↦
      rw
        (
          set_field,
          e,
          same_no k (text "ip") (text "warp") refl e,
          same_no k (text "ip") (text "colo") refl e,
        )
        refl
  | inr not_ip ↦ elim (Bool-cases (same k (text "warp"))) [
    | inl e ↦ rw (set_field, not_ip, e, same_no k (text "warp") (text "colo") refl e) refl
    | inr not_warp ↦ elim (Bool-cases (same k (text "colo"))) [
      | inl e ↦ rw (set_field, not_ip, not_warp, e) refl
      | inr other ↦ rw (set_field, not_ip, not_warp, other) refl
    ]
  ]
]

read_line-info :
    (ip colo warp k v : List ℕ)
    → Without 0x3d k
    → read_line (info_of ip colo warp) (line_of (k, v))
      ≡ info_of
          (if same k (text "ip") then trim v else ip)
          (if same k (text "colo") then trim v else colo)
          (if same k (text "warp") then trim v else warp)
unfolding read_line
read_line-info ip colo warp k v h =
    rw (read_line, split_once-append 0x3d k v h) (set_field-info ip colo warp k v)

read_lines-last :
    (fields : List (List ℕ × List ℕ)) (ip colo warp : List ℕ)
    → All IsField fields
    → read_lines (info_of ip colo warp) (map line_of fields)
      ≡ info_of
          (last_of (text "ip") ip fields)
          (last_of (text "colo") colo fields)
          (last_of (text "warp") warp fields)
unfolding read_lines last_of
read_lines-last [] ip colo warp h = refl
read_lines-last ((k, v) ∷ fields) ip colo warp h =
    ap (λ i. read_lines i (map line_of fields)) (read_line-info ip colo warp k v h.0.0)
    ∙ read_lines-last fields _ _ _ h.1

-- A page of fields is read as the last value of each of the three names, and refused if it has neither an
-- address nor a state of WARP.
pub parse_trace-page :
    (line : List ℕ) (lines : List (List ℕ)) (fields : List (List ℕ × List ℕ))
    → All IsLine (line ∷ lines)
    → All IsField fields
    → (let ip = last_of (text "ip") [] fields in
        let warp = last_of (text "warp") [] fields in
        parse_trace (page line lines (fed (map line_of fields))) ≡ (
          if is_empty_text ip && is_empty_text warp
          then refused (text "no trace fields in response")
          else got (info_of ip (last_of (text "colo") [] fields) warp)))
unfolding parse_trace
parse_trace-page line lines fields h plain =
    let all = lines-Plain fields plain in
    let body =
      second_part-page line lines (fed (map line_of fields)) h
        (fed-Without (map line_of fields) all) in
    let read =
      ap (λ b. read_lines no_info (lines_of b)) body
      ∙ ap (read_lines no_info) (lines_of-fed (map line_of fields) all)
      ∙ read_lines-last fields [] [] [] plain in
    rw (parse_trace, read) refl

-- Fields, or an error.
pub Reported : TraceInfo → Type 0
Reported info =
    ((info.err ≡ none) × ((info.ip ≢ []) ⊎ (info.warp ≢ [])))
    ⊎ ((e : List ℕ) × (info ≡ record no_info { err = some e }))

not_nil :
    (ip warp : List ℕ) → (is_empty_text ip && is_empty_text warp) ≡ false → (ip ≢ []) ⊎ (warp ≢ [])
unfolding is_empty_text
not_nil [] [] e = absurd (ground arith)
not_nil [] (c ∷ warp) e = inr (λ e. absurd (ground arith))
not_nil (c ∷ ip) warp e = inl (λ e. absurd (ground arith))

read_line-err : (info : TraceInfo) (line : List ℕ) → (read_line info line).err ≡ info.err
unfolding read_line set_field
read_line-err info line = ground arith

read_lines-err : (info : TraceInfo) (lines : List (List ℕ)) → (read_lines info lines).err ≡ info.err
unfolding read_lines
read_lines-err info [] = refl
read_lines-err info (line ∷ lines) =
    read_lines-err (read_line info line) lines ∙ read_line-err info line

abbrev Sound : Fetched TraceInfo → Type 0
Sound (got info) = (info.err ≡ none) × ((info.ip ≢ []) ⊎ (info.warp ≢ []))
Sound (refused e) = Unit

bind-Sound :
    {A : Type 0} (m : Fetched A) (f : A → Fetched TraceInfo)
    → ((a : A) → Sound (f a))
    → Sound (m >>= f)
bind-Sound (got a) f h = h a
bind-Sound (refused e) f h = tt

parse_trace-Sound : (page_text : List ℕ) → Sound (parse_trace page_text)
unfolding parse_trace
parse_trace-Sound page_text =
    let lines = lines_of (second_part (split_blank 0 page_text)) in
    let info = read_lines no_info lines in
    elim (Bool-cases (is_empty_text info.ip && is_empty_text info.warp)) [
      | inl nothing ↦ rw (parse_trace, nothing) tt
      | inr something ↦
          rw (parse_trace, something)
            (read_lines-err no_info lines, not_nil info.ip info.warp something)
    ]

do_fetch-Sound : (S : Site) → Sound (do_fetch S)
unfolding do_fetch
do_fetch-Sound S = bind-Sound (S.resolve trace_host) _ (λ ip.
    bind-Sound (S.connect (ip, 443)) _ (λ conn.
      bind-Sound
        (told S.to_string (insecure_client_config S.with_protocol_versions (text "http/1.1" ∷ [])))
        _
        (λ cfg. bind-Sound (S.server_name trace_host) _ (λ sni.
          bind-Sound (S.tls_connect cfg sni conn) _ (λ tls.
            bind-Sound (S.write_all tls request_text) _ (λ written.
              bind-Sound (S.read_to_end written) _
                (λ buf. parse_trace-Sound (S.from_utf8_lossy buf))))))))

Sound-Reported : (r : Fetched TraceInfo) → Sound r → Reported (fetch_trace (some r))
unfolding fetch_trace Reported
Sound-Reported (got info) h = inl h
Sound-Reported (refused e) h = inr (e, refl)

-- Whatever the network does and whether the fetch is in time or not: what is reported is fields without
-- an error, an address or a state of WARP among them, or an error without fields.
pub fetch_trace-Reported :
    (S : Site) (in_time : Bool)
    → Reported (fetch_trace (if in_time then some (do_fetch S) else none))
unfolding fetch_trace Reported
fetch_trace-Reported S true = Sound-Reported (do_fetch S) (do_fetch-Sound S)
fetch_trace-Reported S false = inr (text "trace timeout", refl)
