-- ===== src/Registration/Doh.antt =====
-- crates/warp-masque/src/doh.rs.
--
-- The answer of a DoH server is the list of its records, each with its type and data.
use warp_proxy.Base.{
  ℕ, ◌≡◌, ◌≢◌, refl, subst, sym, ◌∙◌, arith, Bool, true, false, List, [], ◌∷◌, ◌++◌, none, some,
}
use warp_proxy.Base.{◌==◌, Bool-cases, inl, inr, if◌then◌else◌}
use warp_proxy.Base.Text.{text}
use warp_proxy.Registration.{Api}

abbrev pub api_host : List ℕ
api_host = text "api.cloudflareclient.com"

abbrev pub api_fallback_ips : List (List ℕ)
api_fallback_ips = text "104.16.24.84" ∷ text "104.16.192.82" ∷ []

module _ (A : Api) where
  open A use {Ip}

  -- `if let Ok(ip) = data.parse::<IpAddr>()`
  unfoldable keep_parsed : List ℕ → List Ip → List Ip
  keep_parsed data_text ips = elim (A.parse_ip data_text) [ none ↦ ips | some ip ↦ ip ∷ ips ]

  -- The addresses of the A records.
  pub a_records : List (ℕ × List ℕ) → List Ip
  unfolding keep_parsed
  a_records [] = []
  a_records ((kind, data_text) ∷ answers) =
      let rest = a_records answers in if kind == 1 then keep_parsed data_text rest else rest

  -- `seen.insert(ip)`: `seen` holds the addresses of `out`.
  pub contains : Ip → List (Ip × ℕ) → Bool
  contains ip [] = false
  contains ip ((jp, port) ∷ out) =
      let rest = contains ip out in if A.same_ip ip jp then true else rest

  pub contains-nil : (ip : Ip) → contains ip [] ≢ true
  unfolding contains
  contains-nil ip e = ground arith

  pub push : Ip → List (Ip × ℕ) → List (Ip × ℕ)
  unfolding contains
  push ip out = if contains ip out then out else out ++ (ip, 443) ∷ []

  pub push_all : List Ip → List (Ip × ℕ) → List (Ip × ℕ)
  unfolding push
  push_all [] out = out
  push_all (ip ∷ ips) out = push_all ips (push ip out)

  unfoldable pub fallbacks : List (List ℕ) → List Ip
  unfolding keep_parsed
  fallbacks [] = []
  fallbacks (f ∷ fs) = keep_parsed f (fallbacks fs)

  -- `resolve_a`, whose error the caller drops.
  pub resolve_a : A.World → List ℕ → List Ip × A.World
  unfolding a_records
  resolve_a w host =
      let (answers, w') = A.ask_doh w host in
      (elim answers [ none ↦ [] | some l ↦ a_records l ], w')

  pub api_addrs : A.World → List (Ip × ℕ) × A.World
  unfolding resolve_a push_all fallbacks
  api_addrs w =
      let (ips, w') = resolve_a w api_host in
      (push_all (fallbacks api_fallback_ips) (push_all ips []), w')

  -- Each address once, and with port 443.
  pub Distinct : List (Ip × ℕ) → Type 0
  unfolding contains
  Distinct [] = Unit
  Distinct ((ip, port) ∷ out) = (contains ip out ≡ false) × (port ≡ 443) × Distinct out

  -- What the list of addresses relies on in the equality of addresses.
  pub record Equality : Type 0 where
    pub same_iff : (i j : Ip) → ((A.same_ip i j ≡ true) → i ≡ j) × ((i ≡ j) → A.same_ip i j ≡ true)

  module _ (Eq : Equality) where
    flip : (i j : Ip) → A.same_ip i j ≡ false → A.same_ip j i ≡ false
    flip i j other = elim (Bool-cases (A.same_ip j i)) [
      | inr differs ↦ differs
      | inl agrees ↦
          absurd (ground (arith, other, (Eq.same_iff i j).1 (sym ((Eq.same_iff j i).0 agrees))))
    ]

    contains-snoc_other :
        (i ip : Ip) (out : List (Ip × ℕ))
        → A.same_ip i ip ≡ false
        → contains i (out ++ (ip, 443) ∷ []) ≡ contains i out
    unfolding contains
    contains-snoc_other i ip [] other = rw other refl
    contains-snoc_other i ip ((jp, port) ∷ out) other = rw (contains-snoc_other i ip out other) refl

    contains-snoc_self :
        (ip : Ip) (out : List (Ip × ℕ)) → contains ip (out ++ (ip, 443) ∷ []) ≡ true
    unfolding contains
    contains-snoc_self ip [] = rw ((Eq.same_iff ip ip).1 refl) refl
    contains-snoc_self ip ((jp, port) ∷ out) = ground (arith, contains-snoc_self ip out)

    contains-snoc_keep :
        (i ip : Ip) (out : List (Ip × ℕ))
        → contains i out ≡ true
        → contains i (out ++ (ip, 443) ∷ []) ≡ true
    unfolding contains
    contains-snoc_keep i ip [] e = absurd (ground arith)
    contains-snoc_keep i ip ((jp, port) ∷ out) e = ground (arith, contains-snoc_keep i ip out)

    snoc-Distinct :
        (ip : Ip) (out : List (Ip × ℕ))
        → contains ip out ≡ false
        → Distinct out
        → Distinct (out ++ (ip, 443) ∷ [])
    unfolding Distinct contains
    snoc-Distinct ip [] new d = (refl, refl, tt)
    snoc-Distinct ip ((jp, port) ∷ out) new d =
        let other : A.same_ip ip jp ≡ false = ground arith in
        let later : contains ip out ≡ false = ground arith in
        (
          contains-snoc_other jp ip out (flip ip jp other) ∙ d.0,
          d.1,
          snoc-Distinct ip out later d.2,
        )

    -- What `push` keeps.
    push-Distinct : (ip : Ip) (out : List (Ip × ℕ)) → Distinct out → Distinct (push ip out)
    unfolding push
    push-Distinct ip out d = elim (Bool-cases (contains ip out)) [
      | inl seen ↦ rw seen d
      | inr new ↦ rw new (snoc-Distinct ip out new d)
    ]

    push-contains : (ip : Ip) (out : List (Ip × ℕ)) → contains ip (push ip out) ≡ true
    unfolding push
    push-contains ip out = elim (Bool-cases (contains ip out)) [
      | inl seen ↦ rw (push, seen) seen
      | inr new ↦ rw (push, new) (contains-snoc_self ip out)
    ]

    push-keeps :
        (i ip : Ip) (out : List (Ip × ℕ)) → contains i out ≡ true → contains i (push ip out) ≡ true
    unfolding push
    push-keeps i ip out e = elim (Bool-cases (contains ip out)) [
      | inl seen ↦ rw (push, seen) e
      | inr new ↦ rw (push, new) (contains-snoc_keep i ip out e)
    ]

    push_all-Distinct :
        (ips : List Ip) (out : List (Ip × ℕ)) → Distinct out → Distinct (push_all ips out)
    unfolding push_all
    push_all-Distinct [] out d = d
    push_all-Distinct (ip ∷ ips) out d =
        push_all-Distinct ips (push ip out) (push-Distinct ip out d)

    push_all-keeps :
        (i : Ip) (ips : List Ip) (out : List (Ip × ℕ))
        → contains i out ≡ true
        → contains i (push_all ips out) ≡ true
    unfolding push_all
    push_all-keeps i [] out e = e
    push_all-keeps i (ip ∷ ips) out e = push_all-keeps i ips (push ip out) (push-keeps i ip out e)

    -- All of them, in the list.
    pub AllIn : List Ip → List (Ip × ℕ) → Type 0
    AllIn [] out = Unit
    AllIn (ip ∷ ips) out = (contains ip out ≡ true) × AllIn ips out

    pub AllIn-head :
        (ip : Ip) (rest l : List Ip) (out : List (Ip × ℕ))
        → l ≡ ip ∷ rest
        → AllIn l out
        → contains ip out ≡ true
    unfolding AllIn
    AllIn-head ip rest l out e all_in = (subst (λ m. AllIn m out) e all_in).0

    push_all-AllIn : (ips : List Ip) (out : List (Ip × ℕ)) → AllIn ips (push_all ips out)
    unfolding push_all AllIn
    push_all-AllIn [] out = tt
    push_all-AllIn (ip ∷ ips) out = (
      push_all-keeps ip ips (push ip out) (push-contains ip out),
      push_all-AllIn ips (push ip out),
    )

    AllIn-push_all :
        (l ips : List Ip) (out : List (Ip × ℕ)) → AllIn l out → AllIn l (push_all ips out)
    unfolding AllIn
    AllIn-push_all [] ips out all_in = tt
    AllIn-push_all (i ∷ l) ips out (e, all_in) =
        (push_all-keeps i ips out e, AllIn-push_all l ips out all_in)

    -- The candidates for the registration API are each there once, with port 443, and they have every A
    -- record that DoH gave and every fallback.
    pub api_addrs-Distinct :
        (w : A.World)
        → Distinct (api_addrs w).0
          × AllIn (resolve_a w api_host).0 (api_addrs w).0
          × AllIn (fallbacks api_fallback_ips) (api_addrs w).0
    unfolding api_addrs Distinct
    api_addrs-Distinct w =
        let ips = (resolve_a w api_host).0 in
        (
          push_all-Distinct (fallbacks api_fallback_ips) (push_all ips [])
              (push_all-Distinct ips [] tt),
          AllIn-push_all ips (fallbacks api_fallback_ips) (push_all ips []) (push_all-AllIn ips []),
          push_all-AllIn (fallbacks api_fallback_ips) (push_all ips []),
        )
