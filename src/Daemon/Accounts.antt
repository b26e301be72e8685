-- ===== src/Daemon/Accounts.antt =====
-- The accounts of a state directory: what a start leaves for the next one.
use warp_proxy.Base.{
  ℕ, zero, suc, ◌+◌, ◌≡◌, ◌≢◌, refl, ap, sym, ◌∙◌, subst, arith, true, false, List, [], ◌∷◌, Option,
  none, some,
}
use warp_proxy.Base.{
  ◌==◌, ==_refl, ==_iff, ◌⊎◌, Bool-cases, Option-cases, inl, inr, length, if◌then◌else◌,
}
use warp_proxy.Config.{WarpConfig}
use warp_proxy.Registration.{Api, Outcome, ok, err, or_err, and_then, json, io}
use warp_proxy.Registration.Outcomes.{and_then-ok, ok-injective, or_err-ok, err_ok}
use warp_proxy.Daemon.{
  Disk, load, save, register_account, persisted, account, accounts_from, load_or_register,
}

some-none : {A : Type 0} {a : A} → some a ≢ none
some-none e = ground arith

module _ (A : Api) (to_vec_pretty : WarpConfig → List ℕ) (from_slice : List ℕ → Option WarpConfig)
    (round_trip : (cfg : WarpConfig) → from_slice (to_vec_pretty cfg) ≡ some cfg) where
  -- A file that exists stays.
  abbrev Keeps : Disk A → Disk A → Type 0
  Keeps d e = (j : ℕ) (content : List ℕ) → d.files j ≡ some content → e.files j ≡ some content

  -- The file of account `i` holds `cfg`.
  abbrev Stored : ℕ → WarpConfig → Disk A → Type 0
  Stored i cfg d = (content : List ℕ) × (d.files i ≡ some content) × (from_slice content ≡ some cfg)

  save-Stored :
      (cfg : WarpConfig) (i : ℕ) (d : Disk A)
      → (save A to_vec_pretty from_slice cfg i d).0 ≡ ok tt
      → d.files i ≡ none
      → Keeps d (save A to_vec_pretty from_slice cfg i d).1
        × Stored i cfg (save A to_vec_pretty from_slice cfg i d).1
  unfolding save
  save-Stored cfg i d e missing = elim (Option-cases (d.fails i)) [
    | inr (left, locked) ↦
        let failed : (save A to_vec_pretty from_slice cfg i d).0 ≡ err io =
          rw (save, locked) refl in
        absurd (err_ok io tt (sym failed ∙ e))
    | inl writes ↦
        rw (save, writes)
          (
            λ j content there. keep_other j content there (Bool-cases (j == i)),
            (to_vec_pretty cfg, rw (==_refl i) refl, round_trip cfg),
          )
  ]
    where
      keep_other :
          (j : ℕ) (content : List ℕ)
          → d.files j ≡ some content
          → ((j == i) ≡ true) ⊎ ((j == i) ≡ false)
          → (if j == i then some (to_vec_pretty cfg) else d.files j) ≡ some content
      keep_other j content there (inr other) = rw other there
      keep_other j content there (inl same) =
          absurd (some-none (sym there ∙ ap d.files ((==_iff j i).0 same) ∙ missing))

  register_account-files :
      (i : ℕ) (d : Disk A) → (register_account A to_vec_pretty from_slice i d).1.files ≡ d.files
  unfolding register_account
  register_account-files i d = refl

  persisted-Stored :
      (i : ℕ) (d : Disk A) (cfg : WarpConfig)
      → (persisted A to_vec_pretty from_slice i d).0 ≡ ok cfg
      → Keeps d (persisted A to_vec_pretty from_slice i d).1
        × Stored i cfg (persisted A to_vec_pretty from_slice i d).1
  unfolding persisted load
  persisted-Stored i d cfg e = elim (Option-cases (d.files i)) [
    | inr (content, there) ↦
        let loaded : persisted A to_vec_pretty from_slice i d
            ≡ (load A to_vec_pretty from_slice content, d) =
          rw (persisted, there) refl in
        rw loaded (
          λ j c h. h,
          (
            content,
            there,
            or_err-ok json (from_slice content) cfg (sym (ap (λ r. r.0) loaded) ∙ e),
          ),
        )
    | inl missing ↦
        let keep : WarpConfig → Disk A → Outcome WarpConfig × Disk A =
          λ c t. and_then (save A to_vec_pretty from_slice c i t) (λ done u. (ok c, u)) in
        let made : persisted A to_vec_pretty from_slice i d
            ≡ and_then (register_account A to_vec_pretty from_slice i d) keep =
          rw (persisted, missing) refl in
        let (c, at_c, rest) =
          and_then-ok (register_account A to_vec_pretty from_slice i d) keep cfg
            (sym (ap (λ r. r.0) made) ∙ e) in
        let t = (register_account A to_vec_pretty from_slice i d).1 in
        let (done, saved, last) =
          and_then-ok (save A to_vec_pretty from_slice c i t) (λ done u. (ok c, u)) cfg
            (sym (ap (λ r. r.0) (made ∙ rest)) ∙ e) in
        let all = made ∙ rest ∙ last in
        let same : c ≡ cfg = ok-injective c cfg (sym (ap (λ r. r.0) all) ∙ e) in
        let (kept, stored) =
          save-Stored c i t saved (ap (λ f. f i) (register_account-files i d) ∙ missing) in
        rw all (
          λ j content h. kept j content (ap (λ f. f j) (register_account-files i d) ∙ h),
          subst (λ b. Stored i b (save A to_vec_pretty from_slice c i t).1) same stored,
        )
  ]

  AllStored : ℕ → List WarpConfig → Disk A → Type 0
  AllStored i [] d = Unit
  AllStored i (cfg ∷ cfgs) d = Stored i cfg d × AllStored (i + 1) cfgs d

  keep-AllStored :
      (i : ℕ) (cfgs : List WarpConfig) (d e : Disk A)
      → Keeps d e
      → AllStored i cfgs d
      → AllStored i cfgs e
  unfolding AllStored
  keep-AllStored i [] d e kept stored = tt
  keep-AllStored i (cfg ∷ cfgs) d e kept ((content, there, reads), stored) =
      ((content, kept i content there, reads), keep-AllStored (i + 1) cfgs d e kept stored)

  accounts_from-AllStored :
      (i k : ℕ) (d : Disk A) (cfgs : List WarpConfig)
      → (accounts_from A to_vec_pretty from_slice true i k d).0 ≡ ok cfgs
      → Keeps d (accounts_from A to_vec_pretty from_slice true i k d).1
        × AllStored i cfgs (accounts_from A to_vec_pretty from_slice true i k d).1
        × (length cfgs ≡ k)
  unfolding accounts_from account AllStored
  accounts_from-AllStored i zero d cfgs e =
      let none_left = ok-injective [] cfgs e in
      (λ j content h. h, subst (λ l. AllStored i l d) none_left tt, sym (ap length none_left))
  accounts_from-AllStored i (suc k) d cfgs e =
      let cons_on : WarpConfig → List WarpConfig → Disk A → Outcome (List WarpConfig) × Disk A =
        λ cfg more u. (ok (cfg ∷ more), u) in
      let later : WarpConfig → Disk A → Outcome (List WarpConfig) × Disk A = λ cfg t.
        and_then (accounts_from A to_vec_pretty from_slice true (i + 1) k t) (cons_on cfg) in
      let (cfg, at_cfg, rest) =
        and_then-ok (persisted A to_vec_pretty from_slice i d) later cfgs e in
      let t = (persisted A to_vec_pretty from_slice i d).1 in
      let (more, at_more, last) =
        and_then-ok (accounts_from A to_vec_pretty from_slice true (i + 1) k t) (cons_on cfg) cfgs
          (sym (ap (λ r. r.0) rest) ∙ e) in
      let (kept, stored) = persisted-Stored i d cfg at_cfg in
      let (kept_more, stored_more, counted) = accounts_from-AllStored (i + 1) k t more at_more in
      let end = (accounts_from A to_vec_pretty from_slice true (i + 1) k t).1 in
      let all = rest ∙ last in
      let same : cfg ∷ more ≡ cfgs = ok-injective (cfg ∷ more) cfgs (sym (ap (λ r. r.0) all) ∙ e) in
      let ends : (accounts_from A to_vec_pretty from_slice true i (suc k) d).1 ≡ end =
        ap (λ r. r.1) all in
      let both : AllStored i (cfg ∷ more) end =
        ((stored.0, kept_more i stored.0 stored.1, stored.2), stored_more) in
      (
        λ j content h. ap (λ u. u.files j) ends ∙ kept_more j content (kept j content h),
        subst (λ u. AllStored i cfgs u) (sym ends) (subst (λ l. AllStored i l end) same both),
        sym (ap length same) ∙ omega (arith, counted),
      )

  reload :
      (i : ℕ) (cfgs : List WarpConfig) (d : Disk A)
      → AllStored i cfgs d
      → accounts_from A to_vec_pretty from_slice true i (length cfgs) d ≡ (ok cfgs, d)
  unfolding accounts_from account AllStored and_then
  reload i [] d stored = refl
  reload i (cfg ∷ cfgs) d ((content, there, reads), stored) =
      let loaded : persisted A to_vec_pretty from_slice i d ≡ (ok cfg, d) =
        unfold persisted load or_err in rw (persisted, there, load, reads) refl in
      rw (accounts_from, loaded, reload (i + 1) cfgs d stored) refl

  -- Where what a saved configuration is written as reads back as it: when a start with a state directory
  -- has given its accounts, they are as many as asked for, and a later start on a disk that still has the
  -- files gives the same accounts and does nothing else: it registers none and writes nothing.
  pub load_or_register-again :
      (n : ℕ) (d end later : Disk A) (cfgs : List WarpConfig)
      → load_or_register A to_vec_pretty from_slice true n d ≡ (ok cfgs, end)
      → ((j : ℕ) (content : List ℕ) → end.files j ≡ some content → later.files j ≡ some content)
      → (length cfgs ≡ n)
        × (load_or_register A to_vec_pretty from_slice true n later ≡ (ok cfgs, later))
  unfolding load_or_register
  load_or_register-again n d end later cfgs e kept =
      let (before, stored, counted) = accounts_from-AllStored 1 n d cfgs (ap (λ r. r.0) e) in
      let there : AllStored 1 cfgs later =
        keep-AllStored 1 cfgs end later kept
          (subst (λ u. AllStored 1 cfgs u) (ap (λ r. r.1) e) stored) in
      (
        counted,
        ap (λ k. accounts_from A to_vec_pretty from_slice true 1 k later) (sym counted)
            ∙ reload 1 cfgs later there,
      )
