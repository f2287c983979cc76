-- ===== src/Manifest/Register.antt =====
-- manifest.py and api/manifests.py: a tag's file behaves as a register that is written by compare-and-swap on
-- its revision.
use turbohaul_manager_rocm.Prelude.{
  ℕ, Bool, false, concat, decimal, ◌+◌, ◌<◌, ◌==◌, String, true, Option, none, some, List, [], ◌∷◌,
  if◌then◌else◌, Result, ok, err, arith, ◌≡◌, refl, sym, ap, ◌∙◌, ◌⊎◌, inl, inr, Bool-cases,
  Option-cases, eq_iff,
}
use turbohaul_manager_rocm.Manifest.{Checked, Python, get}
use turbohaul_manager_rocm.Manifest.Tags.{validate_tag}
use turbohaul_manager_rocm.Manifest.Admitted.{then_check-ok}
use turbohaul_manager_rocm.Manifest.Store.{
  replace_file, update, create_or_update, put_payload, os_error, write_at, Manifest, validate,
  Files, fields, StoreError, concurrency, set, etag, next_revision, safe_manifest_path,
  read_manifest, write_manifest_atomic, put_manifest, written,
}
use turbohaul_manager_rocm.Manifest.Swaps.{
  Disk, get-set, get-set-other, IsSwap, write_manifest_atomic-IsEffect, read_manifest-none,
  read_manifest-get, put_manifest-written, IsSwap-match, IsSwap-revision,
}

-- A request to write a manifest.
pub record Put (F : Type 0) : Type 0 where
  pub tag : String
  pub payload : Manifest F
  pub if_match : Option String

abbrev pub puts : {F T : Type 0} → Python F → Files F T → Disk T → List (Put F) → Disk T
puts py files disk [] = disk
puts py files disk (p ∷ ps) =
    puts py files (put_manifest py files disk p.tag p.payload p.if_match).1 ps

-- A register with versions: its state is empty or a version with a value. A write names the version that it
-- replaces, and is refused where that is not the current one. The first write sets the version, each later one
-- adds one to it.
abbrev pub Cell : Type 0 → Type 0
Cell V = Option (ℕ × V)

abbrev pub compare_and_swap : {V : Type 0} → Cell V → ℕ × V → (ℕ → Bool) → Option (ℕ × V)
compare_and_swap none (first, v) names = some (first, v)
compare_and_swap (some (version, held)) (first, v) names =
    if names version then some (version + 1, v) else none

-- A version is named by its digits in double quotes.
abbrev pub quoted : Option String → ℕ → Bool
quoted none version = false
quoted (some text) version = text == concat "\"" (concat (decimal version) "\"")

-- A manifest as the value of a version, and back.
abbrev pub versioned : {F : Type 0} → Manifest F → ℕ × Manifest F
versioned m = (m.revision, record m { revision = 0 })

abbrev pub with_version : {F : Type 0} → ℕ × Manifest F → Manifest F
with_version (n, m) = record m { revision = n }

abbrev pub cell_of : {F : Type 0} → Option (Manifest F) → Cell (Manifest F)
cell_of none = none
cell_of (some e) = some (versioned e)

module _ {F T : Type 0} (py : Python F) (files : Files F T) where
  -- The register of a tag after a write: as it was, or with a higher revision.
  abbrev pub Evolves : Disk T → Disk T → Type 0
  Evolves disk disk' =
      (tag : String) (e : Manifest F)
      → read_manifest py files disk tag ≡ ok e
      → (read_manifest py files disk' tag ≡ ok e)
        ⊎ ((e' : Manifest F) × (read_manifest py files disk' tag ≡ ok e')
            × (e.revision < e'.revision))

  -- A register's state is what the disk holds under a tag.
  abbrev pub Holds : Disk T → String → Option (Manifest F) → Type 0
  Holds disk tag none = get tag disk ≡ none
  Holds disk tag (some e) = read_manifest py files disk tag ≡ ok e

  -- What becomes of the register's answer: a refusal is a ConcurrencyError; else the tag's file alone is
  -- replaced, and the manifest is returned, unless the sync behind the rename raises.
  abbrev pub onto :
      Disk T → String → Option (ℕ × Manifest F) → Result StoreError (Manifest F) × Disk T
  onto disk tag none = (err concurrency, disk)
  onto disk tag (some v) = (
    if files.syncs then ok (with_version v) else err os_error,
    set tag (files.dump (with_version v)) disk,
  )

  replace_file-onto :
      (disk : Disk T) (m : Manifest F)
      → files.replaces ≡ true
      → replace_file py files disk m
        ≡ (if files.syncs then ok m else err os_error, set m.model_tag (files.dump m) disk)
  replace_file-onto disk m w =
      ap
        (λ b.
          if b
          then (if files.syncs then ok m else err os_error, set m.model_tag (files.dump m) disk)
          else (err os_error, disk))
        w

  update-onto :
      (disk : Disk T) (m e : Manifest F) (if_match : Option String)
      → files.replaces ≡ true
      → update py files disk m if_match (ok e)
        ≡ onto disk m.model_tag
            (compare_and_swap (cell_of (some e)) (versioned m) (quoted if_match))
  unfolding etag
  update-onto disk m e none w = refl
  update-onto disk m e (some match) w = elim (Bool-cases (match == etag e)) [
    | inl same ↦ rw same (replace_file-onto disk (next_revision e m) w)
    | inr other ↦ rw other refl
  ]

  write_at-ok_path :
      (disk : Disk T) (m : Manifest F) (if_match : Option String) (o : Option T)
      → safe_manifest_path py files m.model_tag ≡ ok tt
      → get m.model_tag disk ≡ o
      → write_manifest_atomic py files disk m if_match ≡ create_or_update py files disk m if_match o
  unfolding write_manifest_atomic
  write_at-ok_path disk m if_match o p g =
      ap
        (λ c.
          write_at py files disk c
            (create_or_update py files disk m if_match (get m.model_tag disk)))
        p
      ∙ ap (create_or_update py files disk m if_match) g

  -- Where the path is safe and the rename goes through, the write of a manifest is the compare-and-swap of a
  -- register with versions: an absent file is the empty register, and a creation keeps its own revision whatever
  -- If-Match names; on a file the If-Match has to name the revision that is held, in quotes, and the new one
  -- is one more. Nothing but the file of the tag changes, and on a refusal nothing does. A file
  -- that is there has to be readable, and where the sync behind the rename raises, the new file stays.
  pub write_manifest_atomic-compare_and_swap :
      (disk : Disk T) (reg : Option (Manifest F)) (m : Manifest F) (if_match : Option String)
      → Holds disk m.model_tag reg
      → safe_manifest_path py files m.model_tag ≡ ok tt
      → files.replaces ≡ true
      → write_manifest_atomic py files disk m if_match
        ≡ onto disk m.model_tag (compare_and_swap (cell_of reg) (versioned m) (quoted if_match))
  write_manifest_atomic-compare_and_swap disk none m if_match r p w =
      write_at-ok_path disk m if_match none p r ∙ replace_file-onto disk m w
  write_manifest_atomic-compare_and_swap disk (some e) m if_match r p w =
      elim (Option-cases (get m.model_tag disk)) [
        | inl g ↦ absurd (read_manifest-none py files disk m.model_tag e g r)
        | inr (t, g) ↦
            write_at-ok_path disk m if_match (some t) p g
            ∙ ap (update py files disk m if_match) r
            ∙ update-onto disk m e if_match w
      ]

  module _ (reads : (m : Manifest F) → files.load (files.dump m) ≡ fields m) where
    read_manifest-set :
        (disk : Disk T) (tag : String) (m : Manifest F)
        → safe_manifest_path py files tag ≡ ok tt
        → validate py m ≡ ok tt
        → read_manifest py files (set tag (files.dump m) disk) tag ≡ ok m
    unfolding read_manifest
    read_manifest-set disk tag m p v = rw (p, get-set tag (files.dump m) disk, reads m, v) refl

    next_revision-valid :
        (e m : Manifest F) → validate py m ≡ ok tt → validate py (next_revision e m) ≡ ok tt
    unfolding validate
    next_revision-valid e m h = ground arith

    IsSwap-valid :
        (disk : Disk T) (m m' : Manifest F) (if_match : Option String)
        → validate py m ≡ ok tt
        → IsSwap py files disk m if_match m'
        → validate py m' ≡ ok tt
    IsSwap-valid disk m m' if_match v (inl (g, same)) = ap (validate py) same ∙ v
    IsSwap-valid disk m m' if_match v (inr (e, r, i, new)) =
        ap (validate py) new ∙ next_revision-valid e m v

    IsSwap-grows :
        (disk : Disk T) (m m' e : Manifest F) (if_match : Option String)
        → IsSwap py files disk m if_match m'
        → read_manifest py files disk m.model_tag ≡ ok e
        → e.revision < m'.revision
    IsSwap-grows disk m m' e if_match (inl (g, same)) r =
        absurd (read_manifest-none py files disk m.model_tag e g r)
    IsSwap-grows disk m m' e if_match (inr (e0, r0, i, new)) r =
        let same : Path (Result StoreError (Manifest F)) (ok e0) (ok e) = sym r0 ∙ r in
        let grown : m'.revision ≡ e0.revision + 1 = ap (λ x. x.revision) new in ground arith

    pub write_manifest_atomic-Evolves :
        (disk : Disk T) (m : Manifest F) (if_match : Option String)
        → validate py m ≡ ok tt
        → Evolves disk (write_manifest_atomic py files disk m if_match).1
    write_manifest_atomic-Evolves disk m if_match v tag e r =
        let disk' = (write_manifest_atomic py files disk m if_match).1 in
        elim (write_manifest_atomic-IsEffect py files disk m if_match) [
          | inl (x, failed) ↦
              inl (ap (λ d. read_manifest py files d tag) (ap (λ x. x.1) failed) ∙ r)
          | inr (m', path, swap, (put, how)) ↦ elim (Bool-cases (tag == m.model_tag)) [
            | inl same ↦
                let t = (eq_iff tag m.model_tag).0 same in
                inr (
                  m',
                  ap (read_manifest py files disk') t
                      ∙ ap (λ d. read_manifest py files d m.model_tag) put
                      ∙ read_manifest-set disk m.model_tag m' path
                          (IsSwap-valid disk m m' if_match v swap),
                  IsSwap-grows disk m m' e if_match swap
                      (ap (read_manifest py files disk) (sym t) ∙ r),
                )
            | inr other ↦ inl (
                read_manifest-get py files disk disk' tag
                  (ap (get tag) put ∙ get-set-other m.model_tag tag (files.dump m') disk other)
                ∙ r)
          ]
        ]

    put_payload-Evolves :
        (disk : Disk T) (m : Manifest F) (if_match : Option String) (c : Checked)
        → (c ≡ ok tt → validate py m ≡ ok tt)
        → Evolves disk (put_payload py files disk m if_match c).1
    put_payload-Evolves disk m if_match (err e) h = λ t e r. inl r
    put_payload-Evolves disk m if_match (ok tt) h =
        write_manifest_atomic-Evolves disk m if_match (h refl)

    put_manifest-Evolves :
        (disk : Disk T) (tag : String) (payload : Manifest F) (if_match : Option String)
        → Evolves disk (put_manifest py files disk tag payload if_match).1
    unfolding put_manifest
    put_manifest-Evolves disk tag payload if_match =
        put_payload-Evolves disk (record payload { model_tag = tag }) if_match _
          λ h. (then_check-ok (validate_tag tag) _ h).1

    puts-Evolves : (disk : Disk T) (rs : List (Put F)) → Evolves disk (puts py files disk rs)
    puts-Evolves disk [] = λ t e r. inl r
    puts-Evolves disk (p ∷ ps) = λ t e r.
        let next = (put_manifest py files disk p.tag p.payload p.if_match).1 in
        elim (put_manifest-Evolves disk p.tag p.payload p.if_match t e r) [
          | inl same ↦ puts-Evolves next ps t e same
          | inr (e1, r1, lt) ↦ elim (puts-Evolves next ps t e1 r1) [
            | inl same ↦ inr (e1, same, lt)
            | inr (e2, r2, lt2) ↦ inr (e2, r2, omega (arith, lt, lt2))
          ]
        ]

    -- After any requests to write manifests, a write that names the ETag of a manifest which was read before is
    -- accepted only while the tag still holds that manifest: an accepted update never undoes one unread.
    pub put_manifest-unchanged :
        (disk : Disk T) (rs : List (Put F)) (tag : String) (e payload : Manifest F) (n : ℕ)
        → read_manifest py files disk tag ≡ ok e
        → (put_manifest py files (puts py files disk rs) tag payload (some (etag e))).0 ≡ written n
        → (read_manifest py files (puts py files disk rs) tag ≡ ok e) × (n ≡ e.revision + 1)
    put_manifest-unchanged disk rs tag e payload n r h =
        let d = puts py files disk rs in
        let m = record payload { model_tag = tag } in
        let (m', swap, rev) = put_manifest-written py files d tag payload (some (etag e)) n h in
        elim (puts-Evolves disk rs tag e r) [
          | inl same ↦ (same, sym rev ∙ IsSwap-revision py files d m m' e e swap same)
          | inr (e1, r1, lt) ↦ absurd (omega (arith, lt, IsSwap-match py files d m m' e1 e swap r1))
        ]
