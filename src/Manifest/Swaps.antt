-- ===== src/Manifest/Swaps.antt =====
-- manifest.py: what a write of a manifest does to the disk, whatever it returns or raises.
use text.Mathlib.TextLemmas.{append_cancel_left, append_cancel_right}
use turbohaul_manager_rocm.Prelude.{
  ℕ, ◌+◌, ◌==◌, String, false, subst, Option, none, some, List, [], ◌∷◌, Result, ok, err, decimal,
  decimal-injective, arith, ◌≡◌, refl, sym, ap, ◌∙◌, ◌⊎◌, inl, inr, Bool-cases, eq_iff, eq_refl,
}
use turbohaul_manager_rocm.Manifest.{Checked, Python, get}
use turbohaul_manager_rocm.Manifest.Store.{
  replace_file, update, create_or_update, put_reply, put_payload, invalid, validation_error,
  not_found, os_error, with_path, write_at, stored_manifest, Manifest, Files, StoreError,
  concurrency, set, etag, next_revision, safe_manifest_path, read_manifest, write_manifest_atomic,
  put_manifest, written,
}

pub get-set {ℓ} :
    {A : Type ℓ} (k : String) (a : A) (d : List (String × A)) → get k (set k a d) ≡ some a
get-set k a [] = ground (arith, eq_refl k)
get-set k a ((j, b) ∷ d) = ground (arith, eq_refl k, get-set k a d)

pub get-set-other {ℓ} :
    {A : Type ℓ} (k j : String) (a : A) (d : List (String × A))
    → (j == k) ≡ false
    → get j (set k a d) ≡ get j d
get-set-other k j a [] h = ground (arith, h)
get-set-other k j a ((i, b) ∷ d) h = elim (Bool-cases (k == i)) [
  | inl e ↦ ground (arith, h, (eq_iff k i).0 e)
  | inr e ↦ ground (arith, get-set-other k j a d h)
]

abbrev pub Disk : Type 0 → Type 0
Disk T = List (String × T)

pub etag-injective : {F : Type 0} (a b : Manifest F) → etag a ≡ etag b → a.revision ≡ b.revision
unfolding etag
etag-injective a b h = decimal-injective a.revision b.revision (
    append_cancel_right (decimal a.revision) (decimal b.revision) "\""
      (append_cancel_left "\"" _ _ h))

module _ {F T : Type 0} (py : Python F) (files : Files F T) where
  with_path-ok :
      {A : Type 0} (c : Checked) (r : Result StoreError A) (a : A)
      → with_path py files c r ≡ ok a
      → (c ≡ ok tt) × (r ≡ ok a)
  with_path-ok (ok tt) r a h = (refl, h)
  with_path-ok (err e) r a h = absurd cc

  -- What a write that goes through did: a creation, or an update of the manifest whose revision was named.
  abbrev pub IsSwap : Disk T → Manifest F → Option String → Manifest F → Type 0
  IsSwap disk m if_match m' =
      ((get m.model_tag disk ≡ none) × (m' ≡ m))
      ⊎ ((e : Manifest F) × (read_manifest py files disk m.model_tag ≡ ok e)
          × (if_match ≡ some (etag e))
          × (m' ≡ next_revision e m))

  -- The outcome of a write that wrote this manifest: it is returned, unless the sync raised.
  abbrev pub Replaced :
      Disk T → String → Manifest F → Result StoreError (Manifest F) × Disk T → Type 0
  Replaced disk tag m' out =
      (out.1 ≡ set tag (files.dump m') disk) × ((out.0 ≡ ok m') ⊎ (out.0 ≡ err os_error))

  -- What a write did, whatever it returned or raised: nothing, or a creation or an update that was allowed.
  abbrev pub IsEffect :
      Disk T → Manifest F → Option String → Result StoreError (Manifest F) × Disk T → Type 0
  IsEffect disk m if_match out =
      ((e : StoreError) × (out ≡ (err e, disk)))
      ⊎ ((m' : Manifest F) × (safe_manifest_path py files m.model_tag ≡ ok tt)
          × IsSwap disk m if_match m'
          × Replaced disk m.model_tag m' out)

  replace_file-Replaced :
      (disk : Disk T) (m : Manifest F)
      → (replace_file py files disk m ≡ (err os_error, disk))
        ⊎ Replaced disk m.model_tag m (replace_file py files disk m)
  replace_file-Replaced disk m = elim (Bool-cases files.replaces) [
    | inl r ↦ elim (Bool-cases files.syncs) [
      | inl y ↦ inr (rw (r, y) (refl, inl refl))
      | inr y ↦ inr (rw (r, y) (refl, inr refl))
    ]
    | inr r ↦ inl (rw r refl)
  ]

  replace_file-IsEffect :
      (disk : Disk T) (m m' : Manifest F) (if_match : Option String)
      → m'.model_tag ≡ m.model_tag
      → safe_manifest_path py files m.model_tag ≡ ok tt
      → IsSwap disk m if_match m'
      → IsEffect disk m if_match (replace_file py files disk m')
  replace_file-IsEffect disk m m' if_match t p swap = elim (replace_file-Replaced disk m') [
    | inl nothing ↦ inl (os_error, nothing)
    | inr put ↦
        inr (m', p, swap, subst (λ tag. Replaced disk tag m' (replace_file py files disk m')) t put)
  ]

  update-IsEffect :
      (disk : Disk T) (m : Manifest F) (if_match : Option String)
      (o : Result StoreError (Manifest F))
      → read_manifest py files disk m.model_tag ≡ o
      → safe_manifest_path py files m.model_tag ≡ ok tt
      → IsEffect disk m if_match (update py files disk m if_match o)
  update-IsEffect disk m if_match (err e) r p = inl (e, refl)
  update-IsEffect disk m none (ok e) r p = inl (concurrency, refl)
  update-IsEffect disk m (some match) (ok e) r p = elim (Bool-cases (match == etag e)) [
    | inl same ↦
        let named : some match ≡ some (etag e) = ap some ((eq_iff match (etag e)).0 same) in
        rw same (
          replace_file-IsEffect disk m (next_revision e m) (some match) refl p
            (inr (e, r, named, refl)))
    | inr other ↦ rw other (inl (concurrency, refl))
  ]

  create_or_update-IsEffect :
      (disk : Disk T) (m : Manifest F) (if_match : Option String) (o : Option T)
      → get m.model_tag disk ≡ o
      → safe_manifest_path py files m.model_tag ≡ ok tt
      → IsEffect disk m if_match (create_or_update py files disk m if_match o)
  create_or_update-IsEffect disk m if_match none g p =
      replace_file-IsEffect disk m m if_match refl p (inl (g, refl))
  create_or_update-IsEffect disk m if_match (some t) g p =
      update-IsEffect disk m if_match (read_manifest py files disk m.model_tag) refl p

  write_at-IsEffect :
      (disk : Disk T) (m : Manifest F) (if_match : Option String) (c : Checked)
      (next : Result StoreError (Manifest F) × Disk T)
      → (c ≡ ok tt → IsEffect disk m if_match next)
      → IsEffect disk m if_match (write_at py files disk c next)
  write_at-IsEffect disk m if_match (ok tt) next h = h refl
  write_at-IsEffect disk m if_match (err e) next h = inl (invalid e, refl)

  pub write_manifest_atomic-IsEffect :
      (disk : Disk T) (m : Manifest F) (if_match : Option String)
      → IsEffect disk m if_match (write_manifest_atomic py files disk m if_match)
  unfolding write_manifest_atomic
  write_manifest_atomic-IsEffect disk m if_match =
      write_at-IsEffect disk m if_match (safe_manifest_path py files m.model_tag)
        (create_or_update py files disk m if_match (get m.model_tag disk))
        (λ p. create_or_update-IsEffect disk m if_match (get m.model_tag disk) refl p)

  -- A write that returns a manifest wrote it.
  IsEffect-ok :
      (disk : Disk T) (m m' : Manifest F) (if_match : Option String)
      (out : Result StoreError (Manifest F) × Disk T)
      → IsEffect disk m if_match out
      → out.0 ≡ ok m'
      → IsSwap disk m if_match m'
  IsEffect-ok disk m m' if_match out (inl (e, failed)) h =
      absurd (let clash : err e ≡ ok m' = sym (ap (λ x. x.0) failed) ∙ h in cc)
  IsEffect-ok disk m m' if_match out (inr (n, p, swap, (put, inl done))) h =
      let same : Path (Result StoreError (Manifest F)) (ok n) (ok m') = sym done ∙ h in
      subst (IsSwap disk m if_match) (let same' : n ≡ m' = cc in same') swap
  IsEffect-ok disk m m' if_match out (inr (n, p, swap, (put, inr failed))) h =
      absurd (let clash : err os_error ≡ ok m' = sym failed ∙ h in cc)

  pub read_manifest-none :
      (disk : Disk T) (tag : String) (e : Manifest F)
      → get tag disk ≡ none
      → read_manifest py files disk tag ≡ ok e
      → ⊥
  unfolding read_manifest
  read_manifest-none disk tag e g h =
      let (path, found) = with_path-ok (safe_manifest_path py files tag) _ e h in
      absurd (let h' = rw g at found in cc)

  -- A file's text alone decides what reading its tag gives.
  pub read_manifest-get :
      (disk disk' : Disk T) (tag : String)
      → get tag disk' ≡ get tag disk
      → read_manifest py files disk' tag ≡ read_manifest py files disk tag
  unfolding read_manifest
  read_manifest-get disk disk' tag h =
      ap (λ o. with_path py files (safe_manifest_path py files tag) (stored_manifest py files o)) h

  put_reply-written :
      (r : Result StoreError (Manifest F)) (n : ℕ)
      → put_reply py files r ≡ written n
      → (m' : Manifest F) × (r ≡ ok m') × (m'.revision ≡ n)
  put_reply-written (ok m') n h = (m', refl, ground arith)
  put_reply-written (err (invalid e)) n h = absurd cc
  put_reply-written (err validation_error) n h = absurd cc
  put_reply-written (err concurrency) n h = absurd cc
  put_reply-written (err not_found) n h = absurd cc
  put_reply-written (err os_error) n h = absurd cc

  put_payload-written :
      (disk : Disk T) (m : Manifest F) (if_match : Option String) (c : Checked) (n : ℕ)
      → (put_payload py files disk m if_match c).0 ≡ written n
      → (m' : Manifest F) × IsSwap disk m if_match m' × (m'.revision ≡ n)
  put_payload-written disk m if_match (err e) n h = absurd cc
  put_payload-written disk m if_match (ok tt) n h =
      let out = write_manifest_atomic py files disk m if_match in
      let (m', done, rev) = put_reply-written out.0 n h in
      (
        m',
        IsEffect-ok disk m m' if_match out (write_manifest_atomic-IsEffect disk m if_match) done,
        rev,
      )

  pub put_manifest-written :
      (disk : Disk T) (tag : String) (payload : Manifest F) (if_match : Option String) (n : ℕ)
      → (put_manifest py files disk tag payload if_match).0 ≡ written n
      → (m' : Manifest F) × IsSwap disk (record payload { model_tag = tag }) if_match m'
        × (m'.revision ≡ n)
  unfolding put_manifest
  put_manifest-written disk tag payload if_match n h =
      put_payload-written disk (record payload { model_tag = tag }) if_match _ n h

  -- An update that a revision's ETag let through found that revision.
  pub IsSwap-match :
      (disk : Disk T) (m m' c e : Manifest F)
      → IsSwap disk m (some (etag e)) m'
      → read_manifest py files disk m.model_tag ≡ ok c
      → c.revision ≡ e.revision
  IsSwap-match disk m m' c e (inl (g, same)) r = absurd (read_manifest-none disk m.model_tag c g r)
  IsSwap-match disk m m' c e (inr (e0, r0, i, new)) r =
      let same : Path (Result StoreError (Manifest F)) (ok e0) (ok c) = sym r0 ∙ r in
      let named = etag-injective e e0 (ground (arith, i)) in ground arith

  pub IsSwap-revision :
      (disk : Disk T) (m m' c e : Manifest F)
      → IsSwap disk m (some (etag e)) m'
      → read_manifest py files disk m.model_tag ≡ ok c
      → m'.revision ≡ c.revision + 1
  IsSwap-revision disk m m' c e (inl (g, same)) r =
      absurd (read_manifest-none disk m.model_tag c g r)
  IsSwap-revision disk m m' c e (inr (e0, r0, i, new)) r =
      let same : Path (Result StoreError (Manifest F)) (ok e0) (ok c) = sym r0 ∙ r in
      let grown : m'.revision ≡ e0.revision + 1 = ap (λ x. x.revision) new in ground arith
