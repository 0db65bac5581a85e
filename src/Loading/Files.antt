-- ===== src/Loading/Files.antt =====
-- `_get_hf_weight_files`: which files of a model's repository hold its weights. A file name is its code
-- points; the listing of the repository and the local snapshot are parameters.
use lmserve.Prelude.{
  ℕ, ◌≡◌, ◌≢◌, refl, sym, ◌∙◌, ◌⊎◌, inl, inr, Bool, true, false, ◌&&◌, List, [], ◌∷◌, map, Option,
  none, some, ◌==◌, if◌then◌else◌, Result, ok, raise, file_not_found_error, arith,
}

unfoldable pub same_text : List ℕ → List ℕ → Bool
same_text [] [] = true
same_text (c ∷ cs) (d ∷ ds) = (c == d) && same_text cs ds
same_text _ _ = false

-- `f.endswith(ext)`
unfoldable pub ends_with : List ℕ → List ℕ → Bool
unfolding same_text
ends_with [] ext = same_text [] ext
ends_with (c ∷ cs) ext =
    let rest = ends_with cs ext in if same_text (c ∷ cs) ext then true else rest

-- `[f for f in repo_files if f.endswith(ext)]`
unfoldable pub with_ext : List ℕ → List (List ℕ) → List (List ℕ)
unfolding ends_with
with_ext ext [] = []
with_ext ext (f ∷ fs) = let rest = with_ext ext fs in if ends_with f ext then f ∷ rest else rest

-- The loop over the extensions, with its `break`.
unfoldable pub weight_names : List (List ℕ) → List (List ℕ) → List (List ℕ)
unfolding with_ext
weight_names [] repo_files = []
weight_names (ext ∷ exts) repo_files =
    let rest = weight_names exts repo_files in
    elim (with_ext ext repo_files) [ [] ↦ rest | f ∷ fs ↦ f ∷ fs ]

unfoldable pub all_exist : (List ℕ → Bool) → List (List ℕ) → Bool
all_exist exists [] = true
all_exist exists (f ∷ fs) = exists f && all_exist exists fs

-- The hub: the local snapshot's path, if there is one, and the path of a download; the files that a
-- path has; and `os.path.join`.
pub record Hub (Path_ : Type 0) : Type 0 where
  pub local_snapshot : Option Path_
  pub download : Path_
  pub exists : Path_ → List ℕ → Bool
  pub join : Path_ → List ℕ → Path_

module _ {P : Type 0} (hub : Hub P) where
  -- The `try` around the local snapshot.
  unfoldable pub snapshot_path : List (List ℕ) → P
  unfolding all_exist
  snapshot_path names = elim hub.local_snapshot [
    | none ↦ hub.download
    | some path ↦ if all_exist (hub.exists path) names then path else hub.download
  ]

  unfoldable pub get_hf_weight_files : List (List ℕ) → List (List ℕ) → Result (List P)
  unfolding weight_names snapshot_path
  get_hf_weight_files repo_files extensions = elim (weight_names extensions repo_files) [
    | [] ↦ raise file_not_found_error
    | f ∷ fs ↦ ok (map (hub.join (snapshot_path (f ∷ fs))) (f ∷ fs))
  ]

-- The first extension that some file has.
pub data FirstExt (repo_files : List (List ℕ)) : List (List ℕ) → List ℕ → Type 0 where
  here :
      (ext : List ℕ) (exts : List (List ℕ))
      → with_ext ext repo_files ≢ []
      → FirstExt repo_files (ext ∷ exts) ext
  later :
      (e : List ℕ) (exts : List (List ℕ)) (ext : List ℕ)
      → with_ext e repo_files ≡ []
      → FirstExt repo_files exts ext
      → FirstExt repo_files (e ∷ exts) ext

list_cases {ℓ} : {A : Type ℓ} (l : List A) → (l ≡ []) ⊎ ((x : A) × (xs : List A) × (l ≡ x ∷ xs))
list_cases [] = inl refl
list_cases (x ∷ xs) = inr (x, xs, refl)

cons_not_nil {ℓ} : {A : Type ℓ} {x : A} {xs : List A} → (x ∷ xs) ≢ []
cons_not_nil e = cc

weight_names-first :
    (exts repo_files : List (List ℕ)) (f : List ℕ) (fs : List (List ℕ))
    → weight_names exts repo_files ≡ f ∷ fs
    → (ext : List ℕ) × FirstExt repo_files exts ext × (with_ext ext repo_files ≡ f ∷ fs)
unfolding weight_names
weight_names-first [] repo f fs h = absurd (cons_not_nil (sym h))
weight_names-first (e ∷ exts) repo f fs h = elim (list_cases (with_ext e repo)) [
  | inl x ↦
      let h' : weight_names exts repo ≡ f ∷ fs = ground (arith, h, x) in
      let rest = weight_names-first exts repo f fs h' in
      (rest.0, later e exts rest.0 x rest.1, rest.2)
  | inr (g, gs, x) ↦
      let same : with_ext e repo ≡ f ∷ fs = ground (arith, h, x) in
      (e, here e exts (λ p. cons_not_nil (sym same ∙ p)), same)
]

module _ {P : Type 0} (hub : Hub P) where
  -- If the weight files are found, they are all files of the repository that have one extension, the first of
  -- the list that any file has, in the repository's order and under one path: that of the local
  -- snapshot if it has all of them, else that of the download.
  pub get_hf_weight_files-first :
      (repo_files extensions : List (List ℕ)) (files : List P)
      → get_hf_weight_files hub repo_files extensions ≡ ok files
      → (ext : List ℕ) × FirstExt repo_files extensions ext
        × (files
            ≡ map
                (hub.join (snapshot_path hub (with_ext ext repo_files)))
                (with_ext ext repo_files))
  unfolding get_hf_weight_files
  get_hf_weight_files-first repo exts files h = elim (list_cases (weight_names exts repo)) [
    | inl x ↦ ground (arith, h, x)
    | inr (f, fs, x) ↦
        let first = weight_names-first exts repo f fs x in
        let eq : files ≡ map (hub.join (snapshot_path hub (f ∷ fs))) (f ∷ fs) =
          ground (arith, h, x) in
        (first.0, first.1, rw (first.2) eq)
  ]
