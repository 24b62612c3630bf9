-- ===== src/Integrity/RoundTrip.antt =====
-- A folder verifies against the manifest that is generated of it.
use freaky_ocs.Base.{
  distinct, String, ◌≡◌, inl, inr, true, false, some, List, [], ◌∷◌, All, Bool-cases, elem, str_eq,
  eq_iff, arith, refl,
}
use mathlib.Core.Path.{subst}
use freaky_ocs.Base.Dict.{Dict, get, insert, keys, get-insert}
use freaky_ocs.Integrity.{
  hash_files, generate_manifest, actual_files, verified, verify_folder_integrity, manifest,
}
use freaky_ocs.Integrity.Laws.{Tracked, verify_folder_integrity_lem}

keys-insert :
    (P : String → Type 0) (k : String) (v : String) (d : Dict String)
    → P k
    → All P (keys d)
    → All P (keys (insert k v d))
unfolding keys insert
keys-insert P k v [] at_k at_d = (at_k, tt)
keys-insert P k v ((j, w) ∷ d) at_k at_d = elim (Bool-cases (str_eq j k)) [
  | inl same ↦ rw same at_d
  | inr other ↦ rw other (at_d.0, keys-insert P k v d at_k at_d.1)
]

elem_grow :
    (x : String) (xs ys : List String)
    → All (λ p. elem p xs ≡ true) ys
    → All (λ p. elem p (x ∷ xs) ≡ true) ys
unfolding elem
elem_grow x xs [] h = tt
elem_grow x xs (y ∷ ys) h = (ground (arith, h.0), elem_grow x xs ys h.1)

elem_self : (xs : List String) → All (λ p. elem p xs ≡ true) xs
unfolding elem
elem_self [] = tt
elem_self (x ∷ xs) = (ground (arith, eq_iff x x), elem_grow x xs xs (elem_self xs))

module _ {C : Type 0} (sha256 : C → String) where
  get-hash_files :
      (name path : String) (files : Dict C) (recorded : Dict String)
      → elem path (keys files) ≡ false
      → get path (hash_files sha256 name files recorded) ≡ get path recorded
  unfolding hash_files elem keys
  get-hash_files name path [] recorded h = refl
  get-hash_files name path ((other, c) ∷ files) recorded h = ground (
    arith,
    get-hash_files name path files recorded,
    get-hash_files name path files (insert other (sha256 c) recorded),
    get-insert other path (sha256 c) recorded,
  )

  hash_files-skipped :
      (name path : String) (c : C) (files : Dict C) (recorded : Dict String)
      → str_eq path name ≡ true
      → hash_files sha256 name files recorded ≡ hash_files sha256 name ((path, c) ∷ files) recorded
  unfolding hash_files
  hash_files-skipped name path c files recorded h = rw h

  hash_files-added :
      (name path : String) (c : C) (files : Dict C) (recorded : Dict String)
      → str_eq path name ≡ false
      → hash_files sha256 name files (insert path (sha256 c) recorded)
        ≡ hash_files sha256 name ((path, c) ∷ files) recorded
  unfolding hash_files
  hash_files-added name path c files recorded h = rw h

  hash_files-Tracked :
      (name : String) (files : Dict C) (recorded : Dict String)
      → distinct (keys files) ≡ true
      → All (Tracked sha256 name (hash_files sha256 name files recorded)) files
  unfolding distinct keys
  hash_files-Tracked name [] recorded h = tt
  hash_files-Tracked name ((path, c) ∷ files) recorded h = elim (Bool-cases (str_eq path name)) [
    | inl same ↦
        subst (λ d. All (Tracked sha256 name d) ((path, c) ∷ files))
          (hash_files-skipped name path c files recorded same)
          (inl ((eq_iff path name).0 same), hash_files-Tracked name files recorded (ground arith))
    | inr other ↦
        subst (λ d. All (Tracked sha256 name d) ((path, c) ∷ files))
          (hash_files-added name path c files recorded other)
          (
            inr (
                ground (
                  arith,
                  eq_iff path path,
                  get-hash_files name path files (insert path (sha256 c) recorded),
                  get-insert path path (sha256 c) recorded,
                )),
            hash_files-Tracked name files (insert path (sha256 c) recorded) (ground arith),
          )
  ]

  keys-hash_files :
      (P : String → Type 0) (name : String) (files : Dict C) (recorded : Dict String)
      → All P (actual_files sha256 name files)
      → All P (keys recorded)
      → All P (keys (hash_files sha256 name files recorded))
  unfolding hash_files actual_files
  keys-hash_files P name [] recorded at_files at_keys = at_keys
  keys-hash_files P name ((path, c) ∷ files) recorded at_files at_keys =
      elim (Bool-cases (str_eq path name)) [
        | inl same ↦ rw same (keys-hash_files P name files recorded (rw same at at_files) at_keys)
        | inr other ↦
            let (at_path, rest) = rw other at at_files in
            rw other (
              keys-hash_files P name files (insert path (sha256 c) recorded) rest
                (keys-insert P path (sha256 c) recorded at_path at_keys))
      ]

  -- A folder in which every path stands once is valid, without issues, by the manifest that is
  -- generated of it.
  pub verify_folder_integrity-generate_manifest :
      (name : String) (files : Dict C)
      → distinct (keys files) ≡ true
      → verify_folder_integrity sha256 name
          (some files)
          (manifest (generate_manifest sha256 name files))
        ≡ verified true (record { modified = []; missing = []; untracked = [] })
  unfolding generate_manifest keys
  verify_folder_integrity-generate_manifest name files h =
      (verify_folder_integrity_lem sha256 name files (hash_files sha256 name files [])).1 (
        hash_files-Tracked name files [] h,
        keys-hash_files (λ p. elem p (actual_files sha256 name files) ≡ true) name files []
            (elem_self (actual_files sha256 name files)) tt,
      )
