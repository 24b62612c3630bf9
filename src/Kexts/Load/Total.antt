-- ===== src/Kexts/Load/Total.antt =====
-- Without cyclic libraries, the bundles are sorted, each behind its libraries.
use freaky_ocs.Base.{
  ℕ, zero, suc, ◌<◌, String, ◌≡◌, refl, ap, ◌∙◌, Bool, true, not, ◌||◌, ltb, ltb→lt, Option, none,
  some, List, [], ◌∷◌, all, elem, get_elem?, str_eq, eq_iff, arith, inl, inr, if◌then◌else◌,
  Bool-cases, Option-cases,
}
use freaky_ocs.Darwin.{Version}
use freaky_ocs.Report.{Range}
use freaky_ocs.Kexts.Load.{
  Bundle, Entry, Sorting, Visiting, sorted_to, ◌>>=◌, is_visited, is_seen, find_bundle, kext_range,
  set_bounds, within_library, adjusted_range, narrow_by, adjust, append_bundle, visit_libraries,
  visit,
}
use freaky_ocs.Kexts.Load.Order.{
  index_met, library_met, libraries_first, count_enabled, libraries_first-append,
  count_enabled-append, is_seen-append, is_visited-append, is_visited_refl,
}

-- The rank of a library of a bundle is below that of the bundle.
abbrev pub falls : List Bundle → (ℕ → ℕ) → ℕ → String → Bool
falls bundles rank n l = elim (find_bundle l bundles) [ none ↦ true | some j ↦ ltb (rank j) n ]

pub then-sorted :
    (r : Visiting) (f : Sorting → Visiting) (s1 s2 : Sorting)
    → r ≡ sorted_to s1
    → f s1 ≡ sorted_to s2
    → (r >>= f) ≡ sorted_to s2
then-sorted r f s1 s2 e e' = ap (λ x. x >>= f) e ∙ e'

module _ (bundles : List Bundle) (unload : List String) (macos : Version) where
  pub record Good (s : Sorting) : Type 0 where
    pub first : libraries_first bundles unload [] s.sorted ≡ true
    pub once : (id : String) → count_enabled id s.sorted ≡ (if is_seen id s.sorted then 1 else 0)

  abbrev pub Grows : Sorting → Sorting → Type 0
  Grows s s' = (b : Bundle) → is_visited b s.sorted ≡ true → is_visited b s'.sorted ≡ true

  abbrev pub Leaves : ℕ → Sorting → Visiting → Type 0
  Leaves i s r =
      (s' : Sorting) × (r ≡ sorted_to s')
      × Good s'
      × Grows s s'
      × (index_met bundles unload s'.sorted i ≡ true)

  abbrev LeavesAll : List String → Sorting → Visiting → Type 0
  LeavesAll ls s r =
      (s' : Sorting) × (r ≡ sorted_to s')
      × Good s'
      × Grows s s'
      × (all (library_met bundles unload s'.sorted) ls ≡ true)

  index_met-Grows :
      (s s' : Sorting) (j : ℕ)
      → Grows s s'
      → index_met bundles unload s.sorted j ≡ true
      → index_met bundles unload s'.sorted j ≡ true
  unfolding index_met
  index_met-Grows s s' j g h = elim (Option-cases (get_elem? bundles j)) [
    | inl e ↦ ground arith
    | inr (d, e) ↦ elim (Bool-cases (elem d.name unload)) [
      | inl off ↦ ground arith
      | inr on ↦ (let later = g d (ground arith) in ground arith)
    ]
  ]

  append_bundle-Good :
      (b : Bundle) (s : Sorting)
      → Good s
      → all (library_met bundles unload s.sorted) b.libraries ≡ true
      → Good (append_bundle b s)
  unfolding append_bundle count_enabled is_seen
  append_bundle-Good b s h m = record {
    first = libraries_first-append bundles unload [] s.sorted _ h.first m;
    once = λ id.
        let e : Entry = record { bundle = b; enabled = not (is_seen b.identifier s.sorted) } in
        let counted = count_enabled-append id s.sorted (e ∷ []) in
        let seen = is_seen-append id s.sorted (e ∷ []) in
        let before = h.once id in
        elim (Bool-cases (str_eq b.identifier id)) [
          | inl at ↦
              (let same = (eq_iff b.identifier id).0 at in
                let is = ap (λ x. is_seen x s.sorted) same in ground arith)
          | inr off ↦ ground arith
        ];
  }

  append_bundle-visited :
      (b : Bundle) (s : Sorting) → is_visited b (append_bundle b s).sorted ≡ true
  unfolding append_bundle
  append_bundle-visited b s =
      let seen = is_visited_refl b (not (is_seen b.identifier s.sorted)) in
      ground (
        arith,
        is_visited-append b s.sorted
            (record { bundle = b; enabled = not (is_seen b.identifier s.sorted) } ∷ []),
      )

  append_bundle-Grows : (b : Bundle) (s : Sorting) → Grows s (append_bundle b s)
  unfolding append_bundle
  append_bundle-Grows b s d h = ground (
    arith,
    is_visited-append d s.sorted
        (record { bundle = b; enabled = not (is_seen b.identifier s.sorted) } ∷ []),
  )

  set_bounds-Good : (i : ℕ) (r : Option Range) (s : Sorting) → Good s → Good (set_bounds i r s)
  set_bounds-Good i r s h = record { first = h.first; once = h.once }

  visit_libraries-Leaves :
      (visit : ℕ → Sorting → Visiting) (rank : ℕ → ℕ) (n i : ℕ)
      → ((j : ℕ) (s : Sorting) → rank j < n → Good s → Leaves j s (visit j s))
      → (ls : List String) (s : Sorting) → all (falls bundles rank n) ls ≡ true
      → Good s
      → LeavesAll ls s (visit_libraries visit bundles i ls s)
  unfolding visit_libraries library_met narrow_by
  visit_libraries-Leaves visit rank n i calls [] s f h = (s, refl, h, (λ b m. m), refl)
  visit_libraries-Leaves visit rank n i calls (l ∷ ls) s f h =
      elim (Option-cases (find_bundle l bundles)) [
        | inl e ↦
            (let (s1, r1, h1, g1, m1) =
                visit_libraries-Leaves visit rank n i calls ls s (ground arith) h in
              (s1, ground arith, h1, g1, ground arith))
        | inr (j, e) ↦
            (let lt = ltb→lt (rank j) n (ground arith) in
              let (s1, r1, h1, g1, m1) = calls j s lt h in
              let h2 = set_bounds-Good i (within_library (s1.bounds i) (s1.bounds j)) s1 h1 in
              let (s2, r2, h3, g2, m2) =
                visit_libraries-Leaves visit rank n i calls ls (narrow_by i j s1) (ground arith)
                  h2 in
              let met = index_met-Grows s1 s2 j g2 m1 in
              let called =
                then-sorted (visit j s) (λ t. visit_libraries visit bundles i ls (narrow_by i j t))
                  s1 s2 r1 r2 in
              (s2, ground arith, h3, (λ b m. g2 b (g1 b m)), ground arith))
      ]

  pub visit-Leaves :
      (rank : ℕ → ℕ)
      → ((i : ℕ) (b : Bundle)
          → get_elem? bundles i ≡ some b
          → all (falls bundles rank (rank i)) b.libraries ≡ true)
      → (fuel i : ℕ) (s : Sorting) → rank i < fuel
      → Good s
      → Leaves i s (visit bundles unload macos fuel i s)
  unfolding visit index_met adjust
  visit-Leaves rank acyclic zero i s lt h = absurd (omega arith)
  visit-Leaves rank acyclic (suc fuel) i s lt h = elim (Option-cases (get_elem? bundles i)) [
    | inl e ↦ (s, ground arith, h, (λ b m. m), ground arith)
    | inr (b, e) ↦ elim (Bool-cases (elem b.name unload || is_visited b s.sorted)) [
      | inl stop ↦ (s, ground arith, h, (λ d m. m), ground arith)
      | inr run ↦
          (let start = set_bounds i (some (kext_range b.name)) s in
            let (s1, r1, h1, g1, m1) =
              visit_libraries-Leaves (visit bundles unload macos fuel) rank (rank i) i
                (λ j t lt' h'. visit-Leaves rank acyclic fuel j t (omega arith) h') b.libraries
                start (acyclic i b e) (set_bounds-Good i (some (kext_range b.name)) s h) in
            let s2 = adjust macos i b s1 in
            let h2 = set_bounds-Good i (adjusted_range macos b.name (s1.bounds i)) s1 h1 in
            let visited = append_bundle-visited b s2 in
            let called =
              then-sorted
                (visit_libraries (visit bundles unload macos fuel) bundles i b.libraries start)
                (λ t. sorted_to (append_bundle b (adjust macos i b t))) s1 (append_bundle b s2) r1
                refl in
            (
              append_bundle b s2,
              ground arith,
              append_bundle-Good b s2 h2 m1,
              (λ d m. append_bundle-Grows b s2 d (g1 d m)),
              ground arith,
            ))
    ]
  ]
