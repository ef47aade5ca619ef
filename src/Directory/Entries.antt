-- ===== src/Directory/Entries.antt =====
-- What the answers of `CDirectory` of utils/Directory.cpp say about a directory.
use tag_etl.Directory.{
  Call, System, add_dir_end_symb, has_entry, is_dir_exist, is_empty_dir, opendir,
}
use tag_etl.Logger.Moves.{bytes_eq-false}
use tag_etl.Prelude.{
  ◌≡◌, ◌≢◌, ◌↔◌, ◌⊎◌, inl, inr, refl, Bool, true, false, Bool-cases, List, [], ◌∷◌, Option, none,
  some, Option-cases, ◌||◌, not, sym, ap, ◌∙◌,
}
use tag_etl.Profile.Lookup.{is_empty}
use tag_etl.Text.{Bytes, bytes_eq, bytes_eq_iff, codes}

-- A name other than that of the directory itself and of its parent stands in the list.
abbrev pub HasFile : List Bytes → Type 0
HasFile [] = ⊥
HasFile (name ∷ names) = ((name ≢ codes ".") × (name ≢ codes "..")) ⊎ HasFile names

has_entry-HasFile : (names : List Bytes) → has_entry names ≡ true → HasFile names
unfolding has_entry
has_entry-HasFile [] h = cc
has_entry-HasFile (name ∷ names) h = elim (Bool-cases (bytes_eq name (codes "."))) [
  | inl e ↦ inr (has_entry-HasFile names (rw e at h))
  | inr e ↦ elim (Bool-cases (bytes_eq name (codes ".."))) [
    | inl f ↦ inr (has_entry-HasFile names (rw (e, f) at h))
    | inr f ↦ inl (
      λ p. let t = (bytes_eq_iff name (codes ".")).1 p in cc,
      λ p. let t = (bytes_eq_iff name (codes "..")).1 p in cc,
    )
  ]
]

HasFile-has_entry : (names : List Bytes) → HasFile names → has_entry names ≡ true
unfolding has_entry
HasFile-has_entry [] h = elim h [ ]
HasFile-has_entry (name ∷ names) (inl h) =
    let one : bytes_eq name (codes ".") ≡ false = bytes_eq-false name (codes ".") h.0 in
    let two : bytes_eq name (codes "..") ≡ false = bytes_eq-false name (codes "..") h.1 in
    rw (one, two) refl
HasFile-has_entry (name ∷ names) (inr h) =
    elim (Bool-cases (bytes_eq name (codes ".") || bytes_eq name (codes ".."))) [
      | inl e ↦ rw e (HasFile-has_entry names h)
      | inr e ↦ rw e refl
    ]

not-eq-false : {b : Bool} → not b ≡ false → b ≡ true
not-eq-false {b = true} h = refl
not-eq-false {b = false} h = cc

some-injective : {a b : List Bytes} → some a ≡ some b → a ≡ b
some-injective h = cc

-- The answers to opendir, for the first time and once more.
abbrev pub first_list : System → Bytes → List Call → Option (List Bytes)
first_list env path calls = env.entries (opendir (add_dir_end_symb path) ∷ calls)

abbrev pub second_list : System → Bytes → List Call → Option (List Bytes)
second_list env path calls = first_list env path (opendir (add_dir_end_symb path) ∷ calls)

-- `IsEmptyDir` answers false exactly where the path is not empty, the directory opens twice, and holds
-- a name besides its own and its parent's. So it answers true of a directory that is not there.
pub is_empty_dir-false_iff :
    (env : System) (path : Bytes) (calls : List Call)
    → ((is_empty_dir env path calls).0 ≡ false) ↔ (
        (names : List Bytes) × (is_empty path ≡ false)
        × (first_list env path calls ≢ none)
        × (second_list env path calls ≡ some names)
        × HasFile names)
unfolding is_empty_dir is_dir_exist
is_empty_dir-false_iff env [] calls = ((λ h. cc), λ r. let e = r.1 in cc)
is_empty_dir-false_iff env (c ∷ path) calls =
    elim (Option-cases (first_list env (c ∷ path) calls)) [
      | inl e ↦
          let v : (is_empty_dir env (c ∷ path) calls).0 ≡ true = simp e refl in
          (λ h. let t = v in cc, λ r. elim (r.2 e) [ ])
      | inr e ↦ elim (Option-cases (second_list env (c ∷ path) calls)) [
        | inl f ↦
            let v : (is_empty_dir env (c ∷ path) calls).0 ≡ true = simp (e.1, f) refl in
            (λ h. let t = v in cc, λ r. let g = r.3 in cc)
        | inr f ↦
            let v : (is_empty_dir env (c ∷ path) calls).0 ≡ not (has_entry f.0) =
              simp (e.1, f.1) refl in
            let there = e.1 in
            (
              λ h. (f.0, refl, λ z. cc, f.1, has_entry-HasFile f.0 (not-eq-false (sym v ∙ h))),
              λ r.
                  let same : f.0 ≡ r.0 = some-injective (sym f.1 ∙ r.3) in
                  v ∙ ap (λ n. not (has_entry n)) same ∙ rw (HasFile-has_entry r.0 r.4) refl,
            )
      ]
    ]
