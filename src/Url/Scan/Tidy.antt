-- ===== src/Url/Scan/Tidy.antt =====
-- `FilterInvalidChar` of utils/URLAnalyzer.cpp on a query whose names have nothing round them to skip.
use mathlib.Core.Path.{subst}
use native.Mathlib.Decide.{ℕ_discrete}
use tag_etl.Prelude.{
  ℕ, zero, suc, ◌+◌, ◌-◌, ◌≤◌, ◌<◌, ◌≡◌, ◌≢◌, refl, ap, sym, ◌∙◌, Bool, true, false, ◌||◌, [], ◌∷◌,
  ◌++◌, ◌⊎◌, some, inl, inr, length, drop, get_or, ltb, ◌==◌, arith, Bool-cases, Option-cases,
  ==_iff,
}
use tag_etl.Text.Trim.{lead}
use tag_etl.Text.{Bytes, codes}
use tag_etl.Url.Scan.Found.{get_or-drop, is_prefix-append, find_text-some, is_prefix-get_or}
use tag_etl.Url.Scan.{
  is_prefix, find_text, is_skipped, lead_spaces, filter_pre, back_over, back_spaces, filter_bac,
}

-- What stands before the name of a parameter.
abbrev pub is_mark : ℕ → Bool
is_mark c = c == b'?' || c == b'&'

-- No byte is of those that are skipped one by one, no mark stands before a percent sign, and no `=`
-- behind one with its two digits.
abbrev pub Tidy : Bytes → Type 0
Tidy [] = Unit
Tidy (c ∷ s) =
    (is_skipped c ≡ false)
    × (is_mark c ≡ true → get_or s 0 0 ≢ b'%')
    × (c ≡ b'%' → get_or s 2 0 ≢ b'=')
    × Tidy s

pub Tidy-drop : (k : ℕ) (s : Bytes) → Tidy s → Tidy (drop k s)
Tidy-drop zero s t = t
Tidy-drop (suc k) [] t = t
Tidy-drop (suc k) (c ∷ s) t = Tidy-drop k s t.3

pub Tidy-is_skipped : (s : Bytes) (i : ℕ) → Tidy s → is_skipped (get_or s i 0) ≡ false
unfolding is_skipped
Tidy-is_skipped [] i t = refl
Tidy-is_skipped (c ∷ s) zero t = t.0
Tidy-is_skipped (c ∷ s) (suc i) t = Tidy-is_skipped s i t.3

-- No percent sign is behind a mark.
pub Tidy-is_mark :
    (s : Bytes) (i : ℕ) → Tidy s → is_mark (get_or s i 0) ≡ true → get_or s (suc i) 0 ≢ b'%'
Tidy-is_mark [] i t h = cc
Tidy-is_mark (c ∷ s) zero t h = t.1 h
Tidy-is_mark (c ∷ s) (suc i) t h = Tidy-is_mark s i t.3 h

lead_none : (s : Bytes) → Tidy s → lead is_skipped s ≡ 0
unfolding lead
lead_none [] t = refl
lead_none (c ∷ s) t = rw t.0 refl

-- What a skip forward from the front of a tidy text leaves: marks are not skipped, and `=` does not
-- stand behind what was.
pub record IsAhead (s : Bytes) (k : ℕ) : Type 0 where
  pub within : k ≤ length s
  pub unmarked : (i : ℕ) → i < k → is_mark (get_or s i 0) ≡ false
  pub stays : get_or s 0 0 ≢ b'%' → k ≡ 0
  pub no_equals : 0 < k → get_or s k 0 ≢ b'='

IsAhead-zero : (s : Bytes) → IsAhead s 0
IsAhead-zero s = record {
  within = omega arith;
  unmarked = λ i h. absurd (omega arith);
  stays = λ h. refl;
  no_equals = λ h. absurd (omega arith);
}

IsAhead-spaces :
    (s : Bytes) (k : ℕ)
    → Tidy (b'%' ∷ b'2' ∷ b'0' ∷ s)
    → IsAhead s k
    → IsAhead (b'%' ∷ b'2' ∷ b'0' ∷ s) (3 + k)
IsAhead-spaces s k t a =
    let e : 3 + k ≡ suc (suc (suc k)) = omega arith in
    rw e (record {
      within = omega (arith, a.within);
      unmarked = unmarked;
      stays = λ h. absurd (h refl);
      no_equals =
          λ h. elim (zero-cases k) [ inl z ↦ rw z (t.2 refl) | inr more ↦ a.no_equals more ];
    })
  where
    unmarked :
        (i : ℕ) → i < suc (suc (suc k)) → is_mark (get_or (b'%' ∷ b'2' ∷ b'0' ∷ s) i 0) ≡ false
    unmarked zero h = refl
    unmarked (suc zero) h = refl
    unmarked (suc (suc zero)) h = refl
    unmarked (suc (suc (suc i))) h = a.unmarked i (omega arith)

    zero-cases : (n : ℕ) → (n ≡ 0) ⊎ (0 < n)
    zero-cases zero = inl refl
    zero-cases (suc n) = inr (omega arith)

lead_spaces-IsAhead : (fuel : ℕ) (s : Bytes) → Tidy s → IsAhead s (lead_spaces fuel s)
unfolding lead_spaces
lead_spaces-IsAhead zero s t = IsAhead-zero s
lead_spaces-IsAhead (suc fuel) s t = elim (Bool-cases (is_prefix (codes "%20") s)) [
  | inl spaces ↦
      let e : s ≡ codes "%20" ++ drop 3 s = is_prefix-append (codes "%20") s spaces in
      let rest = lead_spaces-IsAhead fuel (drop 3 s) (Tidy-drop 3 s t) in
      rw spaces (
        subst (λ r. IsAhead r (3 + lead_spaces fuel (drop 3 s))) (sym e)
          (IsAhead-spaces (drop 3 s) (lead_spaces fuel (drop 3 s)) (subst (λ r. Tidy r) e t) rest))
  | inr other ↦ rw other (IsAhead-zero s)
]

-- Forward from a position in a tidy text.
pub filter_pre-IsAhead :
    (s : Bytes) (pos : ℕ)
    → Tidy s
    → 0 < length s
    → pos ≤ length s
    → (k : ℕ) × (filter_pre s pos ≡ some (pos + k)) × IsAhead (drop pos s) k
unfolding filter_pre
filter_pre-IsAhead [] pos t h below = absurd (omega arith)
filter_pre-IsAhead (c ∷ cs) pos t h below =
    let s = c ∷ cs in
    let none_here = lead_none (drop pos s) (Tidy-drop pos s t) in
    let same : pos + 0 ≡ pos = omega arith in
    (
      lead_spaces (length s) (drop pos s),
      ground arith,
      lead_spaces-IsAhead (length s) (drop pos s) (Tidy-drop pos s t),
    )

back_over_stays : (s : Bytes) (pos : ℕ) → Tidy s → back_over s pos ≡ some pos
unfolding back_over
back_over_stays s zero t = rw (Tidy-is_skipped s 0 t) refl
back_over_stays s (suc k) t = rw (Tidy-is_skipped s (suc k) t) refl

-- One round: over a `%20` that ends at `pos`, or none.
back_spaces_step :
    (fuel : ℕ) (s : Bytes) (pos : ℕ)
    → (back_spaces (suc fuel) s pos ≡ pos)
      ⊎ ((3 ≤ pos)
          × (is_prefix (codes "%20") (drop (pos - 2) s) ≡ true)
          × (back_spaces (suc fuel) s pos ≡ back_spaces fuel s (pos - 3)))
unfolding back_spaces
back_spaces_step fuel s pos = elim (Bool-cases (ltb pos 3)) [
  | inl small ↦ inl (rw small refl)
  | inr large ↦ elim (Option-cases (find_text (codes "%20") s (pos - 3))) [
    | inl absent ↦ inl (rw (large, absent) refl)
    | inr (t, found) ↦ elim (Bool-cases (t == pos - 2)) [
      | inl same ↦ inr (
        ground arith,
        subst (λ j. is_prefix (codes "%20") (drop j s) ≡ true) ((==_iff t (pos - 2)).0 same)
            (find_text-some (codes "%20") s (pos - 3) found).1,
        rw (large, found, same) refl,
      )
      | inr other ↦ inl (rw (large, found, other) refl)
    ]
  ]
]

spaces_at :
    (s : Bytes) (k i : ℕ)
    → is_prefix (codes "%20") (drop k s) ≡ true
    → i < 3
    → get_or s (k + i) 0 ≡ get_or (codes "%20") i 0
spaces_at s k i h j = sym (get_or-drop k i s) ∙ is_prefix-get_or (codes "%20") (drop k s) i h j

-- A skip back stays, or ends before a percent sign; it stays where no `0` is.
pub record IsBehind (s : Bytes) (pos k : ℕ) : Type 0 where
  pub within : k ≤ pos
  pub stays : get_or s pos 0 ≢ b'0' → k ≡ pos
  pub percent : k ≢ pos → get_or s (suc k) 0 ≡ b'%'

IsBehind-refl : (s : Bytes) (pos : ℕ) → IsBehind s pos pos
IsBehind-refl s pos = record {
  within = omega arith;
  stays = λ h. refl;
  percent = λ h. absurd (h refl);
}

IsBehind-spaces :
    (s : Bytes) (pos k : ℕ)
    → 3 ≤ pos
    → is_prefix (codes "%20") (drop (pos - 2) s) ≡ true
    → IsBehind s (pos - 3) k
    → IsBehind s pos k
IsBehind-spaces s pos k low spaces b =
    let last : get_or s (pos - 2 + 2) 0 ≡ b'0' = spaces_at s (pos - 2) 2 spaces (omega arith) in
    let first : get_or s (pos - 2 + 0) 0 ≡ b'%' = spaces_at s (pos - 2) 0 spaces (omega arith) in
    record {
      within = omega (arith, b.within);
      stays = λ h. absurd (h (ap (λ j. get_or s j 0) (omega arith) ∙ last));
      percent = λ h. elim (ℕ_discrete k (pos - 3)) [
        | yes e ↦ ap (λ j. get_or s j 0) (omega arith) ∙ first
        | no ne ↦ b.percent ne
      ];
    }

back_spaces-IsBehind : (fuel : ℕ) (s : Bytes) (pos : ℕ) → IsBehind s pos (back_spaces fuel s pos)
back_spaces-IsBehind zero s pos = unfold back_spaces in IsBehind-refl s pos
back_spaces-IsBehind (suc fuel) s pos = elim (back_spaces_step fuel s pos) [
  | inl e ↦ rw e (IsBehind-refl s pos)
  | inr (low, spaces, e) ↦
      rw e (IsBehind-spaces s pos _ low spaces (back_spaces-IsBehind fuel s (pos - 3)))
]

-- Back from a position in a tidy text.
pub filter_bac-IsBehind :
    (s : Bytes) (pos : ℕ)
    → Tidy s
    → 0 < length s
    → pos ≤ length s
    → (k : ℕ) × (filter_bac s pos ≡ some k) × IsBehind s pos k
unfolding filter_bac
filter_bac-IsBehind [] pos t h below = absurd (omega arith)
filter_bac-IsBehind (c ∷ cs) pos t h below = (
  back_spaces (suc pos) (c ∷ cs) pos,
  ground (arith, back_over_stays (c ∷ cs) pos t),
  back_spaces-IsBehind (suc pos) (c ∷ cs) pos,
)
