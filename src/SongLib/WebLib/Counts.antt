-- ===== src/SongLib/WebLib/Counts.antt =====
-- When `NeedFlushVarTags` of songLib/webLib.cpp answers true.
use tag_etl.MySqlHelper.{fetch_one_row}
use tag_etl.Prelude.{
  Bool, true, false, List, [], ◌∷◌, Option, some, ◌≡◌, not, ◌&&◌, ◌||◌, arith, ◌>>=◌ as ◌>>=ₒ◌,
  Option-cases, inl, inr,
}
use tag_etl.SongLib.WebLib.{tag_count, count_rows}
use tag_etl.System.{Env, World, Row, Returns, ◌>>=◌}
use tag_etl.Text.Number.{ℤ, ltb_ℤ}

-- The counts of the rows; `none` is a row whose reading is undefined.
unfoldable pub counts_of : List Row → Option (List ℤ)
counts_of [] = some []
counts_of (row ∷ rest) = tag_count row >>=ₒ λ n. counts_of rest >>=ₒ λ ns. some (n ∷ ns)

abbrev pub all_reach : ℤ → List ℤ → Bool
all_reach threshold [] = true
all_reach threshold (n ∷ ns) = not (ltb_ℤ n threshold) && all_reach threshold ns

abbrev pub is_nonempty : {A : Type 0} → List A → Bool
is_nonempty [] = false
is_nonempty (x ∷ xs) = true

counts_of-cons :
    (row : Row) (rest : List Row) (ns : List ℤ)
    → counts_of (row ∷ rest) ≡ some ns
    → (n : ℤ) × (ms : List ℤ) × (tag_count row ≡ some n)
      × (counts_of rest ≡ some ms)
      × (ns ≡ n ∷ ms)
unfolding counts_of
counts_of-cons row rest ns h = elim (Option-cases (tag_count row)) [
  | inl e ↦ absurd (ground (arith, e, h))
  | inr (n, e) ↦ elim (Option-cases (counts_of rest)) [
    | inl e' ↦ absurd (ground (arith, e, e', h))
    | inr (ms, e') ↦ (n, ms, e, e', ground (arith, e, e', h))
  ]
]

module _ (env : Env) where
  -- The loop of `NeedFlushVarTags` always returns if the count of every row can be read. Its answer is
  -- true exactly if there is a row (before or among these) and every count of these reaches the
  -- threshold, and the connection is left alone.
  pub count_rows-all_reach :
      (threshold : ℤ) (have : Bool) (rows : List Row) (ns : List ℤ) (w : World)
      → counts_of rows ≡ some ns
      → Returns (count_rows env threshold have rows w) (λ b w'.
        (b ≡ ((have || is_nonempty ns) && all_reach threshold ns)) × (w'.web_link ≡ w.web_link))
  unfolding count_rows fetch_one_row ◌>>=◌ counts_of
  count_rows-all_reach threshold have [] ns w h = ground arith
  count_rows-all_reach threshold have (row ∷ rest) ns w h =
      let (n, ms, e, e', split) = counts_of-cons row rest ns h in
      ground (arith, e, e', split, count_rows-all_reach threshold true rest ms w)
