-- ===== src/Profile/Trimming.antt =====
-- `tirm` and `QuotTirm` of utils/Profile.cpp. Both take the text by reference and return it trimmed;
-- here the result is the new text, and `none` stands for the exception of `substr`.
pub mod Reference
use tag_etl.Prelude.{
  ℕ, zero, suc, ◌+◌, ◌-◌, Bool, ◌||◌, [], ◌∷◌, Option, some, length, get_or, ◌==◌, if◌then◌else◌,
}
use tag_etl.Text.{Bytes, sub_size, substr, is_blank, is_quote}
use tag_etl.Text.Trim.{lead}

-- for(reaPos = k; reaPos > 0; reaPos --) up to the first byte outside the class
unfoldable pub right_end : (ℕ → Bool) → Bytes → ℕ → ℕ
right_end blank s zero = zero
right_end blank s (suc k) = if blank (get_or s (suc k) 0) then right_end blank s k else suc k

-- The common body: both loops, and the copy of what lies between.
unfoldable pub trim_ends : (ℕ → Bool) → Bytes → Option Bytes
unfolding right_end lead substr
trim_ends blank [] = some []
trim_ends blank (c ∷ cs) =
    let s = c ∷ cs in
    let pre_pos = lead blank s in
    let rea_pos = right_end blank s (length s - 1) in
    substr s pre_pos (sub_size rea_pos pre_pos + 1)

unfoldable pub tirm : Bytes → Option Bytes
unfolding trim_ends is_blank
tirm s = trim_ends is_blank s

unfoldable pub quot_tirm : Bytes → Option Bytes
unfolding trim_ends is_quote
quot_tirm s = trim_ends is_quote s
