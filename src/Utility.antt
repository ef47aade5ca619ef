-- ===== src/Utility.antt =====
-- `CUtility` of utils/Utility.cpp. `none` is a read outside the text: `rtrim` counts an unsigned
-- position down and tests it by `u_pos >= 0`, which is always true.
pub mod Reference
use tag_etl.Prelude.{
  ℕ, zero, suc, ◌+◌, ◌-◌, [], ◌∷◌, Option, none, some, length, get_or, ltb, ◌==◌, if◌then◌else◌,
  ◌>>=◌,
}
use tag_etl.Text.{Bytes, substr, is_blank}
use tag_etl.Text.Trim.{lead}

unfoldable pub ltrim : Bytes → Option Bytes
unfolding lead is_blank substr
ltrim s =
    let u_pos = lead is_blank s in if u_pos == 0 then some s else substr s u_pos (length s - u_pos)

-- The loop at position `k`: below 0 it goes on at 2 ^ 64 - 1 and reads there.
pub rtrim_loop : Bytes → ℕ → Option ℕ
unfolding is_blank
rtrim_loop s zero = if is_blank (get_or s 0 0) then none else some 0
rtrim_loop s (suc k) = if is_blank (get_or s (suc k) 0) then rtrim_loop s k else some (suc k)

-- The text up to the position that the loop has reached.
pub rtrim_cut : Bytes → ℕ → Option Bytes
unfolding substr
rtrim_cut s u_pos = if ltb u_pos (length s - 1) then substr s 0 (u_pos + 1) else some s

-- On the empty text the first position is 2 ^ 64 - 1 already.
unfoldable pub rtrim : Bytes → Option Bytes
unfolding rtrim_loop rtrim_cut
rtrim [] = none
rtrim (c ∷ cs) = rtrim_loop (c ∷ cs) (length (c ∷ cs) - 1) >>= rtrim_cut (c ∷ cs)

unfoldable pub trim : Bytes → Option Bytes
unfolding ltrim rtrim
trim s = ltrim s >>= rtrim
