-- ===== src/Url/Select/Test.antt =====
-- What a round of `do_SelectParam` of utils/URLAnalyzer.cpp tests behind its skips.
use tag_etl.Url.Select.{is_hit}
use native.Mathlib.Decide.{dec_lt, ℕ_discrete}
use tag_etl.Prelude.{
  ℕ, suc, ◌+◌, ◌≡◌, refl, ap, sym, ◌∙◌, Bool, true, false, length, drop, get_or, arith,
}
use tag_etl.Text.{Bytes}
use tag_etl.Url.Scan.Found.{get_or-drop}
use tag_etl.Url.Scan.Tidy.{is_mark, Tidy, Tidy-is_mark, IsAhead, IsBehind}
use tag_etl.Url.Scan.{is_prefix}
use tag_etl.Url.{is_param}

is_param-parts :
    (s : Bytes) (pos pre_pos : ℕ)
    → is_param s pos pre_pos ≡ true
    → (get_or s pos 0 ≡ b'=') × (is_mark (get_or s pre_pos 0) ≡ true)
unfolding is_param
is_param-parts s pos pre_pos h = ground arith

is_param_of_parts :
    (s : Bytes) (pos pre_pos : ℕ)
    → get_or s pos 0 ≡ b'='
    → is_mark (get_or s pre_pos 0) ≡ true
    → is_param s pos pre_pos ≡ true
unfolding is_param
is_param_of_parts s pos pre_pos e h = ground arith

Bool-eq : (a b : Bool) → (a ≡ true → b ≡ true) → (b ≡ true → a ≡ true) → a ≡ b
Bool-eq true b f g = sym (f refl)
Bool-eq false true f g = g refl
Bool-eq false false f g = refl

module _ (name s : Bytes) (t : Tidy s) (p : ℕ) (here : is_prefix name (drop (suc p) s) ≡ true) where
  hit_parts :
      is_hit name s p ≡ true
      → (is_mark (get_or s p 0) ≡ true) × (get_or s (suc p + length name) 0 ≡ b'=')
  hit_parts h = ground (arith, get_or-drop (suc p) (length name) s)

  hit_of_parts :
      is_mark (get_or s p 0) ≡ true
      → get_or s (suc p + length name) 0 ≡ b'='
      → is_hit name s p ≡ true
  hit_of_parts h e = ground (arith, get_or-drop (suc p) (length name) s)

  module _ {k r : ℕ} (ahead : IsAhead (drop (suc p + length name) s) k)
      (behind : IsBehind s p r) where
    -- The two skips change nothing where a parameter is.
    pub skips_stay : is_hit name s p ≡ true → (k ≡ 0) × (r ≡ p)
    skips_stay h =
        let (mark, equals) = hit_parts h in
        (
          ahead.stays (ground (arith, get_or-drop (suc p + length name) 0 s)),
          behind.stays (ground arith),
        )

    param_of_hit : is_hit name s p ≡ true → is_param s (suc p + length name + k) r ≡ true
    param_of_hit h =
        let (mark, equals) = hit_parts h in
        let (k_zero, same) = skips_stay h in
        let at : get_or s (suc p + length name + k) 0 ≡ b'=' =
          ap (λ j. get_or s j 0) (omega arith) ∙ equals in
        let before : is_mark (get_or s r 0) ≡ true = rw same mark in
        is_param_of_parts s _ r at before

    param_ends : is_param s (suc p + length name + k) r ≡ true → (k ≡ 0) × (r ≡ p)
    param_ends h =
        let (at, mark) = is_param-parts s (suc p + length name + k) r h in
        (
          elim (dec_lt 0 k) [
            | yes more ↦ absurd (ahead.no_equals more (get_or-drop (suc p + length name) k s ∙ at))
            | no none_more ↦ omega arith
          ],
          elim (ℕ_discrete r p) [
            | yes e ↦ e
            | no ne ↦ absurd (Tidy-is_mark s r t mark (behind.percent ne))
          ],
        )

    hit_of_param : is_param s (suc p + length name + k) r ≡ true → is_hit name s p ≡ true
    hit_of_param h =
        let (at, mark) = is_param-parts s (suc p + length name + k) r h in
        let (k_zero, same) = param_ends h in
        hit_of_parts (rw (← same) mark) (ap (λ j. get_or s j 0) (omega arith) ∙ at)

    -- What the loop tests behind the skips is a mark before the name and `=` behind it.
    pub is_param-is_hit : is_param s (suc p + length name + k) r ≡ is_hit name s p
    is_param-is_hit = Bool-eq _ _ hit_of_param param_of_hit
