-- ===== src/Profile/Build/Lines.antt =====
-- The loop of `BuildProfileQueue` takes the lines of the text in turn, and its fuel is enough.
use tag_etl.Prelude.{
  ℕ, zero, suc, ◌+◌, ◌-◌, ◌≤◌, ◌<◌, ◌≡◌, refl, sym, ap, ◌∙◌, List, [], ◌∷◌, Option, none, some, inl,
  inr, arith, length, take, drop, ltb, ◌==◌, if◌then◌else◌, ◌>>=◌, Bool-cases, ltb→lt, ltb→le,
  drop-drop, length-drop, drop_all,
}
use tag_etl.Text.{Bytes, index_of, substr, substr-eq-some}
use tag_etl.Profile.Build.{Builder, Round, go_on, stop, find_or_length, profile_line, build_loop}

abbrev onto_first : ℕ → List Bytes → List Bytes
onto_first c [] = (c ∷ []) ∷ []
onto_first c (l ∷ ls) = (c ∷ l) ∷ ls

-- The lines of a text; a line feed at the end opens no further line.
unfoldable pub lines : Bytes → List Bytes
lines [] = []
lines (c ∷ cs) = let rest = lines cs in if c == b'\n' then [] ∷ rest else onto_first c rest

-- Line after line, up to the first that stops.
unfoldable pub run_lines : List Bytes → Builder → Option Round
run_lines [] b = some (go_on b)
run_lines (l ∷ ls) b =
    profile_line b l >>= elim [ go_on b' ↦ run_lines ls b' | stop code b' ↦ some (stop code b') ]

-- Where the first line ends.
line_end : Bytes → ℕ
line_end s = elim (index_of b'\n' s) [ none ↦ length s | some k ↦ k ]

lines_step :
    (c : ℕ) (cs : Bytes)
    → lines (c ∷ cs)
      ≡ take (line_end (c ∷ cs)) (c ∷ cs) ∷ lines (drop (suc (line_end (c ∷ cs))) (c ∷ cs))
unfolding lines line_end index_of
lines_step c [] = ground arith
lines_step c (d ∷ ds) = ground (arith, lines_step d ds)

lines-cons :
    (t : Bytes) → 0 < length t → lines t ≡ take (line_end t) t ∷ lines (drop (suc (line_end t)) t)
lines-cons [] h = absurd (omega arith)
lines-cons (c ∷ cs) h = lines_step c cs

line_end-le : (s : Bytes) → line_end s ≤ length s
unfolding line_end index_of
line_end-le [] = omega arith
line_end-le (x ∷ xs) = ground (arith, line_end-le xs)

find_line_end :
    (s : Bytes) (pos : ℕ)
    → pos ≤ length s
    → find_or_length b'\n' s pos ≡ pos + line_end (drop pos s)
unfolding find_or_length line_end
find_line_end s pos h = ground (arith, length-drop pos s)

abbrev then_with : (Builder → Option Round) → Option Round → Option Round
then_with f r = r >>= elim [ go_on b' ↦ f b' | stop code b' ↦ some (stop code b') ]

then_with-eq :
    (f g : Builder → Option Round) (r : Option Round)
    → ((b : Builder) → f b ≡ g b)
    → then_with f r ≡ then_with g r
then_with-eq f g none h = refl
then_with-eq f g (some (go_on b)) h = h b
then_with-eq f g (some (stop code b)) h = refl

-- From every position the loop runs over the lines that are left.
pub build_loop-run_lines :
    (fuel : ℕ) (s : Bytes) (pos : ℕ) (b : Builder)
    → length s + 2 ≤ pos + fuel
    → pos ≤ length s + 1
    → build_loop fuel s pos b ≡ run_lines (lines (drop pos s)) b
unfolding build_loop run_lines lines
build_loop-run_lines zero s pos b h k = absurd (omega arith)
build_loop-run_lines (suc fuel) s pos b h k = elim (Bool-cases (ltb pos (length s))) [
  | inl more ↦
      let lt : pos < length s = ltb→lt pos (length s) more in
      let t = drop pos s in
      let t_pos = find_or_length b'\n' s pos in
      let at : t_pos ≡ pos + line_end t = find_line_end s pos (omega arith) in
      let m : t_pos - pos ≡ line_end t = omega (arith, at) in
      let line : substr s pos (t_pos - pos) ≡ some (take (line_end t) t) =
        substr-eq-some s pos (t_pos - pos) (omega arith) ∙ ap (λ k. some (take k t)) m in
      let onward : drop (t_pos + 1) s ≡ drop (suc (line_end t)) t =
        ap (λ k. drop k s) (omega (arith, at)) ∙ sym (drop-drop pos (suc (line_end t)) s) in
      rw (more, lines-cons t (omega (arith, length-drop pos s)), line)
        (then_with-eq (build_loop fuel s (t_pos + 1)) _ (profile_line b (take (line_end t) t)) λ b'.
          build_loop-run_lines fuel s (t_pos + 1) b' (omega arith)
            (omega (arith, line_end-le t, length-drop pos s))
          ∙ ap (λ u. run_lines (lines u) b') onward)
  | inr over ↦ rw (over, drop_all pos s (ltb→le pos (length s) over)) refl
]
