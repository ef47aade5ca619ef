-- ===== src/Profile/Printer/Pieces.antt =====
-- `BuildProfileQueue` on one printed line: a section's header or an item.
use mathlib.Core.List.{append_assoc}
use tag_etl.Prelude.{
  ℕ, ◌+◌, ◌-◌, ◌≡◌, ◌≢◌, refl, sym, ap, ◌∙◌, Bool, false, [], ◌∷◌, ◌++◌, none, some, arith, length,
  drop, ltb, ◌==◌, ◌>>=◌, drop-drop, length-append, take-append, drop-append, take_all,
}
use tag_etl.Profile.Build.{
  Item, Section, Builder, add_section, add_item, find_or_length, section_line, without_comment,
  item_line, trimmed_line, profile_line,
}
use tag_etl.Profile.Trimming.{tirm, quot_tirm}
use tag_etl.Profile.Trimming.Reference.{tirm-trim_both, quot_tirm-trim_both}
use tag_etl.Profile.Printer.{print_item, print_header, IsPlainItem, IsPlainName}
use tag_etl.Text.Trim.{
  trim_both, trim_both_lem, trim_left, trim_right, trim_right-concat, trim_left_head,
  trim_right-trim_left,
}
use tag_etl.Text.{
  Bytes, is_blank, is_quote, substr, substr-eq-some, index_of, find_char, find_char-index_of,
  starts_with, starts_with-none, index_of-append, index_of-append_none,
}

-- Between two bytes outside the class nothing is trimmed.
module _ (blank : ℕ → Bool) (d : ℕ) (dark : blank d ≡ false) where
  trim_right_tight : (xs : Bytes) → trim_right blank (xs ++ d ∷ []) ≡ xs ++ d ∷ []
  trim_right_tight xs = trim_right-concat blank xs d ∙ rw dark

  trim_both_tight :
      (c : ℕ) (xs : Bytes)
      → blank c ≡ false
      → trim_both blank (c ∷ (xs ++ d ∷ [])) ≡ c ∷ (xs ++ d ∷ [])
  unfolding trim_both trim_left
  trim_both_tight c xs h = rw (trim_right_tight (c ∷ xs)) (rw h)

  trim_both_name :
      (name xs : Bytes) (c : ℕ)
      → blank c ≡ false
      → trim_both blank name ≡ name
      → trim_both blank (name ++ (c ∷ (xs ++ d ∷ []))) ≡ name ++ (c ∷ (xs ++ d ∷ []))
  trim_both_name [] xs c h e = trim_both_tight c xs h
  trim_both_name (n ∷ ns) xs c h e =
      let first =
        trim_left_head blank (trim_right blank (n ∷ ns)) (sym (trim_both_lem blank (n ∷ ns)) ∙ e) in
      let whole : ns ++ (c ∷ (xs ++ d ∷ [])) ≡ (ns ++ c ∷ xs) ++ d ∷ [] =
        sym (append_assoc ns (c ∷ xs) (d ∷ [])) in
      rw whole (trim_both_tight n (ns ++ c ∷ xs) first)

trim_both_quoted : (v : Bytes) → trim_both is_quote (b'"' ∷ (v ++ b'"' ∷ [])) ≡ trim_both is_quote v
unfolding trim_both trim_left is_quote
trim_both_quoted v =
    ap (trim_left is_quote) (trim_right-concat is_quote (b'"' ∷ v) b'"')
    ∙ sym (trim_right-trim_left is_quote (b'"' ∷ v))
    ∙ trim_right-trim_left is_quote v

tirm_of : (s : Bytes) → trim_both is_blank s ≡ s → tirm s ≡ some s
tirm_of s e = tirm-trim_both s ∙ ap some e

module _ (i : Item) (plain : IsPlainItem i) where
  tirm-print_item : tirm (print_item i) ≡ some (print_item i)
  unfolding print_item is_blank
  tirm-print_item =
      tirm_of _
        (trim_both_name is_blank b'"' refl i.name (b'"' ∷ i.value) b'=' refl plain.name_trimmed)

  no_comment-print_item : index_of b';' (print_item i) ≡ none
  unfolding print_item index_of
  no_comment-print_item = index_of-append_none b';' i.name _ plain.no_comment (
      index_of-append_none b';' (b'=' ∷ b'"' ∷ i.value) _ (ground (arith, plain.no_comment_value))
        refl)

  pub no_line-print_item : index_of b'\n' (print_item i) ≡ none
  unfolding print_item index_of
  no_line-print_item = index_of-append_none b'\n' i.name _ plain.no_line (
      index_of-append_none b'\n' (b'=' ∷ b'"' ∷ i.value) _ (ground (arith, plain.no_line_value))
        refl)

find_or_length-none : (c : ℕ) (s : Bytes) → index_of c s ≡ none → find_or_length c s 0 ≡ length s
unfolding find_or_length
find_or_length-none c s h = rw (find_char-index_of c s ∙ h, find_or_length)

without_comment-none : (s : Bytes) → index_of b';' s ≡ none → without_comment s ≡ some s
unfolding without_comment
without_comment-none s h =
    let over : ltb (length s) (length s) ≡ false = ground arith in
    rw (find_or_length-none b';' s h, over, without_comment)

-- An item's line goes to the branch for items.
trimmed_line-item :
    (b : Builder) (s : Bytes)
    → s ≢ []
    → starts_with b';' s ≡ false
    → starts_with b'[' s ≡ false
    → trimmed_line b s ≡ (without_comment s >>= item_line b)
unfolding trimmed_line
trimmed_line-item b [] ne h k = absurd (ne refl)
trimmed_line-item b (c ∷ cs) ne h k = rw (h, k)

starts_with-append :
    (c d : ℕ) (name xs : Bytes)
    → starts_with c name ≡ false
    → (d == c) ≡ false
    → starts_with c (name ++ d ∷ xs) ≡ false
starts_with-append c d [] xs h k = k
starts_with-append c d (n ∷ ns) xs h k = h

pub append-ne-nil : (name xs : Bytes) (d : ℕ) → name ++ d ∷ xs ≢ []
append-ne-nil [] xs d = cc
append-ne-nil (n ∷ ns) xs d = cc

cut_left : (xs ys : Bytes) (d : ℕ) → substr (xs ++ d ∷ ys) 0 (length xs) ≡ some xs
cut_left xs ys d =
    substr-eq-some (xs ++ d ∷ ys) 0 (length xs) (omega arith) ∙ ap some (take-append xs (d ∷ ys))

cut_right :
    (xs ys : Bytes) (d : ℕ)
    → substr (xs ++ d ∷ ys) (length xs + 1) (length (xs ++ d ∷ ys)) ≡ some ys
cut_right xs ys d =
    let s = xs ++ d ∷ ys in
    let n = length-append xs (d ∷ ys) in
    let rest : drop (length xs + 1) s ≡ ys =
      sym (drop-drop (length xs) 1 s) ∙ ap (drop 1) (drop-append xs (d ∷ ys)) in
    substr-eq-some s (length xs + 1) (length s) (omega (arith, n))
    ∙ ap some (rw rest (take_all (length s) ys (omega (arith, n))))

module _ (b : Builder) (i : Item) (plain : IsPlainItem i) where
  item_line-print_item : item_line b (print_item i) ≡ add_item b i
  unfolding item_line print_item is_blank
  item_line-print_item =
      let line = print_item i in
      let quoted = b'"' ∷ (i.value ++ b'"' ∷ []) in
      let at : find_char b'=' line 0 ≡ some (length i.name) =
        find_char-index_of b'=' line ∙ index_of-append b'=' i.name _ plain.no_equals in
      let name : (substr line 0 (length i.name) >>= tirm) ≡ some i.name =
        rw (cut_left i.name quoted b'=') (tirm_of i.name plain.name_trimmed) in
      let trimmed = tirm_of quoted (trim_both_tight is_blank b'"' refl b'"' i.value refl) in
      let unquoted : quot_tirm quoted ≡ some i.value =
        quot_tirm-trim_both quoted ∙ ap some (trim_both_quoted i.value ∙ plain.value_trimmed) in
      let value : (substr line (length i.name + 1) (length line) >>= tirm >>= quot_tirm)
          ≡ some i.value =
        rw (cut_right i.name quoted b'=', trimmed) unquoted in
      rw (at, item_line) (rw name (rw value))

  -- A printed item is added to the last section.
  pub profile_line-print_item : profile_line b (print_item i) ≡ add_item b i
  unfolding profile_line print_item
  profile_line-print_item =
      let line = print_item i in
      rw (tirm-print_item i plain) (
        trimmed_line-item b line (append-ne-nil i.name _ b'=')
          (starts_with-none b';' line (no_comment-print_item i plain))
          (starts_with-append b'[' b'=' i.name _ plain.no_bracket refl)
        ∙ rw (without_comment-none line (no_comment-print_item i plain)) item_line-print_item)

module _ (b : Builder) (s : Section) (plain : IsPlainName s.name) where
  section_line-print_header : section_line b (print_header s) ≡ add_section b s.name
  unfolding section_line print_header find_char
  section_line-print_header =
      let line = print_header s in
      let n = length s.name in
      let at : find_char b']' line 1 ≡ some (1 + n) =
        ap (λ o. o >>= λ k. some (1 + k)) (index_of-append b']' s.name [] plain.no_bracket) in
      let back : 1 + n - 1 ≡ n = omega arith in
      let name : (substr line 1 (1 + n - 1) >>= tirm) ≡ some s.name =
        rw (back, substr-eq-some line 1 n (omega arith), take-append s.name (b']' ∷ []))
          (tirm_of s.name plain.trimmed) in
      rw (at, section_line) (rw name)

  -- A printed header opens a section.
  pub profile_line-print_header : profile_line b (print_header s) ≡ add_section b s.name
  unfolding profile_line print_header trimmed_line is_blank
  profile_line-print_header =
      rw (tirm_of (print_header s) (trim_both_tight is_blank b']' refl b'[' s.name refl))
        section_line-print_header
