-- ===== src/MySqlHelper/Escape.antt =====
-- `CMySqlHelper::mysql_escape_character` of utils/MySqlHelper.cpp: a text with a backslash in front of
-- each quote.
use mathlib.Core.List.{append_assoc}
use tag_etl.Prelude.{
  drop-drop, ℕ, zero, suc, ◌+◌, ◌<◌, ◌≡◌, refl, sym, ap, ◌∙◌, Bool-cases, [], ◌∷◌, ◌++◌, Option,
  none, some, inl, inr, ◌⊎◌, length, take, drop, take-append, drop-append, length-append, arith,
  ◌==◌, ==_iff, if◌then◌else◌, ◌>>=◌,
}
use tag_etl.Text.{Bytes, find_char, index_of}

-- str_sql.replace(pos, 1, "\\" c)
abbrev quoted_at : ℕ → ℕ → Bytes → Bytes
quoted_at c pos s = take pos s ++ (b'\\' ∷ c ∷ drop (pos + 1) s)

-- The loop for the quote `c`, which goes on behind each quote that it has met.
unfoldable pub escape_loop : ℕ → ℕ → ℕ → Bytes → Option Bytes
escape_loop zero c pos s = none
escape_loop (suc fuel) c pos s = elim (find_char c s pos) [
  | none ↦ some s
  | some k ↦ escape_loop fuel c (k + 2) (quoted_at c k s)
]

unfoldable pub mysql_escape_character : Bytes → Option Bytes
mysql_escape_character s =
    escape_loop (suc (length s)) b'\'' 0 s >>= λ t. escape_loop (suc (length t)) b'"' 0 t

-- Each `c` with a backslash in front.
abbrev pub escaped : ℕ → Bytes → Bytes
escaped c [] = []
escaped c (x ∷ s) = let rest = escaped c s in if x == c then b'\\' ∷ x ∷ rest else x ∷ rest

-- Each quote of both kinds with a backslash in front.
abbrev pub escaped_both : Bytes → Bytes
escaped_both [] = []
escaped_both (x ∷ s) =
    let rest = escaped_both s in
    if x == b'\'' then b'\\' ∷ x ∷ rest else (if x == b'"' then b'\\' ∷ x ∷ rest else x ∷ rest)

escaped_twice : (s : Bytes) → escaped b'"' (escaped b'\'' s) ≡ escaped_both s
escaped_twice [] = refl
escaped_twice (x ∷ s) = ground (arith, escaped_twice s)

-- The rest `r` of a text up to its first `c`.
index_of-cases :
    (c : ℕ) (r : Bytes)
    → ((index_of c r ≡ none) × (escaped c r ≡ r))
      ⊎ ((p : Bytes) × (q : Bytes) × (index_of c r ≡ some (length p))
          × (r ≡ p ++ (c ∷ q))
          × (escaped c r ≡ p ++ (b'\\' ∷ c ∷ escaped c q)))
unfolding index_of
index_of-cases c [] = inl (refl, refl)
index_of-cases c (x ∷ r) = elim (Bool-cases (x == c)) [
  | inl e ↦
      let same : x ≡ c = (==_iff x c).0 e in
      inr ([], r, rw e refl, ap (λ y. y ∷ r) same, rw e (ap (λ y. b'\\' ∷ y ∷ escaped c r) same))
  | inr e ↦ elim (index_of-cases c r) [
    | inl h ↦ inl (rw (e, h.0) refl, rw e (ap (◌∷◌ x) h.1))
    | inr h ↦ inr (x ∷ h.0, h.1, rw (e, h.2) refl, ap (◌∷◌ x) h.3, rw e (ap (◌∷◌ x) h.4))
  ]
]

-- One round at the `c` behind `a'`.
quoted_at-append :
    (c : ℕ) (a' q : Bytes) → quoted_at c (length a') (a' ++ (c ∷ q)) ≡ (a' ++ (b'\\' ∷ c ∷ [])) ++ q
quoted_at-append c a' q =
    let gone : drop (length a' + 1) (a' ++ (c ∷ q)) ≡ q =
      sym (drop-drop (length a') 1 (a' ++ (c ∷ q))) ∙ ap (drop 1) (drop-append a' (c ∷ q)) in
    (λ i. take-append a' (c ∷ q) i ++ (b'\\' ∷ c ∷ gone i))
    ∙ sym (append_assoc a' (b'\\' ∷ c ∷ []) q)

-- From behind `a` on, the loop escapes the rest, with more rounds than the rest has bytes.
escape_loop-escaped :
    (fuel c : ℕ) (a r : Bytes)
    → length r < fuel
    → escape_loop fuel c (length a) (a ++ r) ≡ some (a ++ escaped c r)
unfolding escape_loop find_char
escape_loop-escaped zero c a r h = absurd (omega arith)
escape_loop-escaped (suc fuel) c a r h =
    let here : find_char c (a ++ r) (length a) ≡ (index_of c r >>= λ k. some (length a + k)) =
      ap (λ t. index_of c t >>= λ k. some (length a + k)) (drop-append a r) in
    elim (index_of-cases c r) [
      | inl e ↦
          let missed : find_char c (a ++ r) (length a) ≡ none = here ∙ rw (e.0) refl in
          rw (missed, escape_loop) (ap (λ t. some (a ++ t)) (sym e.1))
      | inr e ↦
          let a' = a ++ e.0 in
          let a'' = a' ++ (b'\\' ∷ c ∷ []) in
          let met : find_char c (a ++ r) (length a) ≡ some (length a') =
            here ∙ rw (e.2, length-append a e.0) refl in
          let whole : a ++ r ≡ a' ++ (c ∷ e.1) =
            ap (λ t. a ++ t) e.3 ∙ sym (append_assoc a e.0 (c ∷ e.1)) in
          let behind : length a' + 2 ≡ length a'' = sym (length-append a' (b'\\' ∷ c ∷ [])) in
          let short : length e.1 < fuel =
            omega (arith, ap length e.3, length-append e.0 (c ∷ e.1)) in
          rw (met, escape_loop)
            ((λ i. escape_loop fuel c (behind i) (quoted_at c (length a') (whole i)))
              ∙ ap (escape_loop fuel c (length a'')) (quoted_at-append c a' e.1)
              ∙ escape_loop-escaped fuel c a'' e.1 short
              ∙ ap some (
                  append_assoc a' (b'\\' ∷ c ∷ []) (escaped c e.1)
                  ∙ append_assoc a e.0 (b'\\' ∷ c ∷ escaped c e.1)
                  ∙ ap (λ t. a ++ t) (sym e.4)))
    ]

-- `mysql_escape_character` ends on every text, and leaves each single and each double quote with a
-- backslash in front and every other byte, a backslash too, as it is.
pub mysql_escape_character-escaped : (s : Bytes) → mysql_escape_character s ≡ some (escaped_both s)
unfolding mysql_escape_character
mysql_escape_character-escaped s =
    let t = escaped b'\'' s in
    let first : escape_loop (suc (length s)) b'\'' 0 s ≡ some t =
      escape_loop-escaped (suc (length s)) b'\'' [] s (omega arith) in
    rw first
      (escape_loop-escaped (suc (length t)) b'"' [] t (omega arith) ∙ ap some (escaped_twice s))
