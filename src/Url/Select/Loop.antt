-- ===== src/Url/Select/Loop.antt =====
-- The loop of `do_SelectParam` of utils/URLAnalyzer.cpp finds the first parameter of the name.
use tag_etl.Url.Select.Test.{skips_stay, is_param-is_hit}
use tag_etl.Url.Select.{
  HasNoMark-get_or, IsName, param_from, is_hit, param_from-suc, param_from_end, param_from_no_hit,
  no_hit_of_unmarked, no_hit_of_other,
}
use native.Mathlib.Decide.{dec_lt, ℕ_discrete}
use tag_etl.Prelude.{
  ℕ, zero, suc, ◌+◌, ◌-◌, ◌≤◌, ◌<◌, ◌≡◌, refl, ap, sym, ◌∙◌, true, false, Option, none, some, inl,
  inr, length, drop, get_or, if◌then◌else◌, arith, length-drop, Bool-cases, Option-cases,
}
use tag_etl.Text.{Bytes}
use tag_etl.Url.Scan.Found.{
  get_or-drop, find_text-none, find_text-some, is_prefix-get_or, is_prefix-le,
}
use tag_etl.Url.Scan.Tidy.{
  is_mark, Tidy, filter_pre-IsAhead, filter_bac-IsBehind, IsAhead, IsBehind,
}
use tag_etl.Url.Scan.{is_prefix, find_text, filter_pre, filter_bac}
use tag_etl.Url.{is_param, select_loop}

module _ (name s : Bytes) (n : IsName name) (t : Tidy s)
    (marked : is_mark (get_or s 0 0) ≡ true) where
  -- The round of the loop that finds the name behind `p`.
  module _ (p : ℕ) (inside : p < length s) (here : is_prefix name (drop (suc p) s) ≡ true) where
    within : suc p + length name ≤ length s
    within = omega (arith, is_prefix-le name (drop (suc p) s) here, length-drop (suc p) s)

    end_within :
        {k : ℕ} → IsAhead (drop (suc p + length name) s) k → suc p + length name + k ≤ length s
    end_within ahead = omega (arith, within, ahead.within, length-drop (suc p + length name) s)

    -- No byte of the name is a mark.
    unmarked_name : (i : ℕ) → i < length name → is_mark (get_or s (suc p + i) 0) ≡ false
    unmarked_name i h =
        rw (← get_or-drop (suc p) i s, is_prefix-get_or name (drop (suc p) s) i here h)
          (HasNoMark-get_or name i n.1)

    -- Where the name is no parameter, none begins before the loop goes on.
    passed :
        (k : ℕ)
        → IsAhead (drop (suc p + length name) s) k
        → is_hit name s p ≡ false
        → (i : ℕ) → p ≤ i
        → i < suc p + length name + k
        → is_hit name s i ≡ false
    passed k ahead other i low high = elim (ℕ_discrete i p) [
      | yes e ↦ rw e other
      | no ne ↦ elim (dec_lt i (suc p + length name)) [
        | yes in_name ↦ no_hit_of_unmarked name s i (
            ap (λ j. is_mark (get_or s j 0)) (omega arith)
            ∙ unmarked_name (i - suc p) (omega arith))
        | no behind ↦
            let at : suc p + length name + (i - (suc p + length name)) ≡ i = omega arith in
            no_hit_of_unmarked name s i (
              rw (← at, ← get_or-drop (suc p + length name) (i - (suc p + length name)) s)
                (ahead.unmarked (i - (suc p + length name)) (omega arith)))
      ]
    ]

    -- What a round answers, given what the rounds behind it answer.
    round_lem :
        (k r : ℕ)
        → IsAhead (drop (suc p + length name) s) k
        → IsBehind s p r
        → (rest : Option (Option ℕ)) → rest ≡ some (param_from name s (suc p + length name + k - 1))
        → (if is_param s (suc p + length name + k) r
            then some (some (suc p + length name + k))
            else rest)
          ≡ some (param_from name s p)
    round_lem k r ahead behind rest e = elim (Bool-cases (is_hit name s p)) [
      | inl hit ↦
          let z = (skips_stay name s t p here ahead behind hit).0 in
          let at : suc p + length name + k ≡ suc p + length name = omega arith in
          rw (is_param-is_hit name s t p here ahead behind, param_from-suc name s p inside, hit)
            (ap (λ j. some (some j)) at)
      | inr other ↦
          rw (is_param-is_hit name s t p here ahead behind, other)
            (e
              ∙ ap some (
                  sym (
                    param_from_no_hit name s p (suc p + length name + k - 1) (omega arith)
                      (omega (arith, end_within ahead))
                      λ i low high. passed k ahead other i low (omega arith))))
    ]

  not_at_end : (i : ℕ) → length s ≤ i → is_prefix name (drop i s) ≡ false
  not_at_end i h = elim (Bool-cases (is_prefix name (drop i s))) [
    | inl stands ↦ absurd (omega (arith, n.0, is_prefix-le name (drop i s) stands, length-drop i s))
    | inr other ↦ other
  ]

  found_inside : (i : ℕ) → is_prefix name (drop i s) ≡ true → i < length s
  found_inside i h = omega (arith, n.0, is_prefix-le name (drop i s) h, length-drop i s)

  -- The name is not found again: there is no parameter from here on.
  not_found :
      (pos : ℕ) → pos ≤ length s → find_text name s pos ≡ none → param_from name s (pos - 1) ≡ none
  not_found pos below absent =
      param_from_no_hit name s (pos - 1) (length s) (omega arith) (omega arith) (λ i low high.
        no_hit_of_other name s i (elim (dec_lt (suc i) (length s)) [
          | yes h ↦ find_text-none name s pos absent (suc i) (omega arith) h
          | no h ↦ not_at_end (suc i) (omega arith)
        ]))
      ∙ param_from_end name s (length s) (omega arith)

  not_in_front : is_prefix name s ≡ false
  not_in_front = elim (Bool-cases (is_prefix name s)) [
    | inl stands ↦ cc (HasNoMark-get_or name 0 n.1, is_prefix-get_or name s 0 stands n.0, marked)
    | inr other ↦ other
  ]

  -- Up to where the name is found no parameter begins.
  found_first :
      (pos p : ℕ)
      → pos ≤ suc p
      → p < length s
      → ((i : ℕ) → pos ≤ i → i < suc p → is_prefix name (drop i s) ≡ false)
      → param_from name s (pos - 1) ≡ param_from name s p
  found_first pos p le below before =
      param_from_no_hit name s (pos - 1) p (omega arith) (omega arith)
        (λ i low high. no_hit_of_other name s i (before (suc i) (omega arith) (omega arith)))

  -- The loop's rounds.
  loop_absent :
      (fuel pos : ℕ) → find_text name s pos ≡ none → select_loop (suc fuel) name s pos ≡ some none
  unfolding select_loop
  loop_absent fuel pos absent = rw (absent, select_loop) refl

  loop_found :
      (fuel pos p q r : ℕ)
      → find_text name s pos ≡ some (suc p)
      → filter_pre s (suc p + length name) ≡ some q
      → filter_bac s p ≡ some r
      → select_loop (suc fuel) name s pos
        ≡ (if is_param s q r then some (some q) else select_loop fuel name s q)
  unfolding select_loop
  loop_found fuel pos p q r found e e' = rw (found, select_loop) (rw (e, e', select_loop) refl)

  -- With enough fuel the loop reads inside the text, ends, and finds the first parameter of the name.
  pub select_loop-param_from :
      (fuel pos : ℕ)
      → pos ≤ length s
      → length s < pos + fuel
      → select_loop fuel name s pos ≡ some (param_from name s (pos - 1))
  unfolding select_loop
  select_loop-param_from zero pos below enough = absurd (omega arith)
  select_loop-param_from (suc fuel) pos below enough = elim (Option-cases (find_text name s pos)) [
    | inl absent ↦ loop_absent fuel pos absent ∙ ap some (sym (not_found pos below absent))
    | inr (zero, found) ↦ cc (not_in_front, (find_text-some name s pos found).1)
    | inr (suc p, found) ↦
        let (le, here, before) = find_text-some name s pos found in
        let inside : p < length s = omega (arith, found_inside (suc p) here) in
        let (k, e, ahead) =
          filter_pre-IsAhead s (suc p + length name) t (omega arith) (within p inside here) in
        let (r, e', behind) = filter_bac-IsBehind s p t (omega arith) (omega arith) in
        loop_found fuel pos p _ r found e e'
        ∙ round_lem p inside here k r ahead behind _ (
            select_loop-param_from fuel (suc p + length name + k) (end_within p inside here ahead)
              (omega arith))
        ∙ ap some (sym (found_first pos p le inside before))
  ]
