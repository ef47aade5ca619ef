-- ===== src/Url/Query/Selected.antt =====
-- `SelectParam` of utils/URLAnalyzer.cpp on a query of names and encoded values.
use tag_etl.Url.Query.Values.{
  encode-HasNoMark, HasNoMark-append, is_named-bytes_eq, shift, shift-suc, shift-shift,
  param_at-append, value_at-print,
}
use tag_etl.Url.Query.{
  Params, print_params, value_of, IsPlain, ArePlain, IsPlain-HasNoMark, Tidy-params, answer,
}
use tag_etl.Prelude.{
  ℕ, suc, ◌+◌, ◌<◌, ◌≡◌, refl, ap, sym, ◌∙◌, true, false, [], ◌∷◌, ◌++◌, some, inl, inr, length,
  get_or, ◌>>=◌, arith, length-append, Bool-cases,
}
use mathlib.Core.List.{append_assoc}
use tag_etl.Text.{Bytes, bytes_eq, bytes_eq_iff}
use tag_etl.Url.Decode.RoundTrip.{encode, AllBytes}
use tag_etl.Url.Scan.Tidy.{filter_pre-IsAhead, is_mark}
use tag_etl.Profile.Lookup.{is_empty}
use tag_etl.Url.Scan.{filter_pre}
use tag_etl.Url.Select.Loop.{select_loop-param_from}
use tag_etl.Url.Select.{param_from, param_at, is_named}
use tag_etl.Url.{select_loop, Url, value_at, select_param}

module _ (name : Bytes) (plain : IsPlain name) (old : Bytes) where
  param_at_hit :
      (c : ℕ) (s : Bytes)
      → is_mark c ≡ true
      → is_named name s ≡ true
      → param_at name (c ∷ s) ≡ some (suc (length name))
  unfolding param_at
  param_at_hit c s h e = ground arith

  param_at_miss :
      (c : ℕ) (s : Bytes)
      → is_named name s ≡ false
      → param_at name (c ∷ s) ≡ (param_at name s >>= λ k. some (suc k))
  unfolding param_at
  param_at_miss c s h = elim (Bool-cases (is_mark c)) [ inl m ↦ rw (m, h) refl | inr m ↦ rw m refl ]

  -- Over a parameter of another name.
  param_at_over :
      (mark : ℕ) (n value rest : Bytes)
      → IsPlain n
      → AllBytes value
      → bytes_eq n name ≡ false
      → param_at name (mark ∷ (n ++ b'=' ∷ (encode value ++ rest)))
        ≡ shift (length (mark ∷ (n ++ b'=' ∷ encode value))) (param_at name rest)
  param_at_over mark n value rest p a other =
      let part = n ++ b'=' ∷ encode value in
      let e : part ++ rest ≡ n ++ b'=' ∷ (encode value ++ rest) =
        append_assoc n (b'=' ∷ encode value) rest in
      param_at_miss mark _ (is_named-bytes_eq name n (encode value ++ rest) plain p ∙ other)
      ∙ ap (λ s. param_at name s >>= λ k. some (suc k)) (sym e)
      ∙ ap (λ o. o >>= λ k. some (suc k))
          (param_at-append name part rest
            (HasNoMark-append n _ (IsPlain-HasNoMark n p) (refl, encode-HasNoMark value a)))
      ∙ shift-suc (length part) (param_at name rest)

  module _ (pre : Bytes) (mark : ℕ) (n value : Bytes) (ps : Params) where
    abbrev behind : Bytes
    behind = encode value ++ print_params b'&' ps

    abbrev all : Bytes
    all = pre ++ mark ∷ (n ++ b'=' ∷ behind)

    value_at_hit :
        is_mark mark ≡ true
        → IsPlain n
        → AllBytes value
        → bytes_eq n name ≡ true
        → value_at all old (shift (length pre) (param_at name (mark ∷ (n ++ b'=' ∷ behind))))
          ≡ some (answer (some value) old)
    value_at_hit h p a same =
        let found = param_at_hit mark _ h (is_named-bytes_eq name n behind plain p ∙ same) in
        let at : length pre + suc (length name) ≡ length (pre ++ mark ∷ n) =
          omega (arith, length-append pre (mark ∷ n), ap length ((bytes_eq_iff n name).0 same)) in
        let text : (pre ++ mark ∷ n) ++ b'=' ∷ behind ≡ all =
          append_assoc pre (mark ∷ n) (b'=' ∷ behind) in
        ap (λ o. value_at all old (shift (length pre) o)) found
        ∙ ap (λ k. value_at all old (some k)) at
        ∙ ap (λ s. value_at s old (some (length (pre ++ mark ∷ n)))) (sym text)
        ∙ value_at-print (pre ++ mark ∷ n) value ps old a

    value_at_over :
        IsPlain n
        → AllBytes value
        → bytes_eq n name ≡ false
        → value_at all old (shift (length pre) (param_at name (mark ∷ (n ++ b'=' ∷ behind))))
          ≡ value_at ((pre ++ mark ∷ (n ++ b'=' ∷ encode value)) ++ print_params b'&' ps) old (
              shift
                (length (pre ++ mark ∷ (n ++ b'=' ∷ encode value)))
                (param_at name (print_params b'&' ps)))
    value_at_over p a other =
        let part = mark ∷ (n ++ b'=' ∷ encode value) in
        let rest = print_params b'&' ps in
        let at : length pre + length part ≡ length (pre ++ part) = sym (length-append pre part) in
        let text : (pre ++ part) ++ rest ≡ all =
          append_assoc pre part rest
          ∙ ap (λ s. pre ++ mark ∷ s) (append_assoc n (b'=' ∷ encode value) rest) in
        ap (λ o. value_at all old (shift (length pre) o))
          (param_at_over mark n value rest p a other)
        ∙ ap (value_at all old) (
            shift-shift (length pre) (length part) (param_at name rest)
            ∙ ap (λ k. shift k (param_at name rest)) at)
        ∙ ap (λ s. value_at s old (shift (length (pre ++ part)) (param_at name rest))) (sym text)

  value_at-param_at :
      (pre : Bytes) (mark : ℕ) (ps : Params)
      → is_mark mark ≡ true
      → ArePlain ps
      → value_at
          (pre ++ print_params mark ps)
          old
          (shift (length pre) (param_at name (print_params mark ps)))
        ≡ some (answer (value_of name ps) old)
  unfolding print_params value_of
  value_at-param_at pre mark [] h a = unfold value_at in unfold param_at in refl
  value_at-param_at pre mark ((n, value) ∷ ps) h (p, b, a) = elim (Bool-cases (bytes_eq n name)) [
    | inl same ↦ rw same (value_at_hit pre mark n value ps h p b same)
    | inr other ↦ rw other (
        value_at_over pre mark n value ps p b other
        ∙ value_at-param_at (pre ++ mark ∷ (n ++ b'=' ∷ encode value)) b'&' ps refl a)
  ]

  module _ (n value : Bytes) (ps : Params) (named : 0 < length name)
      (a : ArePlain ((n, value) ∷ ps)) where
    abbrev query : Bytes
    query = print_params b'?' ((n, value) ∷ ps)

    query_length : 0 < length query
    unfolding print_params
    query_length = omega arith

    query-IsFront : get_or query 0 0 ≡ b'?'
    unfolding print_params
    query-IsFront = refl

    -- The loop starts at the front, and finds the first parameter of the name.
    query-filter_pre : filter_pre query 0 ≡ some 0
    query-filter_pre =
        let (k, e, ahead) =
          filter_pre-IsAhead query 0 (Tidy-params b'?' _ refl a) query_length (omega arith) in
        let stays : k ≡ 0 = ahead.stays (rw query-IsFront (omega arith)) in
        e ∙ ap some (omega arith)

    query-select_loop :
        select_loop (suc (length query)) name query 0 ≡ some (shift 0 (param_at name query))
    unfolding param_from
    query-select_loop =
        select_loop-param_from name query (named, IsPlain-HasNoMark name plain)
          (Tidy-params b'?' _ refl a) (rw query-IsFront refl) (suc (length query)) 0 (omega arith)
          (omega arith)

    not_empty : (s : Bytes) → 0 < length s → is_empty s ≡ false
    not_empty [] h = absurd (omega arith)
    not_empty (c ∷ s) h = refl

    -- `SelectParam` of a plain name that is not empty always returns on a query of parameters with plain
    -- names and with values encoded byte by byte, without a read outside. It answers S_OK and the
    -- value of the first parameter of the name; STA_CANT_FIND where none has it and
    -- ERROR_INVALID_PARAMETER where that value is empty, both with the old value kept. A plain name
    -- has no byte that is skipped and no `&`, `?`, `=` or `%`.
    pub select_param-value_of :
        (u : Url)
        → u.param ≡ query
        → select_param name u old ≡ some (answer (value_of name ((n, value) ∷ ps)) old)
    unfolding select_param
    select_param-value_of u e =
        rw
          (
            e,
            not_empty name named,
            not_empty query query_length,
            query-filter_pre,
            query-select_loop,
          )
          (value_at-param_at [] b'?' ((n, value) ∷ ps) refl a)
