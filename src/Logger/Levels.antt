-- ===== src/Logger/Levels.antt =====
-- Which lines the methods of `Logger` of logger/logger.cpp write.
use tag_etl.Logger.Lines.{leveled, log, scoped, write_line}
use tag_etl.Logger.LogLevel
use tag_etl.Logger.Methods.{Named, at_debug, call, hidden, level}
use tag_etl.Logger.Returns.{call-leveled}
use tag_etl.Logger.{Outside, World}
use tag_etl.Prelude.{
  ◌≤◌, ◌≡◌, refl, sym, ap, ◌∙◌, Bool, true, false, Bool-cases, inl, inr, some, ltb, arith,
  if◌then◌else◌, ◌==◌,
}
use tag_etl.Text.Number.{pos, negsuc}
use tag_etl.Text.{Bytes}

-- The world again after the mutex was taken and given back.
abbrev relocked : (w : World) → Bool → Bool → World
relocked w locked inited = record w {
  logger = record w.logger { locked = locked; inited = inited };
}

level_le : (m : Named) → level m ≤ LogLevel.emerg
level_le at_debug = omega arith
level_le _ = omega arith

module _ (env : Outside) (text : Bytes) (w : World) (h : w.logger.locked ≡ false)
    (init : w.logger.inited ≡ true) where
  -- A method named for a level, of an object that `init` has set up and whose mutex is free, writes its
  -- line where its level is the threshold or above, and otherwise returns its code for that with
  -- nothing changed.
  pub call-threshold :
      (m : Named)
      → call env m text w ≡ (
          if ltb (level m) w.logger.log_level
          then some (hidden m, w)
          else scoped w (write_line env (level m) text))
  unfolding leveled scoped
  call-threshold m = elim (Bool-cases (ltb (level m) w.logger.log_level)) [
    | inl low ↦
        call-leveled env m text w
        ∙ simp (h, init, low) λ i. some (hidden m, relocked w (sym h i) (sym init i))
    | inr high ↦ call-leveled env m text w ∙ simp (h, init, high) refl
  ]

  -- `log` with a level other than the threshold, above it or below, returns -2 or 1 and changes nothing,
  -- so that it refuses each line above the threshold that the method named for its level writes; with
  -- the threshold it does what that method does. The object is set up and the mutex free.
  pub log-threshold :
      (m : Named)
      → log env (pos (level m)) text w ≡ (
          if level m == w.logger.log_level
          then call env m text w
          else some ((if ltb (level m) w.logger.log_level then negsuc 1 else pos 1), w))
  unfolding log leveled scoped
  log-threshold m =
      let top : ltb LogLevel.emerg (level m) ≡ false = ground (arith, level_le m) in
      elim (Bool-cases (ltb (level m) w.logger.log_level)) [
        | inl low ↦
            let other : (level m == w.logger.log_level) ≡ false = ground arith in
            simp (h, init, low, other) λ i. some (negsuc 1, relocked w (sym h i) (sym init i))
        | inr low ↦ elim (Bool-cases (ltb w.logger.log_level (level m))) [
          | inl high ↦
              let other : (level m == w.logger.log_level) ≡ false = ground arith in
              simp (h, init, low, top, high, other)
                λ i. some (pos 1, relocked w (sym h i) (sym init i))
          | inr high ↦
              let e : level m ≡ w.logger.log_level = ground arith in
              let same : (level m == w.logger.log_level) ≡ true = ground arith in
              let named : call env m text w ≡ scoped w (write_line env (level m) text) =
                call-threshold m ∙ rw low refl in
              let logs : log env (pos (level m)) text w
                  ≡ scoped w (write_line env w.logger.log_level text) =
                simp (h, init, low, top, high) refl in
              rw same (logs ∙ ap (λ n. scoped w (write_line env n text)) (sym e) ∙ sym named)
        ]
      ]
