-- ===== src/Profile/Printer/RoundTrip.antt =====
-- `BuildProfileQueue` reads back every printed profile.
use mathlib.Core.List.{append_assoc, append-nil}
use tag_etl.Codes.{s_ok}
use tag_etl.Prelude.{
  ℕ, ◌+◌, ◌≡◌, ◌≢◌, refl, ap, ◌∙◌, Bool, true, false, List, [], ◌∷◌, ◌++◌, map, Option, some, ◌⊎◌,
  inl, inr, arith, length, ◌>>=◌,
}
use tag_etl.Profile.Build.{
  Item, Section, Builder, Round, append_item, add_section, add_item, build_profile_queue,
  build_trimmed, finish_build, link_section,
}
use tag_etl.Profile.Build.Lines.{lines, run_lines, build_loop-run_lines}
use tag_etl.Profile.Printer.Pieces.{profile_line-print_item, profile_line-print_header}
use tag_etl.Profile.Printer.Layout.{
  tirm-print_profile, lines-print_profile, join-print_lines-ne-nil,
}
use tag_etl.Profile.Printer.{print_item, print_lines, join, print_profile, IsPlain, AllPlainItems}
use tag_etl.Text.{Bytes}

append_item-last :
    (done : List Section) (s : Section) (i : Item)
    → append_item (done ++ s ∷ []) i ≡ done ++ record s { items = s.items ++ i ∷ [] } ∷ []
unfolding append_item
append_item-last [] s i = refl
append_item-last (t ∷ []) s i = refl
append_item-last (t ∷ u ∷ us) s i = ap (◌∷◌ t) (append_item-last (u ∷ us) s i)

abbrev at_end : List Section → Section → Builder
at_end done s = record { sections = done ++ s ∷ []; has_last = true }

-- The items of a section are read behind its header.
run_items :
    (is : List Item) (rest : List Bytes) (done : List Section) (s : Section)
    → AllPlainItems is
    → run_lines (map print_item is ++ rest) (at_end done s)
      ≡ run_lines rest (at_end done (record s { items = s.items ++ is }))
unfolding run_lines add_item
run_items [] rest done s a = rw append-nil
run_items (i ∷ is) rest done s a =
    rw (profile_line-print_item (at_end done s) i a.0, append_item-last done s i)
      (run_items is rest done (record s { items = s.items ++ i ∷ [] }) a.1 ∙ rw append_assoc)

abbrev code_and_sections : Option Round → Option (ℕ × List Section)
code_and_sections r = r >>= λ round. some (finish_build round)

link_section-at_end :
    (done : List Section) (last : Bool) (s : Section)
    → (done ≡ []) ⊎ (last ≡ true)
    → link_section done last s ≡ some (at_end done s)
unfolding link_section
link_section-at_end [] last s h = refl
link_section-at_end (t ∷ ts) true s h = refl
link_section-at_end (t ∷ ts) false s h = ground arith

run_sections :
    (p done : List Section) (last : Bool)
    → IsPlain p
    → (done ≡ []) ⊎ (last ≡ true)
    → code_and_sections (run_lines (print_lines p) (record { sections = done; has_last = last }))
      ≡ some (s_ok, done ++ p)
unfolding run_lines print_lines add_section finish_build
run_sections [] done last a h = rw append-nil
run_sections (s ∷ rest) done last a h =
    let b : Builder = record { sections = done; has_last = last } in
    let s0 : Section = record { name = s.name; items = [] } in
    rw (profile_line-print_header b s a.0, link_section-at_end done last s0 h)
      (ap code_and_sections (run_items s.items (print_lines rest) done s0 a.1)
        ∙ run_sections rest (done ++ s ∷ []) true a.2 (inr refl)
        ∙ rw append_assoc)

build_trimmed-lines :
    (s : Bytes)
    → s ≢ []
    → build_trimmed [] s
      ≡ code_and_sections (run_lines (lines s) (record { sections = []; has_last = false }))
unfolding build_trimmed
build_trimmed-lines [] h = absurd (h refl)
build_trimmed-lines (c ∷ cs) h =
    ap code_and_sections
      (build_loop-run_lines (length (c ∷ cs) + 2) (c ∷ cs) 0 _ (omega arith) (omega arith))

-- `BuildProfileQueue` on a fresh object reads the text of a profile with at least one section and
-- returns S_OK with the sections and items that were printed, in their order. The condition is on the
-- names and values: no line feeds; names are trimmed; a section's name has no `]`, an item's name no
-- `=` and no `[` in front, neither name nor value of an item a `;`, and a value no quote at its ends.
pub build_profile_queue-print_profile :
    (s : Section) (rest : List Section)
    → IsPlain (s ∷ rest)
    → build_profile_queue [] (print_profile (s ∷ rest)) ≡ some (s_ok, s ∷ rest)
unfolding build_profile_queue
build_profile_queue-print_profile s rest a =
    let text = join (print_lines (s ∷ rest)) in
    rw (tirm-print_profile s rest a) (
      build_trimmed-lines text (join-print_lines-ne-nil s rest)
      ∙ rw (lines-print_profile (s ∷ rest) a) (run_sections (s ∷ rest) [] false a (inl refl)))
