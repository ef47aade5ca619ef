-- ===== src/Profile/Printer/Layout.antt =====
-- The printed text splits into its lines again, and has no blanks at its ends.
use mathlib.Core.List.{append_assoc}
use tag_etl.Prelude.{◌≡◌, ◌≢◌, refl, sym, ap, ◌∙◌, List, [], ◌∷◌, ◌++◌, map, none, some, arith}
use tag_etl.Profile.Build.{Item, Section}
use tag_etl.Profile.Build.Lines.{lines}
use tag_etl.Profile.Trimming.{tirm}
use tag_etl.Profile.Trimming.Reference.{tirm-trim_both}
use tag_etl.Profile.Printer.Pieces.{no_line-print_item, append-ne-nil}
use tag_etl.Profile.Printer.{
  print_item, print_header, print_lines, join, print_profile, IsPlainItem, IsPlainName, IsPlain,
  AllPlainItems,
}
use tag_etl.Text.Trim.{trim_both_lem, trim_left, trim_right, trim_right-concat, trim_right-append}
use tag_etl.Text.{Bytes, is_blank, index_of, index_of-append_none}

-- A line of its own: no line feed in it, and something dark at its end.
record IsLine (l : Bytes) : Type 0 where
  no_feed : index_of b'\n' l ≡ none
  tight : trim_right is_blank l ≡ l
  some_text : l ≢ []

abbrev AllLines : List Bytes → Type 0
AllLines [] = Unit
AllLines (l ∷ ls) = IsLine l × AllLines ls

lines_last : (l : Bytes) → index_of b'\n' l ≡ none → l ≢ [] → lines l ≡ l ∷ []
unfolding lines index_of
lines_last [] h ne = absurd (ne refl)
lines_last (c ∷ []) h ne = ground arith
lines_last (c ∷ d ∷ ds) h ne = ground (arith, lines_last (d ∷ ds))

lines-append :
    (l rest : Bytes) → index_of b'\n' l ≡ none → lines (l ++ (b'\n' ∷ rest)) ≡ l ∷ lines rest
unfolding lines index_of
lines-append [] rest h = refl
lines-append (c ∷ cs) rest h = ground (arith, lines-append cs rest)

lines-join : (ls : List Bytes) → AllLines ls → lines (join ls) ≡ ls
unfolding join lines
lines-join [] a = refl
lines-join (l ∷ []) a = lines_last l a.0.no_feed a.0.some_text
lines-join (l ∷ m ∷ ls) a =
    lines-append l (join (m ∷ ls)) a.0.no_feed ∙ ap (◌∷◌ l) (lines-join (m ∷ ls) a.1)

join-ne-nil : (l : Bytes) (ls : List Bytes) → AllLines (l ∷ ls) → join (l ∷ ls) ≢ []
unfolding join
join-ne-nil l [] a = a.0.some_text
join-ne-nil [] (m ∷ ls) a = absurd (a.0.some_text refl)
join-ne-nil (c ∷ cs) (m ∷ ls) a = cc

trim_right-join :
    (l : Bytes) (ls : List Bytes)
    → AllLines (l ∷ ls)
    → trim_right is_blank (join (l ∷ ls)) ≡ join (l ∷ ls)
unfolding join
trim_right-join l [] a = a.0.tight
trim_right-join l (m ∷ ls) a =
    let rest = join (m ∷ ls) in
    let some_rest = join-ne-nil m ls a.1 in
    let tight = trim_right-join m ls a.1 in
    let feed : trim_right is_blank (b'\n' ∷ rest) ≡ b'\n' ∷ rest =
      trim_right-append is_blank (b'\n' ∷ []) rest (λ e. some_rest (sym tight ∙ e))
      ∙ ap (◌∷◌ b'\n') tight in
    trim_right-append is_blank l (b'\n' ∷ rest) (λ e. cc (sym feed ∙ e)) ∙ ap (λ t. l ++ t) feed

IsLine-print_header : (s : Section) → IsPlainName s.name → IsLine (print_header s)
unfolding print_header index_of is_blank
IsLine-print_header s plain = record {
  no_feed = ground (arith, index_of-append_none b'\n' s.name (b']' ∷ []) plain.no_line);
  tight = trim_right-concat is_blank (b'[' ∷ s.name) b']';
  some_text = cc;
}

IsLine-print_item : (i : Item) → IsPlainItem i → IsLine (print_item i)
IsLine-print_item i plain = record {
  no_feed = no_line-print_item i plain;
  tight =
      unfold print_item is_blank in
      rw (sym (append_assoc i.name (b'=' ∷ b'"' ∷ i.value) (b'"' ∷ [])))
        (trim_right-concat is_blank (i.name ++ b'=' ∷ b'"' ∷ i.value) b'"');
  some_text = unfold print_item in append-ne-nil i.name _ b'=';
}

AllLines-append : (ls ms : List Bytes) → AllLines ls → AllLines ms → AllLines (ls ++ ms)
AllLines-append [] ms a b = b
AllLines-append (l ∷ ls) ms a b = (a.0, AllLines-append ls ms a.1 b)

AllLines-items : (is : List Item) → AllPlainItems is → AllLines (map print_item is)
AllLines-items [] a = tt
AllLines-items (i ∷ is) a = (IsLine-print_item i a.0, AllLines-items is a.1)

AllLines-print_lines : (p : List Section) → IsPlain p → AllLines (print_lines p)
unfolding print_lines
AllLines-print_lines [] a = tt
AllLines-print_lines (s ∷ rest) a = (
  IsLine-print_header s a.0,
  AllLines-append (map print_item s.items) (print_lines rest) (AllLines-items s.items a.1)
      (AllLines-print_lines rest a.2),
)

-- The text of a profile that has a section, without the last line feed.
trim_left-print_profile :
    (s : Section) (rest : List Section)
    → trim_left is_blank (join (print_lines (s ∷ rest))) ≡ join (print_lines (s ∷ rest))
unfolding print_lines join trim_left is_blank print_header
trim_left-print_profile s rest = head (map print_item s.items ++ print_lines rest)
  where
    head :
        (ls : List Bytes)
        → trim_left is_blank (join (print_header s ∷ ls)) ≡ join (print_header s ∷ ls)
    head [] = refl
    head (l ∷ ls) = refl

pub tirm-print_profile :
    (s : Section) (rest : List Section)
    → IsPlain (s ∷ rest)
    → tirm (print_profile (s ∷ rest)) ≡ some (join (print_lines (s ∷ rest)))
unfolding print_profile is_blank
tirm-print_profile s rest a =
    let all = AllLines-print_lines (s ∷ rest) a in
    let text = join (print_lines (s ∷ rest)) in
    let right : trim_right is_blank (text ++ b'\n' ∷ []) ≡ text =
      trim_right-concat is_blank text b'\n' ∙ unfold print_lines in trim_right-join _ _ all in
    tirm-trim_both (text ++ b'\n' ∷ [])
    ∙ ap some
        (trim_both_lem is_blank (text ++ b'\n' ∷ []) ∙ rw right (trim_left-print_profile s rest))

pub lines-print_profile :
    (p : List Section) → IsPlain p → lines (join (print_lines p)) ≡ print_lines p
lines-print_profile p a = lines-join (print_lines p) (AllLines-print_lines p a)

pub join-print_lines-ne-nil :
    (s : Section) (rest : List Section) → join (print_lines (s ∷ rest)) ≢ []
unfolding print_lines join print_header
join-print_lines-ne-nil s rest = head (map print_item s.items ++ print_lines rest)
  where
    head : (ls : List Bytes) → join (print_header s ∷ ls) ≢ []
    head [] = cc
    head (l ∷ ls) = cc
