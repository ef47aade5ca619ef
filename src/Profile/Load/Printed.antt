-- ===== src/Profile/Load/Printed.antt =====
-- `LoadProfile` of utils/Profile.cpp on a file that holds the printed text of a profile.
use tag_etl.Codes.{s_ok}
use tag_etl.Prelude.{ℕ, ◌≡◌, refl, ap, ◌∙◌, false, List, [], ◌∷◌, ◌++◌, Option, some, arith, ◌==◌}
use tag_etl.Profile.Build.{Section, build_profile_queue}
use tag_etl.Profile.Load.{c_string, load_profile, profile_of}
use tag_etl.Profile.Lookup.{is_empty}
use tag_etl.Profile.Printer.RoundTrip.{build_profile_queue-print_profile}
use tag_etl.Profile.Printer.{IsPlain, join, print_lines, print_profile}
use tag_etl.System.{Env, World, bind-some, call_file, content, lift, read_file}
use tag_etl.Text.{Bytes, HasNoZero}

c_string-clean : (s : Bytes) → HasNoZero s → c_string s ≡ s
unfolding c_string
c_string-clean [] h = refl
c_string-clean (c ∷ s) h =
    let go_on : (c == 0) ≡ false = ground (arith, h.0) in
    rw (go_on, c_string) (ap (◌∷◌ c) (c_string-clean s h.1))

profile_of-content :
    (s : Bytes)
    → is_empty s ≡ false
    → HasNoZero s
    → profile_of [] (content s) ≡ build_profile_queue [] s
unfolding profile_of
profile_of-content [] h k = cc
profile_of-content (c ∷ s) h k = ap (build_profile_queue []) (c_string-clean (c ∷ s) k)

is_empty-append : (s : Bytes) (c : ℕ) → is_empty (s ++ (c ∷ [])) ≡ false
is_empty-append [] c = refl
is_empty-append (x ∷ s) c = refl

print_profile_not_empty : (p : List Section) → is_empty (print_profile p) ≡ false
unfolding print_profile
print_profile_not_empty p = is_empty-append (join (print_lines p)) b'\n'

pub lift-some :
    {A : Type 0} {a : A} (o : Option A) (w : World) → o ≡ some a → lift o w ≡ some (a, w)
unfolding lift
lift-some {A} {a} o w e = rw (e, lift) refl

load_profile-content :
    (env : Env) (c : ℕ) (path : Bytes) (w : World) (s : Bytes) (p : List Section)
    → env.file (read_file (c ∷ path) ∷ w.calls) ≡ content s
    → profile_of [] (content s) ≡ some (s_ok, p)
    → load_profile env [] (c ∷ path) w
      ≡ some ((s_ok, p), record w { calls = read_file (c ∷ path) ∷ w.calls })
unfolding load_profile call_file
load_profile-content env c path w s p file built =
    let w' : World = record w { calls = read_file (c ∷ path) ∷ w.calls } in
    bind-some (call_file env (read_file (c ∷ path))) (λ f. lift (profile_of [] f)) w w' (content s)
      (ap (λ f. some (f, w')) file)
    ∙ lift-some (profile_of [] (content s)) w' built

pub load_profile-print_profile :
    (env : Env) (c : ℕ) (path : Bytes) (w : World) (s : Section) (rest : List Section)
    → IsPlain (s ∷ rest)
    → HasNoZero (print_profile (s ∷ rest))
    → env.file (read_file (c ∷ path) ∷ w.calls) ≡ content (print_profile (s ∷ rest))
    → load_profile env [] (c ∷ path) w
      ≡ some ((s_ok, s ∷ rest), record w { calls = read_file (c ∷ path) ∷ w.calls })
load_profile-print_profile env c path w s rest plain clean file =
    let p = s ∷ rest in
    load_profile-content env c path w (print_profile p) p file (
      profile_of-content (print_profile p) (print_profile_not_empty p) clean
      ∙ build_profile_queue-print_profile s rest plain)
