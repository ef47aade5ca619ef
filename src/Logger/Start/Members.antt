-- ===== src/Logger/Start/Members.antt =====
-- The members that `init` of logger/logger.cpp sets, and which settings fit them.
use tag_etl.Logger.Setup.{Settings, chosen, copied_path, end_path, set_members}
use tag_etl.Logger.{Logger, Outside, max_path_len}
use tag_etl.Prelude.{
  ℕ, ◌+◌, ◌<◌, ◌≡◌, ◌⊎◌, inl, inr, refl, Bool, true, false, Bool-cases, not, ◌&&◌, ◌==◌, [], ◌∷◌,
  ◌++◌, none, some, get_or, length, length-append, ltb, arith, if◌then◌else◌, ltb→lt,
}
use tag_etl.Text.{Bytes}

abbrev pub ends_with_slash : Bytes → Bool
ends_with_slash [] = false
ends_with_slash (c ∷ cs) = get_or (c ∷ cs) (length cs) 0 == b'/'

-- A path that is not empty and has room for its closing 0, and for a slash where it has none.
abbrev pub fits_path : Bytes → Bool
fits_path s =
    not (length s == 0) && ltb (if ends_with_slash s then length s else length s + 1) max_path_len

abbrev pub fits_settings : Settings → Bool
fits_settings s = ltb (length s.name) max_path_len && (fits_path s.path && fits_path s.mov)

pub ends_with_slash-append : (c : ℕ) (cs : Bytes) → ends_with_slash (c ∷ (cs ++ (b'/' ∷ []))) ≡ true
ends_with_slash-append c [] = refl
ends_with_slash-append c (d ∷ cs) = ends_with_slash-append d cs

pub copied_path-cases :
    (s : Bytes)
    → ((fits_path s ≡ false) × (copied_path s ≡ none))
      ⊎ ((fits_path s ≡ true)
          × (t : Bytes) × (copied_path s ≡ some t)
          × (length t < max_path_len)
          × (ends_with_slash t ≡ true))
unfolding end_path copied_path
copied_path-cases [] = inl (refl, refl)
copied_path-cases (c ∷ cs) = elim (Bool-cases (ends_with_slash (c ∷ cs))) [
  | inl e ↦ elim (Bool-cases (ltb (length (c ∷ cs)) max_path_len)) [
    | inl h ↦ inr (ground arith, c ∷ cs, ground arith, ground arith, e)
    | inr h ↦ inl (ground arith, ground arith)
  ]
  | inr e ↦
      let long = length-append (c ∷ cs) (b'/' ∷ []) in
      elim (Bool-cases (ltb (length (c ∷ cs) + 1) max_path_len)) [
        | inl h ↦ inr (
          ground arith,
          c ∷ (cs ++ (b'/' ∷ [])),
          ground (arith, long),
          ground (arith, long),
          ends_with_slash-append c cs,
        )
        | inr h ↦ inl (ground arith, ground (arith, long))
      ]
]

abbrev pub member_values : Outside → Settings → Logger → Bytes → Bytes → Logger
member_values env s l path mov = record l {
  flush = s.flush;
  daysplit = s.daysplit;
  log_max_size = s.max_size;
  log_name = s.name;
  log_path = path;
  mov_path = mov;
  uid = chosen env.user env.own_user s.uid_str;
  gid = chosen env.group env.own_group s.gid_str;
}

-- The members that `init` sets: all of them, or a buffer is overrun.
pub set_members-cases :
    (env : Outside) (s : Settings) (l : Logger)
    → ((fits_settings s ≡ false) × (set_members env s l ≡ none))
      ⊎ ((fits_settings s ≡ true)
          × (l' : Logger) × (set_members env s l ≡ some l')
          × ((l'.has_file ≡ l.has_file)
              × (l'.inited ≡ l.inited)
              × (l'.log_level ≡ l.log_level)
              × (l'.locked ≡ l.locked))
          × (l'.log_name ≡ s.name)
          × (length l'.log_name < max_path_len)
          × ((length l'.log_path < max_path_len) × (ends_with_slash l'.log_path ≡ true))
          × ((length l'.mov_path < max_path_len) × (ends_with_slash l'.mov_path ≡ true)))
unfolding set_members
set_members-cases env s l = elim (Bool-cases (ltb (length s.name) max_path_len)) [
  | inr e ↦ inl (rw e refl, simp e refl)
  | inl e ↦ elim (copied_path-cases s.path) [
    | inl p ↦ inl (rw (e, p.0) refl, simp (e, p.1) refl)
    | inr p ↦ elim (copied_path-cases s.mov) [
      | inl q ↦ inl (rw (e, p.0, q.0) refl, simp (e, p.2, q.1) refl)
      | inr q ↦ inr (
        rw (e, p.0, q.0) refl,
        member_values env s l p.1 q.1,
        simp (e, p.2, q.2) refl,
        (refl, refl, refl, refl),
        refl,
        ltb→lt (length s.name) max_path_len e,
        (p.3, p.4),
        (q.3, q.4),
      )
    ]
  ]
]
