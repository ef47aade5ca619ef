-- ===== src/System/Success.antt =====
-- What a code S_OK tells of the calls: an action that ends with 0 has made calls of which `D` holds.
use tag_etl.Prelude.{ℕ, List, Option, none, some, ◌≡◌, ◌==◌, ==_iff, Bool-cases, inl, inr, arith}
use tag_etl.System.Keeps.{Upon, Leads, Leads-bind}
use tag_etl.System.{Act, Call, Env, World, ◌>>=◌, pure, branch, call}

abbrev pub Success : (List Call → Type 0) → ℕ → List Call → Type 0
Success D code calls = code ≡ 0 → D calls

abbrev pub Always : List Call → Type 0
Always calls = Unit

Upon-Always : {A : Type 0} (r : Option (A × World)) → Upon (λ _. Always) r
Upon-Always none = tt
Upon-Always (some (a, w)) = tt

pub Leads-Always : {A : Type 0} (P : List Call → Type 0) (m : Act A) → Leads P (λ _. Always) m
Leads-Always P m = record { at = λ w h. Upon-Always (m w) }

pub Upon-both :
    {A : Type 0} (Q R : A → List Call → Type 0) (r : Option (A × World))
    → Upon Q r
    → Upon R r
    → Upon (λ a c. Q a c × R a c) r
Upon-both Q R none h k = tt
Upon-both Q R (some (a, w)) h k = (h, k)

module _ {D : List Call → Type 0} where
  pub Success-pure :
      (P : List Call → Type 0) (code : ℕ) → (code ≡ 0 → ⊥) → Leads P (Success D) (pure code)
  unfolding pure
  Success-pure P code n = record { at = λ w h z. absurd (n z) }

  pub Success-after :
      (P : List Call → Type 0) (env : Env) (c : Call) (code : ℕ)
      → (code ≡ 0 → ⊥)
      → Leads P (Success D) (call env c >>= λ _. pure code)
  unfolding pure call ◌>>=◌
  Success-after P env c code n = record { at = λ w h z. absurd (n z) }

  -- The code of the action before decides between the rest and an error's end.
  pub Success-branch :
      (R : List Call → Type 0) (code : ℕ) (k e : Act ℕ)
      → Leads R (Success D) k
      → ((code ≡ 0 → ⊥) → Leads Always (Success D) e)
      → Leads (Success R code) (Success D) (branch (code == 0) k e)
  unfolding branch
  Success-branch R code k e hk he = elim (Bool-cases (code == 0)) [
    | inl y ↦ rw y (record { at = λ w h. hk.at w (h ((==_iff code 0).0 y)) })
    | inr n ↦ rw n (record { at = λ w h. (he (λ z. ground (arith, n, z))).at w tt })
  ]

  pub Success-bind :
      (P R : List Call → Type 0) (m k : Act ℕ) (e : ℕ → Act ℕ)
      → Leads P (Success R) m
      → Leads R (Success D) k
      → ((code : ℕ) → (code ≡ 0 → ⊥) → Leads Always (Success D) (e code))
      → Leads P (Success D) (m >>= λ code. branch (code == 0) k (e code))
  Success-bind P R m k e hm hk he =
      Leads-bind m _ hm λ code. Success-branch R code k (e code) hk (he code)

  pub Success-test :
      (code : ℕ) (k e : Act ℕ)
      → Leads Always (Success D) k
      → ((code ≡ 0 → ⊥) → Leads Always (Success D) e)
      → Leads Always (Success D) (branch (code == 0) k e)
  Success-test code k e hk he = record {
    at = λ w _. (Success-branch Always code k e hk he).at w (λ _. tt);
  }

  pub Success-if :
      (code : ℕ) (k : Act ℕ)
      → Leads Always (Success D) k
      → Leads Always (Success D) (branch (code == 0) k (pure code))
  Success-if code k hk = Success-test code k (pure code) hk (Success-pure Always code)
