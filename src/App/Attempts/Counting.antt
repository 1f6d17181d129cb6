-- ===== src/App/Attempts/Counting.antt =====
-- The attempts, counted by where they stand.
use p_and_pp.Base.{
  ℕ, zero, suc, ◌+◌, ◌≡◌, ◌≢◌, refl, ap, List, [], ◌∷◌, ◌++◌, arith, length, All, ◌⊎◌, inl, inr,
}
use p_and_pp.Ice.Connection.{Connection}
use p_and_pp.App.Attempts.{Attempt, sleeping, unconnected, connected, over, sleepers}

module _ {C : Type 0} where
  abbrev pub steps_left : Attempt C → ℕ
  steps_left sleeping = 3
  steps_left unconnected = 2
  steps_left (connected conn) = 1
  steps_left over = 0

  abbrev pub finished : Attempt C → ℕ
  finished over = 1
  finished _ = 0

  -- A sum over the attempts.
  abbrev pub total : (Attempt C → ℕ) → List (Attempt C) → ℕ
  total f [] = 0
  total f (t ∷ ts) = f t + total f ts

  pub total-at :
      (f : Attempt C → ℕ) (xs ys : List (Attempt C)) (t : Attempt C)
      → total f (xs ++ t ∷ ys) ≡ f t + total f (xs ++ ys)
  total-at f [] ys t = refl
  total-at f (x ∷ xs) ys t = omega (arith, total-at f xs ys t)

  -- An attempt that has a connection has this one.
  abbrev pub Has : Connection C → Attempt C → Type 0
  Has conn (connected k) = k ≡ conn
  Has conn _ = Unit {0}

  pub Has-at :
      (conn : Connection C) (xs ys : List (Attempt C)) (t u : Attempt C)
      → All (Has conn) (xs ++ t ∷ ys)
      → Has conn u
      → Has conn t × All (Has conn) (xs ++ u ∷ ys)
  Has-at conn [] ys t u h k = (h.0, (k, h.1))
  Has-at conn (x ∷ xs) ys t u h k =
      let (first, rest) = Has-at conn xs ys t u h.1 k in (first, (h.0, rest))

  pub sleepers-Has : (conn : Connection C) (n : ℕ) → All (Has conn) (sleepers n)
  sleepers-Has conn zero = tt
  sleepers-Has conn (suc n) = (tt, sleepers-Has conn n)

  pub length-at :
      (xs ys : List (Attempt C)) (t u : Attempt C) → length (xs ++ t ∷ ys) ≡ length (xs ++ u ∷ ys)
  length-at [] ys t u = refl
  length-at (x ∷ xs) ys t u = omega (arith, length-at xs ys t u)

  -- An attempt that is not over, if the sum says that there is one.
  pub unfinished :
      (ts : List (Attempt C))
      → (total steps_left ts ≡ 0)
        ⊎ ((xs ys : List (Attempt C)) × (t : Attempt C) × (ts ≡ xs ++ t ∷ ys) × (steps_left t ≢ 0))
  unfinished [] = inl refl
  unfinished (sleeping ∷ ts) = inr ([], ts, sleeping, refl, λ e. omega (arith, e))
  unfinished (unconnected ∷ ts) = inr ([], ts, unconnected, refl, λ e. omega (arith, e))
  unfinished (connected k ∷ ts) = inr ([], ts, connected k, refl, λ e. omega (arith, e))
  unfinished (over ∷ ts) = elim (unfinished ts) [
    | inl e ↦ inl (omega (arith, e))
    | inr (xs, ys, t, e, n) ↦ inr (over ∷ xs, ys, t, ap (λ l. over ∷ l) e, n)
  ]

  pub all_over : (ts : List (Attempt C)) → total steps_left ts ≡ 0 → total finished ts ≡ length ts
  all_over [] e = refl
  all_over (sleeping ∷ ts) e = absurd (omega (arith, e))
  all_over (unconnected ∷ ts) e = absurd (omega (arith, e))
  all_over (connected k ∷ ts) e = absurd (omega (arith, e))
  all_over (over ∷ ts) e = omega (arith, all_over ts (omega (arith, e)))

  pub each_over : (ts : List (Attempt C)) → total steps_left ts ≡ 0 → All (λ t. t ≡ over) ts
  each_over [] e = tt
  each_over (sleeping ∷ ts) e = absurd (omega (arith, e))
  each_over (unconnected ∷ ts) e = absurd (omega (arith, e))
  each_over (connected k ∷ ts) e = absurd (omega (arith, e))
  each_over (over ∷ ts) e = (refl, each_over ts (omega (arith, e)))

pub sleepers-total : (C : Type 0) (n : ℕ) → total {C = C} finished (sleepers n) ≡ 0
sleepers-total C zero = refl
sleepers-total C (suc n) = omega (arith, sleepers-total C n)

pub length-sleepers : (C : Type 0) (n : ℕ) → length (sleepers {C = C} n) ≡ n
length-sleepers C zero = refl
length-sleepers C (suc n) = omega (arith, length-sleepers C n)
