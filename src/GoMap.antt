-- ===== src/GoMap.antt =====
-- Go's map with text keys, as its entries in the order in which a range loop visits them. Every
-- order stands for the same map: code that ranges over one is shown not to depend on it.
use p_and_pp.Base.{
  ◌≡◌, ◌≢◌, refl, subst, Bool-cases, inl, inr, String, ◌==◌, eq_iff, Bool, true, false, List, [],
  ◌∷◌, Option, none, some, arith, if◌then◌else◌, All,
}

module _ {ℓ} {V : Type ℓ} where
  -- `_, ok := m[k]`
  unfoldable pub has : String → List (String × V) → Bool
  has k [] = false
  has k ((j, v) ∷ m) = if j == k then true else has k m

  -- `m[k] = v`: a key that is there keeps its place, a new one goes to the end.
  unfoldable pub insert : String → V → List (String × V) → List (String × V)
  insert k new [] = (k, new) ∷ []
  insert k new ((j, old) ∷ m) =
      let rest = insert k new m in if j == k then (k, new) ∷ m else (j, old) ∷ rest

  -- `delete(m, k)`
  unfoldable pub erase : String → List (String × V) → List (String × V)
  erase k [] = []
  erase k ((j, v) ∷ m) = let rest = erase k m in if j == k then m else (j, v) ∷ rest

  -- `v, ok := m[k]`
  unfoldable pub lookup : String → List (String × V) → Option V
  lookup k [] = none
  lookup k ((j, v) ∷ m) = let found = lookup k m in if j == k then some v else found

  -- No entry has the key.
  abbrev pub Lacks : String → List (String × V) → Type 0
  Lacks k = All (λ e. e.0 ≢ k)

  -- The keys of a map are distinct.
  abbrev pub Keyed : List (String × V) → Type 0
  Keyed [] = Unit {0}
  Keyed ((k, v) ∷ m) = Lacks k m × Keyed m

  pub has-insert :
      (k j : String) (v : V) (m : List (String × V))
      → has j (insert k v m) ≡ (if k == j then true else has j m)
  unfolding has insert
  has-insert k j v [] = refl
  has-insert k j v ((i, w) ∷ m) =
      ground (arith, eq_iff k j, eq_iff i k, eq_iff i j, has-insert k j v m)

  pub lookup-insert :
      (k j : String) (new : V) (m : List (String × V))
      → lookup j (insert k new m) ≡ (if k == j then some new else lookup j m)
  unfolding insert lookup
  lookup-insert k j new [] = refl
  lookup-insert k j new ((i, old) ∷ m) =
      ground (arith, lookup-insert k j new m, eq_iff i j, eq_iff i k, eq_iff k j)

  pub has_of_lookup :
      (k : String) (m : List (String × V)) {v : V} → lookup k m ≡ some v → has k m ≡ true
  unfolding lookup has
  has_of_lookup k [] h = cc
  has_of_lookup k ((j, w) ∷ m) {v} h = ground (arith, has_of_lookup k m {v = v})

  pub has_of_lookup-none :
      (k : String) (m : List (String × V)) → lookup k m ≡ none → has k m ≡ false
  unfolding lookup has
  has_of_lookup-none k [] h = refl
  has_of_lookup-none k ((j, w) ∷ m) h = ground (arith, has_of_lookup-none k m)

  pub lookup_of_has-false :
      (k : String) (m : List (String × V)) → has k m ≡ false → lookup k m ≡ none
  unfolding lookup has
  lookup_of_has-false k [] h = refl
  lookup_of_has-false k ((j, w) ∷ m) h = ground (arith, lookup_of_has-false k m)

  pub lookup_of_Lacks : (k : String) (m : List (String × V)) → Lacks k m → lookup k m ≡ none
  unfolding lookup
  lookup_of_Lacks k [] h = refl
  lookup_of_Lacks k ((j, w) ∷ m) h = ground (arith, eq_iff j k, lookup_of_Lacks k m h.1)

  pub has_of_Lacks : (k : String) (m : List (String × V)) → Lacks k m → has k m ≡ false
  unfolding has
  has_of_Lacks k [] h = refl
  has_of_Lacks k ((j, w) ∷ m) h = ground (arith, eq_iff j k, has_of_Lacks k m h.1)

  pub Lacks-of_has-false : (k : String) (m : List (String × V)) → has k m ≡ false → Lacks k m
  unfolding has
  Lacks-of_has-false k [] h = tt
  Lacks-of_has-false k ((j, w) ∷ m) h = ground (arith, eq_iff j k, Lacks-of_has-false k m)

  pub Lacks-insert :
      (k j : String) (v : V) (m : List (String × V)) → k ≢ j → Lacks j m → Lacks j (insert k v m)
  unfolding insert
  Lacks-insert k j v [] h l = (h, tt)
  Lacks-insert k j v ((i, w) ∷ m) h l = ground (arith, Lacks-insert k j v m h l.1)

  pub Lacks-erase : (k j : String) (m : List (String × V)) → Lacks j m → Lacks j (erase k m)
  unfolding erase
  Lacks-erase k j [] l = tt
  Lacks-erase k j ((i, w) ∷ m) l = ground (arith, Lacks-erase k j m l.1)

  pub insert-Keyed : (k : String) (v : V) (m : List (String × V)) → Keyed m → Keyed (insert k v m)
  unfolding insert
  insert-Keyed k v [] h = (tt, tt)
  insert-Keyed k v ((i, w) ∷ m) h =
      ground (arith, eq_iff i k, Lacks-insert k i v m, insert-Keyed k v m h.1)

  pub erase-Keyed : (k : String) (m : List (String × V)) → Keyed m → Keyed (erase k m)
  unfolding erase
  erase-Keyed k [] h = tt
  erase-Keyed k ((i, w) ∷ m) h = ground (arith, Lacks-erase k i m h.0, erase-Keyed k m h.1)

  pub lookup-erase :
      (k j : String) (m : List (String × V))
      → Keyed m
      → lookup j (erase k m) ≡ (if k == j then none else lookup j m)
  unfolding lookup erase
  lookup-erase k j [] h = ground arith
  lookup-erase k j ((i, w) ∷ m) h =
      ground
        (arith, eq_iff k j, eq_iff i k, eq_iff i j, lookup-erase k j m h.1, lookup_of_Lacks i m h.0)

  pub has-erase :
      (k j : String) (m : List (String × V))
      → Keyed m
      → has j (erase k m) ≡ (if k == j then false else has j m)
  unfolding has erase
  has-erase k j [] h = ground arith
  has-erase k j ((i, w) ∷ m) h =
      ground (arith, eq_iff k j, eq_iff i k, eq_iff i j, has-erase k j m h.1, has_of_Lacks i m h.0)

module _ {ℓ κ} {V : Type ℓ} (P : String × V → Type κ) where
  pub All-insert :
      (k : String) (v : V) (m : List (String × V)) → P (k, v) → All P m → All P (insert k v m)
  unfolding insert
  All-insert k v [] p h = (p, tt)
  All-insert k v ((j, w) ∷ m) p h = elim (Bool-cases (j == k)) [
    | inl e ↦ rw e (p, h.1)
    | inr e ↦ rw e (h.0, All-insert k v m p h.1)
  ]

  pub All-erase : (k : String) (m : List (String × V)) → All P m → All P (erase k m)
  unfolding erase
  All-erase k [] h = tt
  All-erase k ((j, w) ∷ m) h = elim (Bool-cases (j == k)) [
    | inl e ↦ rw e h.1
    | inr e ↦ rw e (h.0, All-erase k m h.1)
  ]

  -- What holds of every entry holds of the one that a lookup finds.
  pub All-lookup :
      (k : String) (m : List (String × V)) (v : V) → All P m → lookup k m ≡ some v → P (k, v)
  unfolding lookup
  All-lookup k [] v h e = cc
  All-lookup k ((j, w) ∷ m) v h e = elim (Bool-cases (j == k)) [
    | inl same ↦ subst P (ground (arith, eq_iff j k)) h.0
    | inr other ↦ All-lookup k m v h.1 (ground arith)
  ]
