-- ===== src/Ice/Scan/Words.antt =====
-- What `%s` and a space of the format take of a text that was printed.
use p_and_pp.Base.{
  ℕ, ◌≡◌, refl, ap, Bool, true, false, [], ◌∷◌, ◌++◌, some, arith, nat_eq, All, Bool-cases, inl,
  inr,
}
use p_and_pp.Base.Texts.{Text}
use p_and_pp.Ice.Scan.{
  is_space, skip_space, drop_spaces, gap, literal, span, not_space, non_empty, word,
}

-- A text where a run of passing characters ends.
abbrev pub Stops : (ℕ → Bool) → Text → Type 0
Stops p [] = Unit
Stops p (c ∷ s) = p c ≡ false

pub span-All :
    (p : ℕ → Bool) (t rest : Text)
    → All (λ c. p c ≡ true) t
    → Stops p rest
    → span p (t ++ rest) ≡ (t, rest)
unfolding span
span-All p [] [] h s = refl
span-All p [] (c ∷ rest) h s = rw s
span-All p (c ∷ t) rest h s = rw (span-All p t rest h.1 s) (rw h.0)

-- A text that starts with no space.
abbrev pub Starts : Text → Type 0
Starts [] = ⊥
Starts (c ∷ t) = is_space c ≡ false

-- A text that is not empty and has no space.
pub record IsWord (t : Text) : Type 0 where
  pub starts : Starts t
  pub spaceless : All (λ c. is_space c ≡ false) t

newline : (c : ℕ) → is_space c ≡ false → nat_eq c 0xa ≡ false
unfolding is_space
newline c h = elim (Bool-cases (nat_eq c 0xa)) [
  | inl e ↦ let same : c ≡ 0xa = ground arith in absurd (cc (h, ap is_space same))
  | inr n ↦ n
]

pub skip_space-Starts : (t rest : Text) → Starts t → skip_space (t ++ rest) ≡ some (t ++ rest)
unfolding skip_space
skip_space-Starts [] rest h = absurd h
skip_space-Starts (c ∷ t) rest h = rw (newline c h, h)

drop_spaces-Starts : (t rest : Text) → Starts t → drop_spaces (t ++ rest) ≡ t ++ rest
unfolding drop_spaces
drop_spaces-Starts [] rest h = absurd h
drop_spaces-Starts (c ∷ t) rest h = rw (newline c h, h)

pub gap-Starts : (t rest : Text) → Starts t → gap (b' ' ∷ (t ++ rest)) ≡ some (t ++ rest)
unfolding gap is_space
gap-Starts t rest h = ap some (drop_spaces-Starts t rest h)

pub literal_self : (f rest : Text) → literal f (f ++ rest) ≡ some rest
unfolding literal
literal_self [] rest = refl
literal_self (c ∷ f) rest =
    let same : nat_eq c c ≡ true = ground arith in rw (same, literal_self f rest)

module _ (t rest : Text) (w : IsWord t) (s : Stops not_space rest) where
  taken : span not_space (t ++ rest) ≡ (t, rest)
  taken = span-All not_space t rest (passes t w.spaceless) s
    where
      passes : (t : Text) → All (λ c. is_space c ≡ false) t → All (λ c. not_space c ≡ true) t
      passes [] h = tt
      passes (c ∷ t) h = (rw h.0 refl, passes t h.1)

  kept : Starts t → non_empty (t, rest) ≡ some (t, rest)
  kept h = by_head t h
    where
      by_head : (t : Text) → Starts t → non_empty (t, rest) ≡ some (t, rest)
      by_head [] h = absurd h
      by_head (c ∷ t) h = refl

  -- `%s` takes a printed word off the input.
  pub word-IsWord : word (t ++ rest) ≡ some (t, rest)
  unfolding word
  word-IsWord = rw (skip_space-Starts t rest w.starts, word) (rw taken (kept w.starts))
