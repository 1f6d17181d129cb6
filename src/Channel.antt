-- ===== src/Channel.antt =====
-- Go's buffered channels on a store: a reference is a number, and `chan T` values share it.
use p_and_pp.Base.{
  ℕ, Bool, true, false, List, [], ◌∷◌, ◌++◌, if◌then◌else◌, ltb, nat_eq, length, Outcome, done,
  blocked, panicked,
}

pub record Chan {ℓ} (A : Type ℓ) : Type ℓ where
  pub buffer : List A
  pub capacity : ℕ
  pub closed : Bool

module _ {ℓ} {A : Type ℓ} where
  -- `make(chan T, n)`
  unfoldable pub make : ℕ → Chan A
  make n = record { buffer = []; capacity = n; closed = false }

  abbrev pub has_room : Chan A → Bool
  has_room c = ltb (length c.buffer) c.capacity

  abbrev pub push : A → Chan A → Chan A
  push a c = record c { buffer = c.buffer ++ a ∷ [] }

  abbrev pub put : (ℕ → Chan A) → ℕ → Chan A → ℕ → Chan A
  put s r c q = if nat_eq r q then c else s q

  -- `ch <- a`: it waits while the buffer is full, and panics on a closed channel.
  unfoldable pub send : ℕ → A → (ℕ → Chan A) → Outcome (ℕ → Chan A)
  send r a s =
      if (s r).closed
      then panicked
      else if has_room (s r)
      then done (put s r (push a (s r)))
      else blocked

  -- `select { case ch <- a: default: }`: a full buffer drops the value.
  unfoldable pub offer : ℕ → A → (ℕ → Chan A) → Outcome (ℕ → Chan A)
  offer r a s =
      if (s r).closed
      then panicked
      else if has_room (s r)
      then done (put s r (push a (s r)))
      else done s

  -- `close(ch)`: closing twice panics.
  unfoldable pub close : ℕ → (ℕ → Chan A) → Outcome (ℕ → Chan A)
  close r s = if (s r).closed then panicked else done (put s r (record (s r) { closed = true }))
