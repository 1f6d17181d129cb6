-- ===== src/Base/Results.antt =====
-- A call that may return an error, kept as its text, and the integers of Go's `int`.
use Prim.Native.Nat.{ℕ}
use Prim.Native.String.{String, ◌++◌}
use mathlib.Core.Path.{◌≡◌}

pub data Result {ℓ} (A : Type ℓ) : Type ℓ where
  ok : A → Result A
  err : String → Result A

-- `if err != nil { return nil, err }`
infixl 5 ◌>>=◌
abbrev pub ◌>>=◌ {ℓ κ} : {A : Type ℓ} {B : Type κ} → Result A → (A → Result B) → Result B
ok a >>= f = f a
err e >>= f = err e

-- `fmt.Errorf("context: %w", err)`
abbrev pub wrap {ℓ} : {A : Type ℓ} → String → Result A → Result A
wrap context (ok a) = ok a
wrap context (err e) = err (context ++ ": " ++ e)

-- `negsuc n` is -(n + 1).
pub data ℤ : Type 0 where
  pos : ℕ → ℤ
  negsuc : ℕ → ℤ

-- json.Marshal and json.Unmarshal at one Go type; R is the type of documents.
pub record Codec (R A : Type 0) : Type 0 where
  pub marshal : A → Result R
  pub unmarshal : R → Result A

-- What is written is read back.
abbrev pub RoundTrips : {R A : Type 0} → Codec R A → Type 0
RoundTrips {R} {A} c = (a : A) → (r : R) × (c.marshal a ≡ ok r) × (c.unmarshal r ≡ ok a)
