-- ===== src/Ice/Scan.antt =====
-- The verbs of fmt.Sscanf that pkg/p2p/ice/gatherer.go uses, on what is left of the input. An error is
-- none: its text is left out.
pub mod Words
pub mod Numbers
use p_and_pp.Base.{
  ℕ, ◌+◌, ◌-◌, ◌*◌, ◌^◌, Bool, true, false, ◌&&◌, ◌||◌, List, [], ◌∷◌, Option, none, some,
  if◌then◌else◌, ltb, leb, nat_eq,
}
use p_and_pp.Base.Results.{ℤ, pos, negsuc}
use p_and_pp.Base.Texts.{Text}

infixl 5 ◌>>=◌
abbrev pub ◌>>=◌ {ℓ κ} : {A : Type ℓ} {B : Type κ} → Option A → (A → Option B) → Option B
none >>= f = none
some a >>= f = f a

-- The code points that `isSpace` of fmt, `strings.Fields` and `strings.TrimSpace` take as space.
unfoldable pub is_space : ℕ → Bool
is_space c =
    (leb 0x9 c && leb c 0xd)
    || nat_eq c 0x20
    || nat_eq c 0x85
    || nat_eq c 0xa0
    || nat_eq c 0x1680
    || (leb 0x2000 c && leb c 0x200a)
    || nat_eq c 0x2028
    || nat_eq c 0x2029
    || nat_eq c 0x202f
    || nat_eq c 0x205f
    || nat_eq c 0x3000

unfoldable pub is_digit : ℕ → Bool
is_digit c = leb b'0' c && leb c b'9'

-- `SkipSpace`: a newline is an error in Sscanf.
unfoldable pub skip_space : Text → Option Text
skip_space [] = some []
skip_space (c ∷ s) =
    let rest = skip_space s in
    if nat_eq c 0xa then none else if is_space c then rest else some (c ∷ s)

-- The spaces that follow the first one that a space of the format matches.
unfoldable pub drop_spaces : Text → Text
drop_spaces [] = []
drop_spaces (c ∷ s) =
    let rest = drop_spaces s in if nat_eq c 0xa then c ∷ s else if is_space c then rest else c ∷ s

-- A space of the format: one space or more of the input, or its end.
unfoldable pub gap : Text → Option Text
unfolding drop_spaces
gap [] = some []
gap (c ∷ s) = if nat_eq c 0xa then none else if is_space c then some (drop_spaces s) else none

-- Other characters of the format stand for themselves.
unfoldable pub literal : Text → Text → Option Text
literal [] s = some s
literal (f ∷ fs) [] = none
literal (f ∷ fs) (c ∷ s) = let rest = literal fs s in if nat_eq f c then rest else none

-- The longest prefix of characters that pass, and what follows.
unfoldable pub span : (ℕ → Bool) → Text → Text × Text
span p [] = ([], [])
span p (c ∷ s) = let (w, rest) = span p s in if p c then (c ∷ w, rest) else ([], c ∷ s)

abbrev pub not_space : ℕ → Bool
not_space c = if is_space c then false else true

abbrev pub non_empty : Text × Text → Option (Text × Text)
non_empty ([], rest) = none
non_empty (c ∷ w, rest) = some (c ∷ w, rest)

-- `%s`
unfoldable pub word : Text → Option (Text × Text)
unfolding skip_space span
word s = do s' ← skip_space s; non_empty (span not_space s')

-- The number that decimal digits write.
unfoldable pub number : ℕ → Text → ℕ
number n [] = n
number n (c ∷ s) = number (n * 10 + (c - b'0')) s

abbrev pub below : ℕ → ℕ × Text → Option (ℕ × Text)
below limit (n, rest) = if ltb n limit then some (n, rest) else none

-- Digits that write a number below the limit.
unfoldable pub unsigned : ℕ → Text → Option (ℕ × Text)
unfolding span number
unsigned limit s = do (ds, rest) ← non_empty (span is_digit s); below limit (number 0 ds, rest)

-- `%d` into a uint32.
unfoldable pub natural : Text → Option (ℕ × Text)
unfolding skip_space unsigned
natural s = do s' ← skip_space s; unsigned (2 ^ 32) s'

abbrev pub minus : ℕ → ℤ
minus n = if nat_eq n 0 then pos 0 else negsuc (n - 1)

-- The digits behind a sign, or with none; an int has 64 bits.
unfoldable pub signed : Text → Option (ℤ × Text)
unfolding unsigned
signed [] = none
signed (c ∷ s) =
    if nat_eq c b'-'
    then (do (n, rest) ← unsigned (2 ^ 63 + 1) s; some (minus n, rest))
    else if nat_eq c b'+'
    then (do (n, rest) ← unsigned (2 ^ 63) s; some (pos n, rest))
    else (do (n, rest) ← unsigned (2 ^ 63) (c ∷ s); some (pos n, rest))

-- `%d` into an int.
unfoldable pub integer : Text → Option (ℤ × Text)
unfolding skip_space signed
integer s = do s' ← skip_space s; signed s'
