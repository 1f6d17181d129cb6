-- ===== src/Ice/Scan/Numbers.antt =====
-- `%d` reads back the numbers that `%d` printed.
use p_and_pp.Base.{
  ℕ, zero, suc, ◌+◌, ◌-◌, ◌*◌, ◌/◌, ◌%◌, ◌^◌, ◌<◌, ◌≡◌, refl, ◌∙◌, true, false, [], ◌∷◌, ◌++◌, some,
  arith, nat_eq, ltb, lt→ltb, if◌then◌else◌, All, All-append, subst, Bool-cases, inl, inr,
}
use p_and_pp.Base.Results.{ℤ, pos, negsuc}
use p_and_pp.Base.Texts.{Text, digits, decimal}
use p_and_pp.Ice.Connection.{int_text}
use p_and_pp.Ice.Scan.{is_space, is_digit, non_empty, number, unsigned, natural, signed, integer}
use p_and_pp.Ice.Scan.Words.{Stops, Starts, IsWord, span-All, skip_space-Starts}

abbrev IsDecimal : Text → Type 0
IsDecimal = All (λ c. is_digit c ≡ true)

digits_lem :
    (f n : ℕ)
    → digits (suc f) n
      ≡ (if ltb n 10 then (b'0' + n) ∷ [] else digits f (n / 10) ++ (b'0' + n % 10) ∷ [])
unfolding digits
digits_lem f n = ground arith

digits_small : (f n : ℕ) → ltb n 10 ≡ true → digits (suc f) n ≡ (b'0' + n) ∷ []
digits_small f n e = digits_lem f n ∙ rw e

digits_large :
    (f n : ℕ) → ltb n 10 ≡ false → digits (suc f) n ≡ digits f (n / 10) ++ (b'0' + n % 10) ∷ []
digits_large f n e = digits_lem f n ∙ rw e

digit : (d : ℕ) → d < 10 → is_digit (b'0' + d) ≡ true
unfolding is_digit
digit d h = ground arith

digits-IsDecimal : (f n : ℕ) → IsDecimal (digits f n)
unfolding digits
digits-IsDecimal zero n = tt
digits-IsDecimal (suc f) n = elim (Bool-cases (ltb n 10)) [
  | inl e ↦ rw (digits_small f n e) (digit n (ground arith), tt)
  | inr e ↦ rw (digits_large f n e) (
      All-append (λ c. is_digit c ≡ true) _ _ (digits-IsDecimal f (n / 10))
        (digit (n % 10) (omega arith), tt))
]

-- A digit is no space.
digit_space : (c : ℕ) → is_digit c ≡ true → is_space c ≡ false
unfolding is_digit is_space
digit_space c h = ground arith

Starts-append : (s t : Text) → Starts s → Starts (s ++ t)
Starts-append [] t h = absurd h
Starts-append (c ∷ s) t h = h

-- The last digit alone, and with others before it.
digits_one-Starts :
    (f n : ℕ) → Starts (digits f (n / 10) ++ (b'0' + n % 10) ∷ []) → Starts (digits (suc f) n)
digits_one-Starts f n large = elim (Bool-cases (ltb n 10)) [
  | inl e ↦ rw (digits_small f n e) (digit_space (b'0' + n) (digit n (ground arith)))
  | inr e ↦ rw (digits_large f n e) large
]

digits-Starts : (f n : ℕ) → Starts (digits (suc f) n)
unfolding digits
digits-Starts zero n =
    digits_one-Starts zero n (digit_space (b'0' + n % 10) (digit (n % 10) (omega arith)))
digits-Starts (suc f) n =
    digits_one-Starts (suc f) n
      (Starts-append (digits (suc f) (n / 10)) _ (digits-Starts f (n / 10)))

number-append : (n : ℕ) (s t : Text) → number n (s ++ t) ≡ number (number n s) t
unfolding number
number-append n [] t = refl
number-append n (c ∷ s) t = number-append (n * 10 + (c - b'0')) s t

number-digits : (f n : ℕ) → n < f → number 0 (digits f n) ≡ n
unfolding number
number-digits zero n h = absurd (omega arith)
number-digits (suc f) n h = elim (Bool-cases (ltb n 10)) [
  | inl e ↦ rw (digits_small f n e) (omega arith)
  | inr e ↦
      rw
        (
          digits_large f n e,
          number-append 0 (digits f (n / 10)) ((b'0' + n % 10) ∷ []),
          number-digits f (n / 10) (ground arith),
        )
        (omega arith)
]

pub decimal-Starts : (n : ℕ) → Starts (decimal n)
unfolding decimal
decimal-Starts n = digits-Starts n n

pub int_text-Starts : (z : ℤ) → Starts (int_text z)
unfolding int_text is_space
int_text-Starts (pos n) = decimal-Starts n
int_text-Starts (negsuc n) = refl

decimal-IsDecimal : (n : ℕ) → IsDecimal (decimal n)
unfolding decimal
decimal-IsDecimal n = digits-IsDecimal (suc n) n

digits_spaceless : (t : Text) → IsDecimal t → All (λ c. is_space c ≡ false) t
digits_spaceless [] h = tt
digits_spaceless (c ∷ t) h = (digit_space c h.0, digits_spaceless t h.1)

pub decimal-IsWord : (n : ℕ) → IsWord (decimal n)
decimal-IsWord n = record {
  starts = decimal-Starts n;
  spaceless = digits_spaceless (decimal n) (decimal-IsDecimal n);
}

number-decimal : (n : ℕ) → number 0 (decimal n) ≡ n
unfolding decimal
number-decimal n = number-digits (suc n) n (omega arith)

-- The decimal of a number below the limit is read back, up to a character that is no digit.
unsigned-decimal :
    (limit n : ℕ) (rest : Text)
    → n < limit
    → Stops is_digit rest
    → unsigned limit (decimal n ++ rest) ≡ some (n, rest)
unfolding unsigned
unsigned-decimal limit n rest h s =
    rw (span-All is_digit (decimal n) rest (decimal-IsDecimal n) s)
      (rw (kept (decimal n) (decimal-Starts n)) (rw (number-decimal n, lt→ltb n limit h)))
  where
    kept : (t : Text) → Starts t → non_empty (t, rest) ≡ some (t, rest)
    kept [] q = absurd q
    kept (c ∷ t) q = refl

-- An int of 64 bits.
abbrev pub IsInt : ℤ → Type 0
IsInt (pos n) = n < 2 ^ 63
IsInt (negsuc n) = n < 2 ^ 63

signed-decimal :
    (n : ℕ) (rest : Text)
    → n < 2 ^ 63
    → Stops is_digit rest
    → signed (decimal n ++ rest) ≡ some (pos n, rest)
unfolding signed
signed-decimal n rest h s = by_head (decimal n) (decimal-IsDecimal n) (decimal-Starts n) refl
  where
    no_sign : (c : ℕ) → is_digit c ≡ true → (nat_eq c b'-' ≡ false) × (nat_eq c b'+' ≡ false)
    no_sign c d = unfold is_digit in ground arith

    by_head :
        (t : Text)
        → IsDecimal t
        → Starts t
        → decimal n ≡ t
        → signed (decimal n ++ rest) ≡ some (pos n, rest)
    by_head [] d q e = absurd q
    by_head (c ∷ t) d q e =
        let read : unsigned (2 ^ 63) ((c ∷ t) ++ rest) ≡ some (n, rest) =
          subst (λ x. unsigned (2 ^ 63) (x ++ rest) ≡ some (n, rest)) e
            (unsigned-decimal (2 ^ 63) n rest h s) in
        rw e (rw ((no_sign c d.0).0, (no_sign c d.0).1) (rw read))

-- A printed int is read back, up to a character that is no digit.
pub integer-int_text :
    (z : ℤ) (rest : Text)
    → IsInt z
    → Stops is_digit rest
    → integer (int_text z ++ rest) ≡ some (z, rest)
unfolding integer
integer-int_text z rest h s =
    rw (skip_space-Starts (int_text z) rest (int_text-Starts z), integer) (by_sign z h)
  where
    by_sign : (z : ℤ) → IsInt z → signed (int_text z ++ rest) ≡ some (z, rest)
    by_sign (pos n) h = unfold int_text in signed-decimal n rest h s
    by_sign (negsuc n) h =
        unfold int_text signed in
        rw (unsigned-decimal (2 ^ 63 + 1) (n + 1) rest (omega arith) s) (ground arith)

pub natural-decimal :
    (n : ℕ) (rest : Text)
    → n < 2 ^ 32
    → Stops is_digit rest
    → natural (decimal n ++ rest) ≡ some (n, rest)
unfolding natural
natural-decimal n rest h s =
    rw (skip_space-Starts (decimal n) rest (decimal-Starts n))
      (unsigned-decimal (2 ^ 32) n rest h s)
