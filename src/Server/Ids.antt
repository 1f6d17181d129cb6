-- ===== src/Server/Ids.antt =====
-- The ids of peers, as `generatePeerID` writes them.
use p_and_pp.Base.{ℕ, ◌*◌, ◌/◌, ◌%◌, ◌<◌, ◌≡◌, ◌↔◌, refl, ap, List, [], ◌∷◌, arith, length, All}
use p_and_pp.Server.{hex_digit, hex, generate_peer_id}

hex_digit_inj : (m n : ℕ) → m < 16 → n < 16 → hex_digit m ≡ hex_digit n → m ≡ n
unfolding hex_digit
hex_digit_inj m n p q e = ground arith

byte_inj : (m n : ℕ) → m / 16 ≡ n / 16 → m % 16 ≡ n % 16 → m ≡ n
byte_inj m n p q = omega arith

abbrev pub IsByte : ℕ → Type 0
IsByte b = b < 256

hex_inj : (bs cs : List ℕ) → All IsByte bs → All IsByte cs → hex bs ≡ hex cs → bs ≡ cs
unfolding hex
hex_inj [] [] p q e = refl
hex_inj [] (c ∷ cs) p q e = absurd (cc e)
hex_inj (b ∷ bs) [] p q e = absurd (cc e)
hex_inj (b ∷ bs) (c ∷ cs) (p, ps) (q, qs) e =
    let high : hex_digit (b / 16) ≡ hex_digit (c / 16) = cc e in
    let low : hex_digit (b % 16) ≡ hex_digit (c % 16) = cc e in
    let rest : hex bs ≡ hex cs = cc e in
    let same : b ≡ c =
      byte_inj b c (hex_digit_inj (b / 16) (c / 16) (omega arith) (omega arith) high)
        (hex_digit_inj (b % 16) (c % 16) (omega arith) (omega arith) low) in
    cc (same, hex_inj bs cs ps qs rest)

length-hex : (bs : List ℕ) → length (hex bs) ≡ 2 * length bs
unfolding hex
length-hex [] = refl
length-hex (b ∷ bs) = ground (arith, length-hex bs)

-- The id has two letters for each random byte, and different bytes give different ids.
pub generate_peer_id_lem :
    (bs cs : List ℕ)
    → All IsByte bs
    → All IsByte cs
    → (length (generate_peer_id bs) ≡ 2 * length bs)
      × ((generate_peer_id bs ≡ generate_peer_id cs) ↔ (bs ≡ cs))
unfolding generate_peer_id
generate_peer_id_lem bs cs p q = (length-hex bs, (hex_inj bs cs p q, λ e. ap hex e))
