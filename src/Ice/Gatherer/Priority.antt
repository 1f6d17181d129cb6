-- ===== src/Ice/Gatherer/Priority.antt =====
-- The priority of a candidate fits uint32, and orders candidates by type, then by kind of address.
use p_and_pp.Base.{
  ℕ, zero, suc, List, [], ◌∷◌, get_elem?, some, true, false, subst, refl, ap, nat_eq, if◌then◌else◌,
  inl, inr, ◌+◌, ◌*◌, ◌^◌, ◌≤◌, ◌<◌, ◌≡◌, ◌↔◌, ◌⊎◌, arith,
}
use mathlib.Core.Option.{some-injective}
use p_and_pp.Ice.Candidate.{CandidateType, host, peer_reflexive, server_reflexive, relay}
use p_and_pp.Ice.Gatherer.{Ip, is_private, type_preference, local_preference, calculate_priority}

type_preference_le : (t : CandidateType) → type_preference t ≤ 126
unfolding type_preference
type_preference_le t = ground arith

local_preference_bounds : (ip : Ip) → (100 ≤ local_preference ip) × (local_preference ip ≤ 200)
unfolding local_preference
local_preference_bounds ip = ground arith

-- The sum is below 2^32 for every type and address, so the uint32 holds it unchanged.
pub calculate_priority_exact :
    (t : CandidateType) (ip : Ip)
    → (calculate_priority t ip ≡ 2 ^ 24 * type_preference t + 2 ^ 8 * local_preference ip + 255)
      × (calculate_priority t ip < 2 ^ 32)
unfolding calculate_priority
calculate_priority_exact t ip =
    omega
      (arith, type_preference_le t, (local_preference_bounds ip).0, (local_preference_bounds ip).1)

-- One candidate has a lower priority than another exactly if its type is less preferred, or the types
-- are equally preferred and its address is private while the other one's is not.
pub calculate_priority_order :
    (t u : CandidateType) (ip jp : Ip)
    → (calculate_priority t ip < calculate_priority u jp) ↔ (
        (type_preference t < type_preference u)
        ⊎ ((type_preference t ≡ type_preference u) × (local_preference ip < local_preference jp)))
calculate_priority_order t u ip jp =
    let a = (calculate_priority_exact t ip).0 in
    let b = (calculate_priority_exact u jp).0 in
    let c = local_preference_bounds ip in
    let d = local_preference_bounds jp in (λ h. omega arith, λ h. omega arith)

-- The types of candidates, the most preferred one first.
abbrev pub ranking : List CandidateType
ranking = host ∷ peer_reflexive ∷ server_reflexive ∷ relay ∷ []

preference : ℕ → ℕ
preference k = if nat_eq k 0 then 126 else if nat_eq k 1 then 110 else if nat_eq k 2 then 100 else 0

preference_order : (k l : ℕ) → k < 4 → l < 4 → (preference k < preference l) ↔ (l < k)
unfolding preference
preference_order k l a b = (λ h. ground arith, λ h. ground arith)

preference_same : (k l : ℕ) → k < 4 → l < 4 → preference k ≡ preference l → k ≡ l
unfolding preference
preference_same k l a b h = ground arith

ranked :
    (k : ℕ) (t : CandidateType)
    → get_elem? ranking k ≡ some t
    → (k < 4) × (type_preference t ≡ preference k)
unfolding preference type_preference p_and_pp.Base.Texts.text_eq
ranked zero t e = (omega arith, subst (λ u. type_preference u ≡ 126) (some-injective _ _ e) refl)
ranked (suc zero) t e =
    (omega arith, subst (λ u. type_preference u ≡ 110) (some-injective _ _ e) refl)
ranked (suc (suc zero)) t e =
    (omega arith, subst (λ u. type_preference u ≡ 100) (some-injective _ _ e) refl)
ranked (suc (suc (suc zero))) t e =
    (omega arith, subst (λ u. type_preference u ≡ 0) (some-injective _ _ e) refl)
ranked (suc (suc (suc (suc k)))) t e = cc e

local_order :
    (ip jp : Ip)
    → (local_preference ip < local_preference jp)
      ↔ ((is_private ip ≡ true) × (is_private jp ≡ false))
unfolding local_preference
local_order ip jp = (λ h. ground arith, λ h. ground (arith, h.0, h.1))

-- Take two candidates with types of the ranking. The first one has the lower priority exactly if its type
-- stands further back in the ranking, or the types are the same and its address is private while the
-- other one's is not.
pub calculate_priority_ranks :
    (k l : ℕ) (t u : CandidateType) (ip jp : Ip)
    → get_elem? ranking k ≡ some t
    → get_elem? ranking l ≡ some u
    → (calculate_priority t ip < calculate_priority u jp)
      ↔ ((l < k) ⊎ ((k ≡ l) × (is_private ip ≡ true) × (is_private jp ≡ false)))
calculate_priority_ranks k l t u ip jp e f =
    let (a, p) = ranked k t e in
    let (b, q) = ranked l u f in
    let (to, back) = calculate_priority_order t u ip jp in
    let types = preference_order k l a b in
    let addresses = local_order ip jp in
    (
      (λ h. elim (to h) [
        | inl less ↦ inl (types.0 (omega (arith, p, q, less)))
        | inr (same, less) ↦
            let (mine, other) = addresses.0 less in
            inr (preference_same k l a b (omega (arith, p, q, same)), mine, other)
      ]),
      (λ h. back (elim h [
        | inl less ↦ inl (let c = types.1 less in omega (arith, p, q, c))
        | inr (same, mine, other) ↦
            inr (omega (arith, p, q, ap preference same), addresses.1 (mine, other))
      ])),
    )
