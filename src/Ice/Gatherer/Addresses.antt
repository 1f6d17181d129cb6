-- ===== src/Ice/Gatherer/Addresses.antt =====
-- The addresses that `getLocalIPs` returns.
use p_and_pp.Base.{
  ◌≡◌, ◌≢◌, refl, sym, subst, true, false, List, [], ◌∷◌, Option, none, some, arith, All,
  All-append, All-imp, inl, inr, ◌⊎◌,
}
use p_and_pp.Base.Results.{ok}
use p_and_pp.Ice.Gatherer.{
  Ip, to4, NetAddr, ip_of, Interface, usable, interface_ips, all_ips, localhost, or_localhost,
  get_local_ips,
}

-- An interface that is up and is no loopback.
abbrev pub IsOutward : Interface → Type 0
IsOutward i = (i.is_up ≡ true) × (i.is_loopback ≡ false)

-- The interface lists the address.
abbrev pub Lists : Ip → List NetAddr → Type 0
Lists ip [] = ⊥
Lists ip (a ∷ rest) = (ip_of a ≡ ip) ⊎ Lists ip rest

abbrev pub OnInterface : Ip → Interface → Type 0
OnInterface ip i = IsOutward i × ((addrs : List NetAddr) × (i.addrs ≡ ok addrs) × Lists ip addrs)

abbrev pub OnSome : Ip → List Interface → Type 0
OnSome ip [] = ⊥
OnSome ip (i ∷ rest) = OnInterface ip i ⊎ OnSome ip rest

-- An IPv4 address, of an outward interface or the fallback.
abbrev pub IsLocal : List Interface → Ip → Type 0
IsLocal ifaces ip = (to4 ip ≢ none) × (OnSome ip ifaces ⊎ (ip ≡ localhost))

usable-Lists : (addrs : List NetAddr) → All (λ ip. (to4 ip ≢ none) × Lists ip addrs) (usable addrs)
unfolding usable
usable-Lists [] = tt
usable-Lists (a ∷ rest) = go (to4 (ip_of a)) refl (usable-Lists rest)
  where
    go :
        (r : Option Ip)
        → to4 (ip_of a) ≡ r
        → All (λ ip. (to4 ip ≢ none) × Lists ip rest) (usable rest)
        → All (λ ip. (to4 ip ≢ none) × Lists ip (a ∷ rest)) (usable (a ∷ rest))
    go none q ih = rw (q, usable) (All-imp _ _ (usable rest) (λ x h. (h.0, inr h.1)) ih)
    go (some v) q ih =
        rw (q, usable)
          (((λ e. cc (q, e), inl refl)), All-imp _ _ (usable rest) (λ x h. (h.0, inr h.1)) ih)

-- What an interface gives, by its flags and its addresses.
interface_ips_cases :
    (i : Interface)
    → (interface_ips i ≡ [])
      ⊎ (IsOutward i
          × ((addrs : List NetAddr) × (i.addrs ≡ ok addrs) × (interface_ips i ≡ usable addrs)))
unfolding interface_ips
interface_ips_cases i = ground arith

interface_ips-On :
    (i : Interface) → All (λ ip. (to4 ip ≢ none) × OnInterface ip i) (interface_ips i)
interface_ips-On i = elim (interface_ips_cases i) [
  | inl e ↦ subst (All (λ ip. (to4 ip ≢ none) × OnInterface ip i)) (sym e) tt
  | inr (outward, (addrs, a, e)) ↦ subst (All (λ ip. (to4 ip ≢ none) × OnInterface ip i)) (sym e) (
      All-imp (λ ip. (to4 ip ≢ none) × Lists ip addrs) (λ ip. (to4 ip ≢ none) × OnInterface ip i)
        (usable addrs) (λ x h. (h.0, (outward, (addrs, a, h.1)))) (usable-Lists addrs))
]

all_ips-OnSome :
    (ifaces : List Interface) → All (λ ip. (to4 ip ≢ none) × OnSome ip ifaces) (all_ips ifaces)
unfolding all_ips
all_ips-OnSome [] = tt
all_ips-OnSome (i ∷ rest) =
    All-append (λ ip. (to4 ip ≢ none) × OnSome ip (i ∷ rest)) (interface_ips i) (all_ips rest)
      (All-imp (λ ip. (to4 ip ≢ none) × OnInterface ip i)
        (λ ip. (to4 ip ≢ none) × OnSome ip (i ∷ rest)) (interface_ips i) (λ x h. (h.0, inl h.1))
        (interface_ips-On i))
      (All-imp (λ ip. (to4 ip ≢ none) × OnSome ip rest)
        (λ ip. (to4 ip ≢ none) × OnSome ip (i ∷ rest)) (all_ips rest) (λ x h. (h.0, inr h.1))
        (all_ips-OnSome rest))

localhost_v4 : to4 localhost ≢ none
unfolding to4
localhost_v4 e = cc

or_localhost-IsLocal :
    (ifaces : List Interface) (ips : List Ip)
    → All (λ ip. (to4 ip ≢ none) × OnSome ip ifaces) ips
    → (or_localhost ips ≢ []) × All (IsLocal ifaces) (or_localhost ips)
unfolding or_localhost
or_localhost-IsLocal ifaces [] h = (λ e. cc, ((localhost_v4, inr refl), tt))
or_localhost-IsLocal ifaces (ip ∷ ips) h =
    (λ e. cc, All-imp _ (IsLocal ifaces) (ip ∷ ips) (λ x k. (k.0, inl k.1)) h)

-- `getLocalIPs` fails only if the interfaces cannot be listed. Otherwise it returns at least one
-- address, and each is an IPv4 address that an interface lists which is up and no loopback, or the
-- fallback 127.0.0.1.
pub get_local_ips-IsLocal :
    (ifaces : List Interface)
    → (ips : List Ip) × (get_local_ips (ok ifaces) ≡ ok ips) × (ips ≢ []) × All (IsLocal ifaces) ips
unfolding get_local_ips
get_local_ips-IsLocal ifaces =
    let (some_ip, all_local) =
      or_localhost-IsLocal ifaces (all_ips ifaces) (all_ips-OnSome ifaces) in
    (or_localhost (all_ips ifaces), refl, some_ip, all_local)
