-- ===== src/Ice/Line/Gathered.antt =====
-- The text form of the candidates that `Gather` makes.
use mathlib.Core.List.{append-nil}
use p_and_pp.Base.{
  ℕ, ◌^◌, ◌<◌, ◌≡◌, refl, sym, ap, [], ◌∷◌, ◌++◌, some, arith, length, All, All-append,
}
use p_and_pp.Base.Results.{ok}
use p_and_pp.Ice.Candidate.{Candidate, host}
use p_and_pp.Ice.Scan.{is_space}
use p_and_pp.Ice.Scan.Words.{IsWord}
use p_and_pp.Ice.Scan.Numbers.{decimal-IsWord}
use p_and_pp.Ice.Line.{line, parse_candidate}
use p_and_pp.Ice.Line.RoundTrip.{IsPlain, parse_candidate-line}
use p_and_pp.Ice.Gatherer.{
  Ip, Net, Pointer, Gatherer, new_gatherer, gather, bind_udp, host_candidate,
}
use p_and_pp.Ice.Gatherer.Loop.{added, gather_keeps}
use p_and_pp.Ice.Gatherer.Priority.{calculate_priority_exact}

pub line_read : (c : Candidate) → IsPlain c → c.base ≡ [] → parse_candidate (line c) ≡ ok c
line_read c p e =
    let whole : parse_candidate (line c ++ []) ≡ ok (record c { base = [] }) =
      parse_candidate-line c [] p tt in
    let same : record c { base = [] } ≡ c = ap (λ b. record c { base = b }) (sym e) in
    cc (whole, append-nil (line c), same)

-- What package net promises: the text of an address is a word, and a port has sixteen bits.
pub record IsRegular {W C : Type 0} (net : Net W C) : Type 0 where
  pub ip_words : (ip : Ip) → IsWord (net.ip_string ip)
  pub ports : (c : C) → net.local_port c < 2 ^ 16

abbrev pub IsRead : Pointer → Type 0
IsRead p = parse_candidate (line p.value) ≡ ok p.value

module _ {W C : Type 0} (net : Net W C) (law : IsRegular net) where
  host_candidate-IsRead : (next f : ℕ) (c : C) → IsRead (host_candidate net next f c)
  unfolding host_candidate is_space
  host_candidate-IsRead next f c =
      line_read (host_candidate net next f c).value
        (record {
          foundation = decimal-IsWord f;
          component = omega arith;
          protocol = record { starts = refl; spaceless = (refl, (refl, (refl, tt))) };
          priority = (calculate_priority_exact host (net.local_ip c)).1;
          ip = law.ip_words (net.local_ip c);
          port = omega (arith, law.ports c);
          type = record { starts = refl; spaceless = (refl, (refl, (refl, (refl, tt)))) };
        })
        refl

  -- If the texts of addresses are words and ports have sixteen bits, every candidate that `Gather` makes
  -- on a new gatherer is parsed back from its text form with all its fields.
  pub gather-IsRead :
      (w : W) (low high : ℕ) → All IsRead (gather net w (new_gatherer low high)).1.candidates
  unfolding new_gatherer
  gather-IsRead w low high = gather_keeps net P keep w (new_gatherer low high) tt
    where
      P : Gatherer C → Type 0
      P g = All IsRead g.candidates

      keep :
          (v v' : W) (ip : Ip) (g : Gatherer C) (f : ℕ) (c : C)
          → P g
          → bind_udp net v ip g.port_start g.port_end ≡ (v', some c)
          → P (added net g f c)
      keep v v' ip g f c all q =
          All-append IsRead g.candidates (host_candidate net (length g.candidates) f c ∷ []) all
            (host_candidate-IsRead (length g.candidates) f c, tt)
