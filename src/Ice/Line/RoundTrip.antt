-- ===== src/Ice/Line/RoundTrip.antt =====
-- `ParseCandidate` reads what `String` printed.
use mathlib.Core.List.{append_assoc}
use p_and_pp.Base.{◌^◌, ◌<◌, ◌≡◌, refl, [], ◌∷◌, ◌++◌, some}
use p_and_pp.Base.Results.{ok}
use p_and_pp.Base.Texts.{Text, codes, decimal}
use p_and_pp.Ice.Candidate.{Candidate}
use p_and_pp.Ice.Connection.{int_text}
use p_and_pp.Ice.Scan.{not_space, is_space, is_digit}
use p_and_pp.Ice.Scan.Words.{Stops, IsWord, word-IsWord, gap-Starts, literal_self}
use p_and_pp.Ice.Scan.Numbers.{
  IsInt, integer-int_text, natural-decimal, decimal-Starts, int_text-Starts,
}
use p_and_pp.Ice.Line.{line, scan_candidate, parse_candidate}

-- A candidate whose texts are words and whose numbers fit their types.
pub record IsPlain (c : Candidate) : Type 0 where
  pub foundation : IsWord c.foundation
  pub component : IsInt c.component
  pub protocol : IsWord c.protocol
  pub priority : c.priority < 2 ^ 32
  pub ip : IsWord c.ip
  pub port : IsInt c.port
  pub type : IsWord c.type

module _ (c : Candidate) (rest : Text) where
  -- What is left of the line behind each field.
  abbrev behind_port : Text
  behind_port = b' ' ∷ (codes "typ" ++ (b' ' ∷ (c.type ++ rest)))

  abbrev behind_ip : Text
  behind_ip = b' ' ∷ (int_text c.port ++ behind_port)

  abbrev behind_priority : Text
  behind_priority = b' ' ∷ (c.ip ++ behind_ip)

  abbrev behind_protocol : Text
  behind_protocol = b' ' ∷ (decimal c.priority ++ behind_priority)

  abbrev behind_component : Text
  behind_component = b' ' ∷ (c.protocol ++ behind_protocol)

  abbrev behind_foundation : Text
  behind_foundation = b' ' ∷ (int_text c.component ++ behind_component)

  line-append : line c ++ rest ≡ codes "candidate:" ++ (c.foundation ++ behind_foundation)
  unfolding line
  line-append = simp (append_assoc)

  scan_candidate-line :
      IsPlain c
      → Stops not_space rest
      → scan_candidate (codes "candidate:" ++ (c.foundation ++ behind_foundation))
        ≡ some (record c { base = [] })
  unfolding scan_candidate is_space is_digit
  scan_candidate-line p s =
      rw (literal_self (codes "candidate:") (c.foundation ++ behind_foundation)) (
        rw (word-IsWord c.foundation behind_foundation p.foundation refl) (
          rw (gap-Starts (int_text c.component) behind_component (int_text-Starts c.component)) (
            rw (integer-int_text c.component behind_component p.component refl) (
              rw (gap-Starts c.protocol behind_protocol p.protocol.starts) (
                rw (word-IsWord c.protocol behind_protocol p.protocol refl) (
                  rw (gap-Starts (decimal c.priority) behind_priority (decimal-Starts c.priority)) (
                    rw (natural-decimal c.priority behind_priority p.priority refl) (
                      rw (gap-Starts c.ip behind_ip p.ip.starts) (
                        rw (word-IsWord c.ip behind_ip p.ip refl) (
                          rw (gap-Starts (int_text c.port) behind_port (int_text-Starts c.port)) (
                            rw (integer-int_text c.port behind_port p.port refl) (
                              rw (gap-Starts (codes "typ") (b' ' ∷ (c.type ++ rest)) refl) (
                                rw (literal_self (codes "typ") (b' ' ∷ (c.type ++ rest))) (
                                  rw (gap-Starts c.type rest p.type.starts)
                                    (rw (word-IsWord c.type rest p.type s))))))))))))))))

-- A printed candidate is parsed back, also with more text behind it that starts with a space, which
-- is ignored. If its texts are words and its numbers fit their types, all fields come back but the
-- base, which the line does not hold.
pub parse_candidate-line :
    (c : Candidate) (rest : Text)
    → IsPlain c
    → Stops not_space rest
    → parse_candidate (line c ++ rest) ≡ ok (record c { base = [] })
unfolding parse_candidate
parse_candidate-line c rest p s =
    rw (line-append c rest) (rw (parse_candidate, scan_candidate-line c rest p s))
