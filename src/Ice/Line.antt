-- ===== src/Ice/Line.antt =====
-- pkg/p2p/ice/gatherer.go: `String` and `ParseCandidate`.
pub mod RoundTrip
pub mod Gathered
use p_and_pp.Base.{[], ◌∷◌, ◌++◌, Option, none, some}
use p_and_pp.Base.Results.{Result, ok, err}
use p_and_pp.Base.Texts.{Text, codes, decimal}
use p_and_pp.Ice.Candidate.{Candidate}
use p_and_pp.Ice.Connection.{int_text}
use p_and_pp.Ice.Scan.{◌>>=◌, gap, literal, word, natural, integer}

-- `String`
unfoldable pub line : Candidate → Text
unfolding int_text
line c =
    codes "candidate:"
    ++ (c.foundation
        ++ b' '
          ∷ (int_text c.component
              ++ b' '
                ∷ (c.protocol
                    ++ b' '
                      ∷ (decimal c.priority
                          ++ b' '
                            ∷ (c.ip ++ b' ' ∷ (int_text c.port ++ (codes " typ " ++ c.type)))))))

-- The calls of `Sscanf`, in the order of its format.
unfoldable pub scan_candidate : Text → Option Candidate
scan_candidate s = do
  s ← literal (codes "candidate:") s
  (foundation, s) ← word s
  s ← gap s
  (component, s) ← integer s
  s ← gap s
  (protocol, s) ← word s
  s ← gap s
  (priority, s) ← natural s
  s ← gap s
  (ip, s) ← word s
  s ← gap s
  (port, s) ← integer s
  s ← gap s
  s ← literal (codes "typ") s
  s ← gap s
  (type, s) ← word s
  some (record {
    type = type;
    foundation = foundation;
    component = component;
    protocol = protocol;
    priority = priority;
    ip = ip;
    port = port;
    base = [];
  })

-- `ParseCandidate`
unfoldable pub parse_candidate : Text → Result Candidate
unfolding scan_candidate
parse_candidate s = elim (scan_candidate s) [ some c ↦ ok c | none ↦ err "parse candidate" ]
