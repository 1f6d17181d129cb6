-- ===== src/Tests/Lines.antt =====
-- A candidate as a line, with an attribute behind it, and those of the sample machine.
use p_and_pp.Base.{ℕ, ◌≡◌, refl, ◌++◌, ◌%◌, arith, All}
use p_and_pp.Base.Results.{ok, pos, negsuc}
use p_and_pp.Base.Texts.{codes}
use p_and_pp.Ice.Candidate.{Candidate, host}
use p_and_pp.Ice.Scan.{is_space}
use p_and_pp.Ice.Gatherer.{Net, new_gatherer, gather}
use p_and_pp.Ice.Line.{line, parse_candidate}
use p_and_pp.Ice.Line.RoundTrip.{IsPlain, parse_candidate-line}
use p_and_pp.Ice.Line.Gathered.{IsRegular, IsRead, gather-IsRead}
use p_and_pp.Tests.Gathering.{net, Socket}

abbrev sample : Candidate
sample = record {
  type = host;
  foundation = codes "1";
  component = negsuc 0;
  protocol = codes "udp";
  priority = 7;
  ip = codes "10.0.0.5";
  port = pos 10000;
  base = codes "b";
}

sample-line : line sample ≡ codes "candidate:1 -1 udp 7 10.0.0.5 10000 typ host"
unfolding line p_and_pp.Ice.Connection.int_text p_and_pp.Base.Texts.decimal
sample-line = refl

sample-IsPlain : IsPlain sample
unfolding is_space
sample-IsPlain = record {
  foundation = record { starts = refl; spaceless = (refl, tt) };
  component = omega arith;
  protocol = record { starts = refl; spaceless = (refl, (refl, (refl, tt))) };
  priority = omega arith;
  ip = record {
    starts = refl;
    spaceless = (refl, (refl, (refl, (refl, (refl, (refl, (refl, (refl, tt))))))));
  };
  port = omega arith;
  type = record { starts = refl; spaceless = (refl, (refl, (refl, (refl, tt)))) };
}

parse_candidate-line_example :
    parse_candidate (line sample ++ codes " generation 0") ≡ ok (record sample { base = codes "" })
unfolding is_space
parse_candidate-line_example =
    parse_candidate-line sample (codes " generation 0") sample-IsPlain refl

-- The sample machine, with printed addresses and ports of sixteen bits.
abbrev printing : Net ℕ Socket
printing = record net { ip_string = λ ip. codes "10.0.0.5"; local_port = λ s. s.port % 65536 }

printing-IsRegular : IsRegular printing
printing-IsRegular = record { ip_words = λ ip. sample-IsPlain.ip; ports = λ c. omega arith }

gather-IsRead_example : All IsRead (gather printing 10000 (new_gatherer 10000 10100)).1.candidates
gather-IsRead_example = gather-IsRead printing printing-IsRegular 10000 10000 10100
