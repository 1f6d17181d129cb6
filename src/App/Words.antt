-- ===== src/App/Words.antt =====
-- `strings.TrimSpace`, `strings.Fields` and `strings.Join`, as the shell of cmd/client/main.go uses them.
pub mod Fields
use Prim.Native.Char.{code}
use Prim.Native.String.{String}
use p_and_pp.Base.{ℕ, ◌==◌, Bool, true, false, ◌&&◌, List, if◌then◌else◌}
use mathlib.Core.List
use p_and_pp.Ice.Scan.{is_space}

-- `strings.TrimSpace`, from the left and from the right.
unfoldable pub trim_left : String → String
trim_left String.[] = ""
trim_left (String.◌∷◌ c s) =
    let rest = trim_left s in if is_space (code c) then rest else String.◌∷◌ c s

unfoldable pub trim_right : String → String
trim_right String.[] = ""
trim_right (String.◌∷◌ c s) =
    let rest = trim_right s in if rest == "" && is_space (code c) then "" else String.◌∷◌ c rest

unfoldable pub trim_space : String → String
unfolding trim_left trim_right
trim_space s = trim_right (trim_left s)

abbrev pub push : String → List String → List String
push String.[] ws = ws
push (String.◌∷◌ c w) ws = List.◌∷◌ (String.◌∷◌ c w) ws

-- The word that a text starts with, and the words behind it.
unfoldable pub split : String → String × List String
split String.[] = ("", List.[])
split (String.◌∷◌ c s) =
    let (w, ws) = split s in if is_space (code c) then ("", push w ws) else (String.◌∷◌ c w, ws)

-- `strings.Fields`
unfoldable pub fields : String → List String
unfolding split
fields s = let (w, ws) = split s in push w ws

-- One text behind the other.
unfoldable pub append : String → String → String
append String.[] t = t
append (String.◌∷◌ c s) t = String.◌∷◌ c (append s t)

-- `strings.Join(words, " ")`
unfoldable pub join : List String → String
unfolding append
join List.[] = ""
join (List.◌∷◌ w List.[]) = w
join (List.◌∷◌ w (List.◌∷◌ v ws)) = append w (String.◌∷◌ " " (join (List.◌∷◌ v ws)))
