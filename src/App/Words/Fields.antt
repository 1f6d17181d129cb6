-- ===== src/App/Words/Fields.antt =====
-- The words of a line, as `strings.Fields` takes them and `strings.Join` puts them together again.
use Prim.Native.Char.{Char, code}
use Prim.Native.String.{String}
use mathlib.Core.List.{List}
use p_and_pp.Base.{
  ◌≡◌, refl, sym, ap, ◌∙◌, ◌==◌, eq_iff, Bool, true, false, ◌&&◌, arith, Bool-cases, inl, inr, All,
}
use p_and_pp.Ice.Scan.{is_space}
use p_and_pp.App.Words.{trim_left, trim_right, trim_space, push, split, fields, append, join}

-- A text with no space, and one that is also not empty.
abbrev Spaceless : String → Type 0
Spaceless String.[] = Unit
Spaceless (String.◌∷◌ c s) = (is_space (code c) ≡ false) × Spaceless s

abbrev pub IsName : String → Type 0
IsName String.[] = ⊥
IsName (String.◌∷◌ c s) = Spaceless (String.◌∷◌ c s)

IsName-Spaceless : (w : String) → IsName w → Spaceless w
IsName-Spaceless String.[] h = absurd h
IsName-Spaceless (String.◌∷◌ c s) h = h

push-IsName : (w : String) (ws : List String) → IsName w → push w ws ≡ List.◌∷◌ w ws
push-IsName String.[] ws h = absurd h
push-IsName (String.◌∷◌ c s) ws h = refl

split-append :
    (w rest : String)
    → Spaceless w
    → split (append w rest) ≡ (append w (split rest).0, (split rest).1)
unfolding split append
split-append String.[] rest h = refl
split-append (String.◌∷◌ c w) rest h = rw (split-append w rest h.1) (rw h.0)

append_empty : (w : String) → append w "" ≡ w
unfolding append
append_empty String.[] = refl
append_empty (String.◌∷◌ c w) = ap (String.◌∷◌ c) (append_empty w)

split-space : (rest : String) → split (String.◌∷◌ " " rest) ≡ ("", fields rest)
unfolding split fields is_space append
split-space rest = refl

fields-eq-split :
    (s w : String) (ws : List String) → IsName w → split s ≡ (w, ws) → fields s ≡ List.◌∷◌ w ws
unfolding fields
fields-eq-split s w ws h e = rw e (push-IsName w ws h)

split-join :
    (w : String) (ws : List String)
    → IsName w
    → All IsName ws
    → split (join (List.◌∷◌ w ws)) ≡ (w, ws)
unfolding join
split-join w List.[] h hs =
    let whole : split (append w "") ≡ (append w "", List.[]) =
      split-append w "" (IsName-Spaceless w h) ∙ (unfold split in refl) in
    cc (whole, append_empty w)
split-join w (List.◌∷◌ v ws) h hs =
    let rest : fields (join (List.◌∷◌ v ws)) ≡ List.◌∷◌ v ws =
      fields-eq-split (join (List.◌∷◌ v ws)) v ws hs.0 (split-join v ws hs.0 hs.1) in
    split-append w (String.◌∷◌ " " (join (List.◌∷◌ v ws))) (IsName-Spaceless w h)
    ∙ rw (split-space (join (List.◌∷◌ v ws)), rest, append_empty w) refl

-- Words that are joined by single spaces are the words of the text.
pub fields-join : (ws : List String) → All IsName ws → fields (join ws) ≡ ws
unfolding fields join split
fields-join List.[] h = refl
fields-join (List.◌∷◌ w ws) h =
    fields-eq-split (join (List.◌∷◌ w ws)) w ws h.0 (split-join w ws h.0 h.1)

fields-trim_left : (s : String) → fields (trim_left s) ≡ fields s
unfolding fields trim_left split
fields-trim_left String.[] = refl
fields-trim_left (String.◌∷◌ c s) = elim (Bool-cases (is_space (code c))) [
  | inl e ↦ rw e (fields-trim_left s)
  | inr e ↦ rw e (rw e)
]

both : (a b : Bool) → (a && b) ≡ true → (a ≡ true) × (b ≡ true)
both a b h = ground arith

-- A space with nothing but spaces behind it.
split-blank :
    (c : Char) (s : String)
    → (trim_right s == "" && is_space (code c)) ≡ true
    → split (trim_right s) ≡ split s
    → split "" ≡ split (String.◌∷◌ c s)
unfolding split
split-blank c s e same =
    let (empty, space) = both (trim_right s == "") (is_space (code c)) e in
    let none_left : split s ≡ ("", List.[]) =
      sym same ∙ ap split ((eq_iff (trim_right s) "").0 empty) in
    rw space (rw none_left)

split-trim_right : (s : String) → split (trim_right s) ≡ split s
unfolding trim_right split
split-trim_right String.[] = refl
split-trim_right (String.◌∷◌ c s) = elim (Bool-cases (trim_right s == "" && is_space (code c))) [
  | inl e ↦ rw e (split-blank c s e (split-trim_right s))
  | inr e ↦ rw e (rw (split-trim_right s))
]

pub fields-trim_space : (s : String) → fields (trim_space s) ≡ fields s
unfolding trim_space fields
fields-trim_space s = rw (split-trim_right (trim_left s)) (fields-trim_left s)
