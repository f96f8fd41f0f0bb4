-- ===== src/Common/Texts/Trims.antt =====
-- Trimming a text twice.
use aqua_rust.Common.{String, false, ◌≡◌, refl, ap, ◌∙◌, Bool-cases, inl, inr}
use aqua_rust.Common.Texts.{is_space, skip_while, trim, trim_end, trim_front}
use Prim.Native.Char.{Char, code}

-- The first character is no white space.
abbrev Begins : String → Type 0
Begins String.[] = Unit
Begins (String.◌∷◌ c s) = is_space (code c) ≡ false

skip_while-Begins : (s : String) → Begins (skip_while is_space s)
unfolding skip_while
skip_while-Begins String.[] = tt
skip_while-Begins (String.◌∷◌ c s) = elim (Bool-cases (is_space (code c))) [
  | inl e ↦ rw e (skip_while-Begins s)
  | inr e ↦ rw e e
]

skip_while-Begins' : (s : String) → Begins s → skip_while is_space s ≡ s
unfolding skip_while
skip_while-Begins' String.[] h = refl
skip_while-Begins' (String.◌∷◌ c s) h = rw h refl

trim_front-Begins : (c : Char) (t : String) → is_space (code c) ≡ false → Begins (trim_front c t)
trim_front-Begins c String.[] h = rw h h
trim_front-Begins c (String.◌∷◌ d t) h = h

trim_end-Begins : (s : String) → Begins s → Begins (trim_end s)
unfolding trim_end
trim_end-Begins String.[] h = tt
trim_end-Begins (String.◌∷◌ c s) h = trim_front-Begins c (trim_end s) h

trim_end-trim_front :
    (c : Char) (t : String) → trim_end t ≡ t → trim_end (trim_front c t) ≡ trim_front c t
unfolding trim_end
trim_end-trim_front c String.[] h = elim (Bool-cases (is_space (code c))) [
  | inl e ↦ rw e refl
  | inr e ↦ rw e (rw e refl)
]
trim_end-trim_front c (String.◌∷◌ d t) h = ap (trim_front c) h

trim_end_idem : (s : String) → trim_end (trim_end s) ≡ trim_end s
unfolding trim_end
trim_end_idem String.[] = refl
trim_end_idem (String.◌∷◌ c s) = trim_end-trim_front c (trim_end s) (trim_end_idem s)

pub trim_idem : (s : String) → trim (trim s) ≡ trim s
unfolding trim
trim_idem s =
    let front = skip_while is_space s in
    ap trim_end (skip_while-Begins' (trim_end front) (trim_end-Begins front (skip_while-Begins s)))
    ∙ trim_end_idem front
