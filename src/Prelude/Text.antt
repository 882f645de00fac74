-- ===== src/Prelude/Text.antt =====
-- Go's `strings.TrimSpace` on texts, character by character, with `unicode.IsSpace`.
use Prim.Native.Nat.{ℕ}
use Prim.Native.Char.{Char, code}
use Prim.Native.String.{String}
use mathlib.Core.Path.{◌≡◌, refl, sym, subst, ◌∙◌}
use mathlib.Core.Logic.{inl, inr}
use mathlib.Core.Bool.{Bool, false, ◌&&◌, ◌||◌}
use text.Mathlib.TextEquality.{eq_iff}
use text.Mathlib.TextPositions.{eq_refl}
use text.Mathlib.Text.{◌==◌ as str_eq}
use eventframed.Prelude.Tests.{leb, ◌==◌, if◌then◌else◌, Bool-cases}

-- unicode.IsSpace
pub is_space : ℕ → Bool
is_space c =
    (leb 9 c && leb c 13)
    || c == 32
    || c == 0x85
    || c == 0xa0
    || c == 0x1680
    || (leb 0x2000 c && leb c 0x200a)
    || c == 0x2028
    || c == 0x2029
    || c == 0x202f
    || c == 0x205f
    || c == 0x3000

trim_left : String → String
trim_left String.[] = String.[]
trim_left (String.◌∷◌ c s) =
    let rest = trim_left s in if is_space (code c) then rest else String.◌∷◌ c s

cons_trimmed : Char → String → String
cons_trimmed c String.[] = if is_space (code c) then String.[] else String.◌∷◌ c String.[]
cons_trimmed c (String.◌∷◌ d s) = String.◌∷◌ c (String.◌∷◌ d s)

trim_right : String → String
trim_right String.[] = String.[]
trim_right (String.◌∷◌ c s) = cons_trimmed c (trim_right s)

-- strings.TrimSpace
unfoldable pub trim_space : String → String
unfolding trim_left trim_right cons_trimmed is_space
trim_space s = trim_left (trim_right s)

-- `strings.TrimSpace(s) == ""`
unfoldable pub is_blank : String → Bool
unfolding trim_space
is_blank s = str_eq (trim_space s) ""

trim_space_test : trim_space " \t a b\n" ≡ "a b"
unfolding trim_space
trim_space_test = refl

pub trim_space-empty : trim_space "" ≡ ""
unfolding trim_space trim_left trim_right
trim_space-empty = refl

pub is_blank_lem : (s : String) → is_blank s ≡ str_eq (trim_space s) ""
unfolding is_blank
is_blank_lem s = refl

pub is_blank-filled : (s : String) → is_blank s ≡ false → str_eq s "" ≡ false
is_blank-filled s h = elim (Bool-cases (str_eq s "")) [
  | inr differs ↦ differs
  | inl same ↦
      let empty : s ≡ "" = (eq_iff s "").0 same in
      let e : str_eq (trim_space "") "" ≡ false =
        subst (λ x. str_eq (trim_space x) "" ≡ false) empty (sym (is_blank_lem s) ∙ h) in
      absurd (cc (e, trim_space-empty, eq_refl ""))
]
