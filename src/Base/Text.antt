-- ===== src/Base/Text.antt =====
-- Texts: `String` where the program only builds and compares them, the list of the code points where
-- it walks them.
use Prim.Native.Char.{Char, code}
use Prim.Native.Nat.{ℕ, ◌+◌, ◌-◌}
use Prim.Native.String
use Prim.Native.String.{String}
use mathlib.Core.Path.{◌≡◌, refl, ap₂}
use mathlib.Core.Logic.{◌↔◌}
use mathlib.Core.Bool.{Bool, true, false, ◌&&◌, ◌||◌}
use mathlib.Core.Option.{Option, none, some}
use mathlib.Core.List.{List, [], ◌∷◌, ◌++◌}
use native.Mathlib.Omega.{arith}
use syncent.Base.Lists.{All}
use syncent.Base.Tests.{◌==◌, leb, if◌then◌else◌}

-- what `+` and `Sprintf` put together
abbrev pub concat : List String → String
concat [] = ""
concat (s ∷ []) = s
concat (s ∷ t ∷ rest) = String.◌++◌ s (concat (t ∷ rest))

-- The code points of a text.
abbrev pub codes : String → List ℕ
codes String.[] = []
codes (String.◌∷◌ c s) = code c ∷ codes s

-- Unicode's White_Space, as `strings.TrimSpace` tests it
unfoldable pub is_space : ℕ → Bool
is_space c =
    leb 9 c && leb c 13
    || c == 32
    || c == 0x85
    || c == 0xa0
    || c == 0x1680
    || leb 0x2000 c && leb c 0x200a
    || c == 0x2028
    || c == 0x2029
    || c == 0x202f
    || c == 0x205f
    || c == 0x3000

trim_left : List ℕ → List ℕ
trim_left [] = []
trim_left (c ∷ s) = if is_space c then trim_left s else c ∷ s

-- a blank goes if nothing but blanks follows it
abbrev keep_unless_blank : ℕ → List ℕ → List ℕ
keep_unless_blank c [] = if is_space c then [] else c ∷ []
keep_unless_blank c (d ∷ t) = c ∷ d ∷ t

trim_right : List ℕ → List ℕ
trim_right [] = []
trim_right (c ∷ s) = keep_unless_blank c (trim_right s)

-- `strings.TrimSpace`
unfoldable pub trim_space : List ℕ → List ℕ
unfolding trim_left trim_right is_space
trim_space s = trim_right (trim_left s)

keep-solid : (c : ℕ) (s : List ℕ) → is_space c ≡ false → keep_unless_blank c s ≡ c ∷ s
keep-solid c [] h = rw (h) refl
keep-solid c (d ∷ t) h = refl

trim_right-solid : (l : List ℕ) → All (λ (c : ℕ). is_space c ≡ false) l → trim_right l ≡ l
unfolding trim_right
trim_right-solid [] h = refl
trim_right-solid (c ∷ s) (solid, h) = rw (trim_right-solid s h) (keep-solid c s solid)

-- a text without blanks stays as it is
pub trim_space-solid : (l : List ℕ) → All (λ (c : ℕ). is_space c ≡ false) l → trim_space l ≡ l
unfolding trim_space trim_left
trim_space-solid [] h = trim_right-solid [] h
trim_space-solid (c ∷ s) (solid, h) = rw (solid) (trim_right-solid (c ∷ s) (solid, h))

trim_left_text : String → String
trim_left_text String.[] = ""
trim_left_text (String.◌∷◌ c s) = if is_space (code c) then trim_left_text s else String.◌∷◌ c s

abbrev keep_char_unless_blank : Char → String → String
keep_char_unless_blank c String.[] = if is_space (code c) then "" else String.◌∷◌ c ""
keep_char_unless_blank c (String.◌∷◌ d t) = String.◌∷◌ c (String.◌∷◌ d t)

trim_right_text : String → String
trim_right_text String.[] = ""
trim_right_text (String.◌∷◌ c s) = keep_char_unless_blank c (trim_right_text s)

-- `strings.TrimSpace` of a `String`
unfoldable pub trim_text : String → String
unfolding trim_left_text trim_right_text is_space
trim_text s = trim_right_text (trim_left_text s)

-- `strings.ReplaceAll(s, "\"", "\\\"")`
unfoldable pub escape_quotes : String → String
escape_quotes String.[] = ""
escape_quotes (String.◌∷◌ c s) =
    let rest = escape_quotes s in
    if code c == b'"' then String.◌++◌ "\\\"" rest else String.◌∷◌ c rest

-- `strings.TrimPrefix`, and whether the prefix was there
unfoldable pub strip_prefix : String → String → Option String
strip_prefix s String.[] = some s
strip_prefix String.[] (String.◌∷◌ d t) = none
strip_prefix (String.◌∷◌ c s) (String.◌∷◌ d t) =
    let rest = strip_prefix s t in if code c == code d then rest else none

-- a character before the first of some lines
abbrev onto_first : Char → List String → List String
onto_first c [] = String.◌∷◌ c "" ∷ []
onto_first c (line ∷ rest) = String.◌∷◌ c line ∷ rest

-- `strings.Split(s, "\n")`
unfoldable pub split_lines : String → List String
split_lines String.[] = "" ∷ []
split_lines (String.◌∷◌ c s) =
    let rest = split_lines s in if code c == 10 then "" ∷ rest else onto_first c rest

unfoldable pub same_text : List ℕ → List ℕ → Bool
same_text [] [] = true
same_text [] (d ∷ t) = false
same_text (c ∷ s) [] = false
same_text (c ∷ s) (d ∷ t) = c == d && same_text s t

-- Simple case folding of a class of ASCII characters: the other case of a letter, and the two characters
-- outside ASCII that fold to one (the Kelvin sign to k, the long s to s).
unfoldable pub folded : (ℕ → Bool) → ℕ → Bool
folded f c =
    f c
    || leb b'A' c && leb c b'Z' && f (c + 32)
    || leb b'a' c && leb c b'z' && f (c - 32)
    || c == 0x212a && (f b'k' || f b'K')
    || c == 0x17f && (f b's' || f b'S')

-- `strings.HasPrefix`
unfoldable pub has_prefix : List ℕ → List ℕ → Bool
has_prefix s [] = true
has_prefix [] (d ∷ t) = false
has_prefix (c ∷ s) (d ∷ t) = c == d && has_prefix s t

pub same_text_iff : (s t : List ℕ) → (same_text s t ≡ true) ↔ (s ≡ t)
unfolding same_text
same_text_iff [] [] = (λ _. refl, λ _. refl)
same_text_iff [] (d ∷ t) = (λ h. cc, λ h. cc)
same_text_iff (c ∷ s) [] = (λ h. cc, λ h. cc)
same_text_iff (c ∷ s) (d ∷ t) =
    let ih = same_text_iff s t in (λ h. ground (arith, ih), λ h. ground (arith, ih))

has_prefix_sound : (s p : List ℕ) → has_prefix s p ≡ true → (t : List ℕ) × (s ≡ p ++ t)
unfolding has_prefix
has_prefix_sound s [] h = (s, refl)
has_prefix_sound [] (d ∷ p) h = absurd (cc)
has_prefix_sound (c ∷ s) (d ∷ p) h =
    let head : c ≡ d = ground (arith, h) in
    let tail : has_prefix s p ≡ true = ground (arith, h) in
    let ih = has_prefix_sound s p tail in (ih.0, ap₂ (λ x y. x ∷ y) head (ih.1))

has_prefix_append : (t p : List ℕ) → has_prefix (p ++ t) p ≡ true
unfolding has_prefix
has_prefix_append t [] = refl
has_prefix_append t (d ∷ p) = let ih = has_prefix_append t p in ground (arith, ih)

pub has_prefix_iff : (s p : List ℕ) → (has_prefix s p ≡ true) ↔ ((t : List ℕ) × (s ≡ p ++ t))
has_prefix_iff s p = (
  has_prefix_sound s p,
  λ (h : (t : List ℕ) × (s ≡ p ++ t)). rw (h.1) (has_prefix_append (h.0) p),
)
