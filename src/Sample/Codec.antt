-- ===== src/Sample/Codec.antt =====
-- An encoding of byte lists as texts, and the bytes of a text: one number for each character.
use Prim.Native.Char.{Char, char, code, IsLt, nul}
use Prim.Native.Nat.{Ordering, compare}
use text.Mathlib.TextEquality.{Char-path}
use syncent.Base.{
  ℕ, zero, suc, ◌+◌, String, Option, some, List, [], ◌∷◌, ◌≡◌, refl, ap, ap₂, ◌∙◌, arith, ◌==◌,
  if◌then◌else◌,
}

-- n strokes and a stop for each number
strokes : ℕ → String → String
strokes zero s = String.◌∷◌ "." s
strokes (suc n) s = String.◌∷◌ "|" (strokes n s)

unfoldable pub encode : List ℕ → String
unfolding strokes
encode [] = String.[]
encode (n ∷ ns) = strokes n (encode ns)

read_from : ℕ → String → List ℕ
read_from n String.[] = []
read_from n (String.◌∷◌ c s) =
    let stop = n ∷ read_from 0 s in
    let more = read_from (suc n) s in if code c == b'.' then stop else more

unfoldable pub decode : String → Option (List ℕ)
unfolding read_from
decode s = some (read_from 0 s)

read_from-strokes : (m n : ℕ) (s : String) → read_from m (strokes n s) ≡ (n + m) ∷ read_from 0 s
unfolding read_from strokes
read_from-strokes m zero s = ap (λ (k : ℕ). k ∷ read_from 0 s) (omega arith)
read_from-strokes m (suc n) s =
    read_from-strokes (suc m) n s ∙ ap (λ (k : ℕ). k ∷ read_from 0 s) (omega arith)

read_from-encode : (b : List ℕ) → read_from 0 (encode b) ≡ b
unfolding encode read_from
read_from-encode [] = refl
read_from-encode (n ∷ ns) =
    read_from-strokes 0 n (encode ns)
    ∙ ap₂ (λ (k : ℕ) (l : List ℕ). k ∷ l) (omega arith) (read_from-encode ns)

pub decode-encode : (b : List ℕ) → decode (encode b) ≡ some b
unfolding decode
decode-encode b = ap some (read_from-encode b)

abbrev IsPair : Ordering → Ordering → Type 0
IsPair Ordering.lt o = IsLt o
IsPair Ordering.eq _ = ⊥
IsPair Ordering.gt _ = ⊥

-- `IsScalar` of the three comparisons that it makes
abbrev IsCode : Ordering → Ordering → Ordering → Type 0
IsCode Ordering.lt _ _ = Unit
IsCode Ordering.eq o p = IsPair o p
IsCode Ordering.gt o p = IsPair o p

dec_lt : (o : Ordering) → Dec (IsLt o)
dec_lt Ordering.lt = yes tt
dec_lt Ordering.eq = no (λ h. h)
dec_lt Ordering.gt = no (λ h. h)

dec_pair : (o p : Ordering) → Dec (IsPair o p)
unfolding dec_lt
dec_pair Ordering.lt p = dec_lt p
dec_pair Ordering.eq _ = no (λ h. h)
dec_pair Ordering.gt _ = no (λ h. h)

dec_code : (o p q : Ordering) → Dec (IsCode o p q)
unfolding dec_pair
dec_code Ordering.lt _ _ = yes tt
dec_code Ordering.eq p q = dec_pair p q
dec_code Ordering.gt p q = dec_pair p q

char_of : ℕ → Char
unfolding dec_code
char_of n = elim (dec_code (compare n 55296) (compare 57343 n) (compare n 1114112)) [
  | yes h ↦ char n h
  | no _ ↦ nul
]

char_of-code : (c : Char) → char_of (code c) ≡ c
unfolding char_of
char_of-code (char n h) = pick (dec_code (compare n 55296) (compare 57343 n) (compare n 1114112))
  where
    pick :
        (d : Dec (IsCode (compare n 55296) (compare 57343 n) (compare n 1114112)))
        → (elim d [ yes q ↦ char n q | no _ ↦ nul ]) ≡ char n h
    pick (yes q) = Char-path (char n q) (char n h) refl
    pick (no f) = absurd (f h)

unfoldable pub to_bytes : String → List ℕ
to_bytes String.[] = []
to_bytes (String.◌∷◌ c s) = code c ∷ to_bytes s

unfoldable pub of_bytes : List ℕ → String
unfolding char_of
of_bytes [] = String.[]
of_bytes (n ∷ ns) = String.◌∷◌ (char_of n) (of_bytes ns)

pub of_bytes-to_bytes : (s : String) → of_bytes (to_bytes s) ≡ s
unfolding of_bytes to_bytes
of_bytes-to_bytes String.[] = refl
of_bytes-to_bytes (String.◌∷◌ c s) = ap₂ String.◌∷◌ (char_of-code c) (of_bytes-to_bytes s)
