-- ===== src/Regex.antt =====
-- The part of Go's package regexp that the program uses: matching of Perl-like expressions, with the
-- priorities of its leftmost-first search. A text is the list of its code points.
pub mod Matches
pub mod Ends
mod Tests
use syncent.Base.{
  ℕ, zero, suc, Bool, true, false, not, ◌&&◌, ◌||◌, Option, none, some, List, [], ◌∷◌, ◌++◌, length,
  ltb, leb, ◌==◌, if◌then◌else◌,
}

pub data Regex : Type 0 where
  eps : Regex
  -- a character class
  chr : (ℕ → Bool) → Regex
  seq alt : Regex → Regex → Regex
  star : Regex → Regex
  -- \b, ^ and $ (with no flag m)
  word start finish : Regex

-- A place in a text: the character before it, and the rest.
pub data Pos : Type 0 where
  at : Option ℕ → List ℕ → Pos

abbrev pub rest : Pos → List ℕ
rest (at b s) = s

-- [0-9A-Za-z_]
unfoldable pub is_word : ℕ → Bool
is_word c =
    leb b'0' c && leb c b'9' || leb b'A' c && leb c b'Z' || leb b'a' c && leb c b'z' || c == b'_'

abbrev word_side : Option ℕ → Bool
word_side none = false
word_side (some c) = is_word c

abbrev pub first_of : List ℕ → Option ℕ
first_of [] = none
first_of (c ∷ s) = some c

abbrev differ : Bool → Bool → Bool
differ true b = not b
differ false b = b

pub boundary : Pos → Bool
boundary (at b s) = differ (word_side b) (word_side (first_of s))

pub at_start : Pos → Bool
at_start (at none s) = true
at_start (at (some c) s) = false

pub at_end : Pos → Bool
at_end (at b []) = true
at_end (at b (c ∷ s)) = false

pub one_char : (ℕ → Bool) → Pos → List Pos
one_char f (at b []) = []
one_char f (at b (c ∷ s)) = if f c then at (some c) s ∷ [] else []

pub after_each : (Pos → List Pos) → List Pos → List Pos
after_each f [] = []
after_each f (p ∷ ps) = f p ++ after_each f ps

-- A repetition, greedy, of steps that each consume something.
pub repeat : (Pos → List Pos) → ℕ → Pos → List Pos
repeat step zero p = p ∷ []
repeat step (suc n) p =
    after_each
      (λ q.
        let more = repeat step n q in if ltb (length (rest q)) (length (rest p)) then more else [])
      (step p)
    ++ p ∷ []

-- The places where a match that begins at a place can end, the preferred one first.
unfoldable pub ends : Regex → Pos → List Pos
unfolding after_each one_char boundary at_start at_end repeat is_word
ends eps p = p ∷ []
ends (chr f) p = one_char f p
ends (seq r s) p = after_each (ends s) (ends r p)
ends (alt r s) p = ends r p ++ ends s p
ends (star r) p = repeat (ends r) (length (rest p)) p
ends word p = if boundary p then p ∷ [] else []
ends start p = if at_start p then p ∷ [] else []
ends finish p = if at_end p then p ∷ [] else []

abbrev pub nonempty : List Pos → Bool
nonempty [] = false
nonempty (p ∷ ps) = true

-- a match that begins here or later
pub search_from : Regex → Option ℕ → List ℕ → Bool
search_from r b [] = nonempty (ends r (at b []))
search_from r b (c ∷ s) =
    let later = search_from r (some c) s in if nonempty (ends r (at b (c ∷ s))) then true else later

-- `MatchString`
unfoldable pub match_string : Regex → List ℕ → Bool
unfolding search_from ends
match_string r s = search_from r none s
