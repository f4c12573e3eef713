-- ===== src/Regex/Tests.antt =====
-- The matcher on an expression with a word boundary and a repetition: \bab*
use syncent.Base.{true, false, [], ◌∷◌, ◌==◌, ◌≡◌, refl}
use syncent.Regex.{Regex, chr, seq, star, word, match_string}

abbrev a_then_bs : Regex
a_then_bs = seq word (seq (chr (λ c. c == b'a')) (star (chr (λ c. c == b'b'))))

after_blank : match_string a_then_bs (b' ' ∷ b'a' ∷ b'b' ∷ []) ≡ true
unfolding match_string
after_blank = refl

inside_word : match_string a_then_bs (b'b' ∷ b'a' ∷ b'b' ∷ []) ≡ false
unfolding match_string
inside_word = refl
