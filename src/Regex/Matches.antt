-- ===== src/Regex/Matches.antt =====
-- What it means that an expression matches between two places of a text.
use syncent.Base.{
  ℕ, ◌<◌, Bool, true, Option, some, List, ◌∷◌, length, ◌≡◌, ◌⊎◌, inl, inr, refl, sym, subst, ◌∙◌,
  arith,
}
use syncent.Regex.{
  Regex, eps, chr, seq, alt, star, word, start, finish, Pos, at, rest, boundary, at_start, at_end,
}

pub data Matches : Regex → Pos → Pos → Type 0 where
  none_read : {p : Pos} → Matches eps p p
  one_read :
      {f : ℕ → Bool} {b : Option ℕ} {c : ℕ} {s : List ℕ}
      → f c ≡ true
      → Matches (chr f) (at b (c ∷ s)) (at (some c) s)
  both : {r s : Regex} {p m q : Pos} → Matches r p m → Matches s m q → Matches (seq r s) p q
  left : {r s : Regex} {p q : Pos} → Matches r p q → Matches (alt r s) p q
  right : {r s : Regex} {p q : Pos} → Matches s p q → Matches (alt r s) p q
  stop : {r : Regex} {p : Pos} → Matches (star r) p p
  again : {r : Regex} {p m q : Pos} → Matches r p m → Matches (star r) m q → Matches (star r) p q
  on_boundary : {p : Pos} → boundary p ≡ true → Matches word p p
  on_start : {p : Pos} → at_start p ≡ true → Matches start p p
  on_end : {p : Pos} → at_end p ≡ true → Matches finish p p

-- A match begins at a place, or at a later one.
pub data Occurs (r : Regex) : Pos → Type 0 where
  here : {p q : Pos} → Matches r p q → Occurs r p
  later : {b : Option ℕ} {c : ℕ} {s : List ℕ} → Occurs r (at (some c) s) → Occurs r (at b (c ∷ s))

forward_join :
    {p m q : Pos}
    → (m ≡ p) ⊎ (length (rest m) < length (rest p))
    → (q ≡ m) ⊎ (length (rest q) < length (rest m))
    → (q ≡ p) ⊎ (length (rest q) < length (rest p))
forward_join (inl e) (inl f) = inl (f ∙ e)
forward_join {q} (inl e) (inr l) = inr (subst (λ (z : Pos). length (rest q) < length (rest z)) e l)
forward_join {p} (inr l) (inl f) =
    inr (subst (λ (z : Pos). length (rest z) < length (rest p)) (sym f) l)
forward_join (inr l) (inr k) = inr (omega arith)

-- A match stays where it is or moves on.
pub Matches-forward :
    {r : Regex} {p q : Pos} → Matches r p q → (q ≡ p) ⊎ (length (rest q) < length (rest p))
Matches-forward none_read = inl refl
Matches-forward (one_read h) = inr (omega arith)
Matches-forward (both m n) = forward_join (Matches-forward m) (Matches-forward n)
Matches-forward (left m) = Matches-forward m
Matches-forward (right m) = Matches-forward m
Matches-forward stop = inl refl
Matches-forward (again m n) = forward_join (Matches-forward m) (Matches-forward n)
Matches-forward (on_boundary h) = inl refl
Matches-forward (on_start h) = inl refl
Matches-forward (on_end h) = inl refl
