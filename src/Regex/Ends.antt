-- ===== src/Regex/Ends.antt =====
-- `ends` finds exactly the matches, and `match_string` decides whether one occurs.
use syncent.Base.{
  ℕ, zero, suc, ◌≤◌, ◌<◌, Bool, true, false, Option, none, some, List, [], ◌∷◌, ◌++◌, length, ltb,
  lt→ltb, ◌≡◌, ◌⊎◌, ◌↔◌, inl, inr, refl, sym, subst, arith, Bool-cases, if◌then◌else◌,
}
use syncent.Regex.{
  Regex, eps, chr, seq, alt, star, word, start, finish, Pos, at, rest, boundary, at_start, at_end,
  one_char, after_each, repeat, ends, nonempty, search_from, match_string,
}
use syncent.Regex.Matches.{
  Matches, none_read, one_read, both, left, right, stop, again, on_boundary, on_start, on_end,
  Matches-forward, Occurs, here, later,
}

abbrev pub In : Pos → List Pos → Type 0
In q [] = ⊥
In q (p ∷ ps) = (q ≡ p) ⊎ In q ps

In-append_inv : (q : Pos) (l m : List Pos) → In q (l ++ m) → In q l ⊎ In q m
In-append_inv q [] m h = inr h
In-append_inv q (p ∷ l) m (inl e) = inl (inl e)
In-append_inv q (p ∷ l) m (inr h) = elim (In-append_inv q l m h) [
  | inl k ↦ inl (inr k)
  | inr k ↦ inr k
]

In-append_left : (q : Pos) (l m : List Pos) → In q l → In q (l ++ m)
In-append_left q [] m h = absurd h
In-append_left q (p ∷ l) m (inl e) = inl e
In-append_left q (p ∷ l) m (inr h) = inr (In-append_left q l m h)

In-append_right : (q : Pos) (l m : List Pos) → In q m → In q (l ++ m)
In-append_right q [] m h = h
In-append_right q (p ∷ l) m h = inr (In-append_right q l m h)

In-after_each_of :
    (f : Pos → List Pos) (m q : Pos) (l : List Pos) → In m l → In q (f m) → In q (after_each f l)
unfolding after_each
In-after_each_of f m q [] h k = absurd h
In-after_each_of f m q (p ∷ l) (inl e) k =
    In-append_left q (f p) (after_each f l) (subst (λ (z : Pos). In q (f z)) e k)
In-after_each_of f m q (p ∷ l) (inr h) k =
    In-append_right q (f p) (after_each f l) (In-after_each_of f m q l h k)

In-after_each_inv :
    (f : Pos → List Pos) (q : Pos) (l : List Pos)
    → In q (after_each f l)
    → (m : Pos) × In m l × In q (f m)
unfolding after_each
In-after_each_inv f q [] h = absurd h
In-after_each_inv f q (p ∷ l) h = elim (In-append_inv q (f p) (after_each f l) h) [
  | inl k ↦ (p, inl refl, k)
  | inr k ↦ let (m, a, b) = In-after_each_inv f q l k in (m, inr a, b)
]

abbrev next_round : (Pos → List Pos) → ℕ → Pos → Pos → List Pos
next_round step n p q = if ltb (length (rest q)) (length (rest p)) then repeat step n q else []

repeat_sound :
    (r : Regex)
    → ((p q : Pos) → In q (ends r p) → Matches r p q)
    → (n : ℕ) (p q : Pos) → In q (repeat (ends r) n p)
    → Matches (star r) p q
unfolding repeat
repeat_sound r sound zero p q (inl e) = subst (λ (z : Pos). Matches (star r) p z) (sym e) stop
repeat_sound r sound zero p q (inr f) = absurd f
repeat_sound r sound (suc n) p q h =
    elim (In-append_inv q (after_each (next_round (ends r) n p) (ends r p)) (p ∷ []) h) [
      | inl k ↦
          let (m, a, b) = In-after_each_inv (next_round (ends r) n p) q (ends r p) k in
          elim (Bool-cases (ltb (length (rest m)) (length (rest p)))) [
            | inl moved ↦ again (sound p m a) (repeat_sound r sound n m q (rw moved at b))
            | inr stayed ↦ absurd (rw stayed at b)
          ]
      | inr (inl e) ↦ subst (λ (z : Pos). Matches (star r) p z) (sym e) stop
      | inr (inr f) ↦ absurd f
    ]

one_char_sound : (f : ℕ → Bool) (p q : Pos) → In q (one_char f p) → Matches (chr f) p q
unfolding one_char
one_char_sound f (at b []) q h = absurd h
one_char_sound f (at b (c ∷ s)) q h = elim (Bool-cases (f c)) [
  | inl fits ↦ elim (rw fits at h) [
    | inl e ↦ subst (λ (z : Pos). Matches (chr f) (at b (c ∷ s)) z) (sym e) (one_read fits)
    | inr no_more ↦ absurd no_more
  ]
  | inr other ↦ absurd (rw other at h)
]

test_sound :
    (r : Regex) (t : Bool) (p q : Pos)
    → (t ≡ true → Matches r p p)
    → In q (if t then p ∷ [] else [])
    → Matches r p q
test_sound r true p q m (inl e) = subst (λ (z : Pos). Matches r p z) (sym e) (m refl)
test_sound r true p q m (inr f) = absurd f
test_sound r false p q m h = absurd h

pub ends_sound : (r : Regex) (p q : Pos) → In q (ends r p) → Matches r p q
unfolding ends
ends_sound eps p q (inl e) = subst (λ (z : Pos). Matches eps p z) (sym e) none_read
ends_sound eps p q (inr f) = absurd f
ends_sound (chr f) p q h = one_char_sound f p q h
ends_sound (seq r s) p q h =
    let (m, a, b) = In-after_each_inv (ends s) q (ends r p) h in
    both (ends_sound r p m a) (ends_sound s m q b)
ends_sound (alt r s) p q h = elim (In-append_inv q (ends r p) (ends s p) h) [
  | inl k ↦ left (ends_sound r p q k)
  | inr k ↦ right (ends_sound s p q k)
]
ends_sound (star r) p q h = repeat_sound r (ends_sound r) (length (rest p)) p q h
ends_sound word p q h = test_sound word (boundary p) p q on_boundary h
ends_sound start p q h = test_sound start (at_start p) p q on_start h
ends_sound finish p q h = test_sound finish (at_end p) p q on_end h

-- More fuel finds no less.
repeat_mono :
    (step : Pos → List Pos) (n k : ℕ) (p q : Pos)
    → n ≤ k
    → In q (repeat step n p)
    → In q (repeat step k p)
unfolding repeat
repeat_mono step zero zero p q le h = h
repeat_mono step (suc n) zero p q le h = absurd (omega arith)
repeat_mono step zero (suc k) p q le h = In-append_right q _ (p ∷ []) h
repeat_mono step (suc n) (suc k) p q le h =
    elim (In-append_inv q (after_each (next_round step n p) (step p)) (p ∷ []) h) [
      | inl i ↦
          let (m, a, b) = In-after_each_inv (next_round step n p) q (step p) i in
          In-append_left q _ (p ∷ []) (
            In-after_each_of (next_round step k p) m q (step p) a
              (elim (Bool-cases (ltb (length (rest m)) (length (rest p)))) [
                | inl moved ↦ rw moved (repeat_mono step n k m q (omega arith) (rw moved at b))
                | inr stayed ↦ absurd (rw stayed at b)
              ]))
      | inr i ↦ In-append_right q _ (p ∷ []) i
    ]

repeat_again :
    (step : Pos → List Pos) (k : ℕ) (p m q : Pos)
    → length (rest p) ≡ k
    → length (rest m) < length (rest p)
    → In m (step p)
    → In q (repeat step (length (rest m)) m)
    → In q (repeat step k p)
unfolding repeat
repeat_again step zero p m q size less a h = absurd (omega arith)
repeat_again step (suc k) p m q size less a h = In-append_left q _ (p ∷ []) (
    In-after_each_of (next_round step k p) m q (step p) a
      (rw (lt→ltb _ _ less) (repeat_mono step (length (rest m)) k m q (omega arith) h)))

In-repeat_stop : (step : Pos → List Pos) (n : ℕ) (p : Pos) → In p (repeat step n p)
unfolding repeat
In-repeat_stop step zero p = inl refl
In-repeat_stop step (suc n) p = In-append_right p _ (p ∷ []) (inl refl)

pub ends_complete : {r : Regex} {p q : Pos} → Matches r p q → In q (ends r p)
unfolding ends
ends_complete none_read = inl refl
ends_complete (one_read fits) = rw fits (inl refl)
ends_complete (both {r} {s} {p} {m} {q} h k) =
    In-after_each_of (ends s) m q (ends r p) (ends_complete h) (ends_complete k)
ends_complete (left {r} {s} {p} {q} h) = In-append_left q (ends r p) (ends s p) (ends_complete h)
ends_complete (right {r} {s} {p} {q} h) = In-append_right q (ends r p) (ends s p) (ends_complete h)
ends_complete (stop {r} {p}) = In-repeat_stop (ends r) (length (rest p)) p
ends_complete (again {r} {p} {m} {q} h k) = elim (Matches-forward h) [
  | inl same ↦
      subst (λ (z : Pos). In q (repeat (ends r) (length (rest z)) z)) same (ends_complete k)
  | inr less ↦
      repeat_again (ends r) (length (rest p)) p m q refl less (ends_complete h) (ends_complete k)
]
ends_complete (on_boundary h) = rw h (inl refl)
ends_complete (on_start h) = rw h (inl refl)
ends_complete (on_end h) = rw h (inl refl)

-- The places that the matcher finds are exactly those where a match can end.
pub ends_iff : (r : Regex) (p q : Pos) → In q (ends r p) ↔ Matches r p q
ends_iff r p q = (ends_sound r p q, ends_complete)

nonempty_of : (q : Pos) (l : List Pos) → In q l → nonempty l ≡ true
nonempty_of q [] h = absurd h
nonempty_of q (p ∷ l) h = refl

nonempty_inv : (l : List Pos) → nonempty l ≡ true → (q : Pos) × In q l
nonempty_inv [] h = cc
nonempty_inv (p ∷ l) h = (p, inl refl)

search_sound :
    (r : Regex) (b : Option ℕ) (s : List ℕ) → search_from r b s ≡ true → Occurs r (at b s)
unfolding search_from
search_sound r b [] h = let (q, i) = nonempty_inv (ends r (at b [])) h in here (ends_sound r _ q i)
search_sound r b (c ∷ s) h = elim (Bool-cases (nonempty (ends r (at b (c ∷ s))))) [
  | inl found ↦ let (q, i) = nonempty_inv (ends r (at b (c ∷ s))) found in here (ends_sound r _ q i)
  | inr other ↦ later (search_sound r (some c) s (rw (other, search_from) at h))
]

search_here :
    (r : Regex) (b : Option ℕ) (s : List ℕ) (q : Pos)
    → Matches r (at b s) q
    → search_from r b s ≡ true
unfolding search_from
search_here r b [] q m = nonempty_of q _ (ends_complete m)
search_here r b (c ∷ s) q m = rw (nonempty_of q (ends r (at b (c ∷ s))) (ends_complete m))

search_later :
    (r : Regex) (b : Option ℕ) (c : ℕ) (s : List ℕ)
    → search_from r (some c) s ≡ true
    → search_from r b (c ∷ s) ≡ true
unfolding search_from
search_later r b c s h = elim (Bool-cases (nonempty (ends r (at b (c ∷ s))))) [
  | inl found ↦ rw found
  | inr other ↦ rw other h
]

search_at : Regex → Pos → Bool
search_at r (at b s) = search_from r b s

search_complete : {r : Regex} {p : Pos} → Occurs r p → search_at r p ≡ true
unfolding search_at
search_complete (here {p = at b s} {q = q} m) = search_here _ b s q m
search_complete {r} (later {b} {c} {s} o) = search_later r b c s (search_complete o)

-- `MatchString` answers true exactly where a match of the expression begins somewhere in the text.
pub match_string_iff : (r : Regex) (s : List ℕ) → (match_string r s ≡ true) ↔ Occurs r (at none s)
unfolding match_string search_at
match_string_iff r s = (search_sound r none s, search_complete)
