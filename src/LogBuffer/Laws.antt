-- ===== src/LogBuffer/Laws.antt =====
-- What a buffer holds after entries were added.
use syncent.Base.{
  ℕ, zero, suc, ◌-◌, ◌≤◌, String, List, [], ◌∷◌, ◌++◌, length, drop, ltb, last?, some, last?-append,
  length-append, length-drop, str_eq, eq_iff, ◌≡◌, ◌≢◌, refl, arith, inl, inr, Bool-cases,
}
use syncent.LogBuffer.{Buffers, buffer_max, latest, add_to_buffer}

module _ {ℓ} {A : Type ℓ} where
  last?-drop : (n : ℕ) (l : List A) (a : A) → n ≤ length l → last? (drop n (l ++ a ∷ [])) ≡ some a
  last?-drop zero l a h = last?-append l a
  last?-drop (suc n) [] a h = absurd (omega (arith, h))
  last?-drop (suc n) (b ∷ l) a h = last?-drop n l a (omega (arith, h))

  latest-length : (l : List A) → length l ≤ suc buffer_max → length (latest l) ≤ buffer_max
  latest-length l h = elim (Bool-cases (ltb buffer_max (length l))) [
    | inl e ↦ rw e (let d = length-drop (length l - buffer_max) l in omega (arith, h, d))
    | inr e ↦ rw e (ground (arith, e))
  ]

  latest-last : (l : List A) (a : A) → last? (latest (l ++ a ∷ [])) ≡ some a
  latest-last l a = elim (Bool-cases (ltb buffer_max (length (l ++ a ∷ [])))) [
    | inl e ↦ rw e (
        last?-drop (length (l ++ a ∷ []) - buffer_max) l a
          (let n = length-append l (a ∷ []) in omega (arith, n)))
    | inr e ↦ rw e (last?-append l a)
  ]

  -- An entry that is added is the last one of its buffer; the buffer keeps at most 500 entries, if it
  -- had no more; and no other buffer changes.
  pub add_to_buffer-latest :
      (key : String) (entry : A) (buffers : Buffers A)
      → length (buffers key) ≤ buffer_max
      → (last? (add_to_buffer key entry buffers key) ≡ some entry)
        × (length (add_to_buffer key entry buffers key) ≤ buffer_max)
        × ((k : String) → k ≢ key → add_to_buffer key entry buffers k ≡ buffers k)
  unfolding add_to_buffer
  add_to_buffer-latest key entry buffers h =
      let same = (eq_iff key key).1 refl in
      let n = length-append (buffers key) (entry ∷ []) in
      (
        rw same (latest-last (buffers key) entry),
        rw same (latest-length (buffers key ++ entry ∷ []) (omega (arith, n, h))),
        λ k differs. elim (Bool-cases (str_eq k key)) [
          | inl e ↦ absurd (differs ((eq_iff k key).0 e))
          | inr e ↦ rw e refl
        ],
      )
