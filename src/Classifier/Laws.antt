-- ===== src/Classifier/Laws.antt =====
-- The tiers of `ClassifyCommand`, by what occurs in the command.
use syncent.Base.{
  ℕ, String, Bool, true, false, List, [], ◌∷◌, ◌++◌, ◌≡◌, ◌≢◌, ◌↔◌, ◌⊎◌, inl, inr, refl, arith,
  codes, trim_space, same_text, same_text_iff, has_prefix, has_prefix_iff, Bool-cases,
  if◌then◌else◌, none,
}
use syncent.Regex.{Regex, at, match_string}
use syncent.Regex.Matches.{Occurs}
use syncent.Regex.Ends.{match_string_iff}
use syncent.Classifier.{
  tier_safe, tier_dangerous, tier_blocked, CommandTier, blocked_patterns, dangerous_patterns,
  safe_commands, some_match, some_safe, shell_pipe, tier_by, classify_command,
}

-- One of the expressions occurs in the text.
abbrev pub SomeOccurs : List Regex → List ℕ → Type 0
SomeOccurs [] cmd = ⊥
SomeOccurs (p ∷ ps) cmd = Occurs p (at none cmd) ⊎ SomeOccurs ps cmd

-- The text is one of the words, or begins with one and a blank.
abbrev pub BeginsWithOne : List String → List ℕ → Type 0
BeginsWithOne [] cmd = ⊥
BeginsWithOne (w ∷ ws) cmd =
    ((cmd ≡ codes w) ⊎ ((t : List ℕ) × (cmd ≡ (codes w ++ b' ' ∷ []) ++ t))) ⊎ BeginsWithOne ws cmd

some_match_sound : (ps : List Regex) (cmd : List ℕ) → some_match ps cmd ≡ true → SomeOccurs ps cmd
unfolding some_match
some_match_sound [] cmd h = absurd (cc)
some_match_sound (p ∷ ps) cmd h =
    let ih = some_match_sound ps cmd in
    elim (Bool-cases (match_string p cmd)) [
      | inl e ↦ inl ((match_string_iff p cmd).0 e)
      | inr e ↦ inr (ih (ground (arith, e, h)))
    ]

some_match_complete :
    (ps : List Regex) (cmd : List ℕ) → SomeOccurs ps cmd → some_match ps cmd ≡ true
unfolding some_match
some_match_complete [] cmd h = absurd h
some_match_complete (p ∷ ps) cmd (inl o) =
    let e : match_string p cmd ≡ true = (match_string_iff p cmd).1 o in ground (arith, e)
some_match_complete (p ∷ ps) cmd (inr o) =
    let ih = some_match_complete ps cmd o in ground (arith, ih)

begins_sound : (ws : List String) (cmd : List ℕ) → some_safe ws cmd ≡ true → BeginsWithOne ws cmd
unfolding some_safe
begins_sound [] cmd h = absurd (cc)
begins_sound (w ∷ ws) cmd h =
    let ih = begins_sound ws cmd in
    elim (Bool-cases (same_text cmd (codes w))) [
      | inl e ↦ inl (inl ((same_text_iff cmd (codes w)).0 e))
      | inr e ↦ elim (Bool-cases (has_prefix cmd (codes w ++ b' ' ∷ []))) [
        | inl f ↦ inl (inr ((has_prefix_iff cmd (codes w ++ b' ' ∷ [])).0 f))
        | inr f ↦ inr (ih (ground (arith, e, f, h)))
      ]
    ]

begins_complete : (ws : List String) (cmd : List ℕ) → BeginsWithOne ws cmd → some_safe ws cmd ≡ true
unfolding some_safe
begins_complete [] cmd h = absurd h
begins_complete (w ∷ ws) cmd (inl (inl h)) =
    let e = (same_text_iff cmd (codes w)).1 h in ground (arith, e)
begins_complete (w ∷ ws) cmd (inl (inr h)) =
    let e = (has_prefix_iff cmd (codes w ++ b' ' ∷ [])).1 h in ground (arith, e)
begins_complete (w ∷ ws) cmd (inr h) = let ih = begins_complete ws cmd h in ground (arith, ih)

not_both : {b : Bool} → b ≡ true → b ≡ false → ⊥
not_both h k = cc

is_false : {b : Bool} → (b ≡ true → ⊥) → b ≡ false
is_false {b} h = elim (Bool-cases b) [ inl e ↦ absurd (h e) | inr e ↦ e ]

some_match_iff : (ps : List Regex) (cmd : List ℕ) → (some_match ps cmd ≡ true) ↔ SomeOccurs ps cmd
some_match_iff ps cmd = (some_match_sound ps cmd, some_match_complete ps cmd)

some_safe_iff : (ws : List String) (cmd : List ℕ) → (some_safe ws cmd ≡ true) ↔ BeginsWithOne ws cmd
some_safe_iff ws cmd = (begins_sound ws cmd, begins_complete ws cmd)

-- the tests of `tier_by` as Booleans
abbrev chosen : Bool → Bool → Bool → Bool → Bool → CommandTier
chosen empty b d s pipe =
    if empty
    then tier_blocked
    else if b
    then tier_blocked
    else if d
    then tier_dangerous
    else if s
    then tier_safe
    else if pipe
    then tier_dangerous
    else tier_dangerous

chosen_blocked : (e b d s p : Bool) → (chosen e b d s p ≡ tier_blocked) ↔ ((e ≡ true) ⊎ (b ≡ true))
chosen_blocked true b d s p = (λ h. inl refl, λ h. refl)
chosen_blocked false true d s p = (λ h. inr refl, λ h. refl)
chosen_blocked false false true s p = (λ h. absurd (cc), λ h. absurd (ground (arith, h)))
chosen_blocked false false false true p = (λ h. absurd (cc), λ h. absurd (ground (arith, h)))
chosen_blocked false false false false true = (λ h. absurd (cc), λ h. absurd (ground (arith, h)))
chosen_blocked false false false false false = (λ h. absurd (cc), λ h. absurd (ground (arith, h)))

chosen_safe :
    (e b d s p : Bool)
    → (chosen e b d s p ≡ tier_safe) ↔ ((e ≡ false) × (b ≡ false) × (d ≡ false) × (s ≡ true))
chosen_safe true b d s p = (λ h. absurd (cc), λ h. absurd (cc (h.0)))
chosen_safe false true d s p = (λ h. absurd (cc), λ h. absurd (cc (h.1)))
chosen_safe false false true s p = (λ h. absurd (cc), λ h. absurd (cc (h.2)))
chosen_safe false false false true p = (λ h. (refl, refl, refl, refl), λ h. refl)
chosen_safe false false false false true = (λ h. absurd (cc), λ h. absurd (cc (h.3)))
chosen_safe false false false false false = (λ h. absurd (cc), λ h. absurd (cc (h.3)))

tier_by_blocked :
    (b d : List Regex) (s : List String) (cmd : List ℕ)
    → (tier_by b d s cmd ≡ tier_blocked) ↔ ((same_text cmd [] ≡ true) ⊎ (some_match b cmd ≡ true))
unfolding tier_by
tier_by_blocked b d s cmd =
    chosen_blocked (same_text cmd []) (some_match b cmd) (some_match d cmd) (some_safe s cmd)
      (match_string shell_pipe cmd)

tier_by_safe :
    (b d : List Regex) (s : List String) (cmd : List ℕ)
    → (tier_by b d s cmd ≡ tier_safe) ↔ (
        (same_text cmd [] ≡ false)
        × (some_match b cmd ≡ false)
        × (some_match d cmd ≡ false)
        × (some_safe s cmd ≡ true))
unfolding tier_by
tier_by_safe b d s cmd =
    chosen_safe (same_text cmd []) (some_match b cmd) (some_match d cmd) (some_safe s cmd)
      (match_string shell_pipe cmd)

-- A command is blocked exactly where it is blank or one of the blocked patterns occurs in what is
-- left of it without the blanks around it.
pub classify_blocked_iff :
    (command : List ℕ)
    → (classify_command command ≡ tier_blocked)
      ↔ ((trim_space command ≡ []) ⊎ SomeOccurs blocked_patterns (trim_space command))
unfolding classify_command
classify_blocked_iff command =
    let cmd = trim_space command in
    let tests = tier_by_blocked blocked_patterns dangerous_patterns safe_commands cmd in
    let empty = same_text_iff cmd [] in
    let found = some_match_iff blocked_patterns cmd in
    (
      λ h. elim (tests.0 h) [ inl e ↦ inl (empty.0 e) | inr e ↦ inr (found.0 e) ],
      λ h. elim h [ inl e ↦ tests.1 (inl (empty.1 e)) | inr o ↦ tests.1 (inr (found.1 o)) ],
    )

-- A command is safe exactly where it is not blank, no blocked and no dangerous pattern occurs in it
-- without the blanks around it, and it is one of the safe commands or begins with one and a blank.
pub classify_safe_iff :
    (command : List ℕ)
    → (classify_command command ≡ tier_safe) ↔ (
        (trim_space command ≢ [])
        × (SomeOccurs blocked_patterns (trim_space command) → ⊥)
        × (SomeOccurs dangerous_patterns (trim_space command) → ⊥)
        × BeginsWithOne safe_commands (trim_space command))
unfolding classify_command
classify_safe_iff command =
    let cmd = trim_space command in
    let tests = tier_by_safe blocked_patterns dangerous_patterns safe_commands cmd in
    let empty = same_text_iff cmd [] in
    let blocked = some_match_iff blocked_patterns cmd in
    let dangerous = some_match_iff dangerous_patterns cmd in
    let begins = some_safe_iff safe_commands cmd in
    (
      λ h.
          let t = tests.0 h in
          (
            λ e. not_both (empty.1 e) (t.0),
            λ o. not_both (blocked.1 o) (t.1),
            λ o. not_both (dangerous.1 o) (t.2),
            begins.0 (t.3),
          ),
      λ h. tests.1 (
        is_false (λ e. h.0 (empty.0 e)),
        is_false (λ e. h.1 (blocked.0 e)),
        is_false (λ e. h.2 (dangerous.0 e)),
        begins.1 (h.3),
      ),
    )
