-- ===== src/Gsocket/Markers.antt =====
-- What GSocketExecute of internal/services/gsocket.go reads between its markers.
use syncent.Base.{
  ℕ, ◌+◌, ◌-◌, ◌*◌, ◌≤◌, ◌<◌, All, lt→ltb, ◌==◌, ap, ◌∙◌, arith, true, false, some, List, [], ◌∷◌,
  ◌++◌, drop, length, codes, has_prefix, has_prefix_iff, trim_space, trim_space-solid, is_space,
  ◌≡◌, refl,
}
use syncent.Gsocket.Lines.{blank, Picked, end, keep, take_out, ShellLine-dropped, own_line-kept}
use syncent.Gsocket.Output.{
  cut, start_marker, end_marker, lines_of, join_lines, is_output_line, keep_lines, digits_value,
  is_digit, plus, scan_int, first_line, gs_output, clean, read_output,
}

-- A marker does not begin inside a text that stands before another one.
abbrev pub NotBefore : List ℕ → List ℕ → List ℕ → Type 0
NotBefore m [] s = Unit
NotBefore m (c ∷ text) s = (has_prefix (c ∷ (text ++ s)) m ≡ false) × NotBefore m text s

drop-append : (m s : List ℕ) → drop (length m) (m ++ s) ≡ s
drop-append [] s = refl
drop-append (c ∷ m) s = drop-append m s

cut-here : (c : ℕ) (m s : List ℕ) → cut (c ∷ m) (c ∷ (m ++ s)) ≡ some ([], s)
unfolding cut
cut-here c m s =
    let here : has_prefix (c ∷ (m ++ s)) (c ∷ m) ≡ true =
      (has_prefix_iff (c ∷ (m ++ s)) (c ∷ m)).1 (s, refl) in
    rw (here, drop-append m s) refl

-- The first place of a marker is where it stands.
cut-NotBefore :
    (c : ℕ) (m before s : List ℕ)
    → NotBefore (c ∷ m) before (c ∷ (m ++ s))
    → cut (c ∷ m) (before ++ c ∷ (m ++ s)) ≡ some (before, s)
unfolding cut
cut-NotBefore c m [] s h = cut-here c m s
cut-NotBefore c m (b ∷ before) s (other, h) = rw (cut, other, cut-NotBefore c m before s h) refl

-- a line has no end of line in it
abbrev pub OneLine : List ℕ → Type 0
OneLine l = All (λ (c : ℕ). (c == 10) ≡ false) l

lines_of-line : (l s : List ℕ) → OneLine l → lines_of (l ++ 10 ∷ s) ≡ l ∷ lines_of s
unfolding lines_of
lines_of-line [] s h = refl
lines_of-line (c ∷ l) s (other, h) = rw (other, lines_of-line l s h) refl

-- the text of lines, each with its end
abbrev pub text_of : List (List ℕ) → List ℕ
text_of [] = []
text_of (line ∷ others) = line ++ 10 ∷ text_of others

lines_of-text_of : (l : List (List ℕ)) → All OneLine l → lines_of (text_of l) ≡ l ++ [] ∷ []
unfolding lines_of
lines_of-text_of [] h = refl
lines_of-text_of (line ∷ others) (one, h) =
    lines_of-line line (text_of others) one ∙ ap (◌∷◌ line) (lines_of-text_of others h)

empty_line-dropped : (id command : List ℕ) → is_output_line id command [] ≡ false
unfolding trim_space
empty_line-dropped id command = ShellLine-dropped id command [] (blank refl)

keep_lines-Picked :
    (id command : List ℕ) {l picked : List (List ℕ)}
    → Picked id command l picked
    → keep_lines (is_output_line id command) (l ++ [] ∷ []) ≡ picked
unfolding keep_lines
keep_lines-Picked id command end = rw (empty_line-dropped id command) refl
keep_lines-Picked id command (keep {line = line} own h) =
    rw (own_line-kept id command line own, keep_lines-Picked id command h) refl
keep_lines-Picked id command (take_out {line = line} shell h) =
    rw (ShellLine-dropped id command line shell) (keep_lines-Picked id command h)

clean-lines :
    (id command : List ℕ) (l : List (List ℕ)) {picked : List (List ℕ)}
    → All OneLine l
    → Picked id command l picked
    → clean id command (10 ∷ text_of l) ≡ trim_space (join_lines picked)
unfolding clean lines_of keep_lines
clean-lines id command l one h =
    rw (lines_of-text_of l one, empty_line-dropped id command, keep_lines-Picked id command h) refl

-- the number of digits, the first one first
abbrev pub number_of : ℕ → List ℕ → ℕ
number_of n [] = n
number_of n (d ∷ l) = number_of (n * 10 + d) l

-- the digits as they are written
abbrev pub written : List ℕ → List ℕ
written [] = []
written (d ∷ l) = (b'0' + d) ∷ written l

digits_value-written :
    (n : ℕ) (l : List ℕ) → All (λ (d : ℕ). d ≤ 9) l → digits_value n (written l) ≡ number_of n l
unfolding digits_value
digits_value-written n [] h = refl
digits_value-written n (d ∷ l) (small, h) =
    let digit : is_digit (48 + d) ≡ true = ground (arith, small) in
    let value : n * 10 + (48 + d - 48) ≡ n * 10 + d = omega arith in
    rw (digit, value, digits_value-written (n * 10 + d) l h) refl

scan_int-written :
    (d : ℕ) (l : List ℕ)
    → All (λ (d : ℕ). d ≤ 9) (d ∷ l)
    → number_of 0 (d ∷ l) < 9223372036854775808
    → scan_int (written (d ∷ l)) ≡ plus (number_of 0 (d ∷ l))
unfolding scan_int
scan_int-written d l small fits =
    let value = digits_value-written 0 (d ∷ l) small in
    let no_minus : (48 + d == b'-') ≡ false = ground arith in
    let no_plus : (48 + d == b'+') ≡ false = ground arith in
    rw (no_minus, no_plus, value, lt→ltb _ _ fits) refl

written-OneLine : (l : List ℕ) → OneLine (written l)
written-OneLine [] = tt
written-OneLine (d ∷ l) = (ground arith, written-OneLine l)

written-solid :
    (l : List ℕ) → All (λ (d : ℕ). d ≤ 9) l → All (λ (c : ℕ). is_space c ≡ false) (written l)
unfolding is_space
written-solid [] h = tt
written-solid (d ∷ l) (small, h) = (ground (arith, small), written-solid l h)

-- Where the markers stand once each at their places, the output is what gs-netcat wrote between them,
-- in any lines, without the lines of the shell and only those: joined, and without blanks at its ends.
-- The digits after the second marker are the exit code, if it is an int. It does not matter what stands
-- before the first marker and in the lines that follow.
pub output_between_markers :
    (id command noise errors rest : List ℕ) (lines : List (List ℕ)) {picked : List (List ℕ)} (d : ℕ)
    (digits : List ℕ)
    → NotBefore (start_marker id) noise (
        start_marker id
        ++ ((10 ∷ text_of lines) ++ (end_marker id ++ (written (d ∷ digits) ++ 10 ∷ rest))))
    → NotBefore
        (end_marker id)
        (10 ∷ text_of lines)
        (end_marker id ++ (written (d ∷ digits) ++ 10 ∷ rest))
    → All OneLine lines
    → Picked id command lines picked
    → All (λ (d : ℕ). d ≤ 9) (d ∷ digits)
    → number_of 0 (d ∷ digits) < 9223372036854775808
    → read_output id command
        (noise
          ++ (start_marker id
              ++ ((10 ∷ text_of lines) ++ (end_marker id ++ (written (d ∷ digits) ++ 10 ∷ rest)))))
        errors
      ≡ gs_output (trim_space (join_lines picked)) (plus (number_of 0 (d ∷ digits)))
unfolding read_output
output_between_markers id command noise errors rest lines {picked} d digits first second one chosen
      small fits =
    let after = written (d ∷ digits) ++ 10 ∷ rest in
    let at_start =
      cut-NotBefore b'V' (codes "PCMD_S_" ++ id) noise
        ((10 ∷ text_of lines) ++ (end_marker id ++ after)) first in
    let at_end = cut-NotBefore b'V' (codes "PCMD_E_" ++ id) (10 ∷ text_of lines) after second in
    let code : first_line (lines_of after) ≡ written (d ∷ digits) =
      ap first_line (lines_of-line (written (d ∷ digits)) rest (written-OneLine (d ∷ digits))) in
    rw
      (
        read_output,
        at_start,
        at_end,
        code,
        trim_space-solid (written (d ∷ digits)) (written-solid (d ∷ digits) small),
        scan_int-written d digits small fits,
        clean-lines id command lines one chosen,
      )
      refl
