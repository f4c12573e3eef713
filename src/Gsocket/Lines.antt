-- ===== src/Gsocket/Lines.antt =====
-- Which lines of an output are the shell's own.
use syncent.Base.{
  ℕ, Bool, true, false, List, [], ◌∷◌, ◌++◌, codes, has_prefix, same_text, same_text_iff,
  trim_space, ◌≡◌, refl, arith,
}
use syncent.Gsocket.Output.{start_marker, end_marker, is_prompt_line, is_output_line}

-- A line, without blanks at its ends, that is empty, a line of the script, or a prompt.
pub data ShellLine (id command t : List ℕ) : Type 0 where
  blank : t ≡ [] → ShellLine id command t
  export_term : t ≡ codes "export TERM=dumb" → ShellLine id command t
  unset_ps1 : t ≡ codes "unset PS1" → ShellLine id command t
  stty : has_prefix t (codes "stty ") ≡ true → ShellLine id command t
  echo_start : t ≡ codes "echo '" ++ (start_marker id ++ codes "'") → ShellLine id command t
  echo_end :
      has_prefix t (codes "echo '" ++ (end_marker id ++ codes "'")) ≡ true → ShellLine id command t
  the_command : t ≡ command → ShellLine id command t
  the_exit : t ≡ codes "exit" → ShellLine id command t
  prompt : is_prompt_line t ≡ true → ShellLine id command t

-- The lines that are left when those of the shell are taken out.
pub data Picked (id command : List ℕ) : List (List ℕ) → List (List ℕ) → Type 0 where
  end : Picked id command [] []
  keep :
      {line : List ℕ} {l picked : List (List ℕ)}
      → ¬ ShellLine id command (trim_space line)
      → Picked id command l picked
      → Picked id command (line ∷ l) (line ∷ picked)
  take_out :
      {line : List ℕ} {l picked : List (List ℕ)}
      → ShellLine id command (trim_space line)
      → Picked id command l picked
      → Picked id command (line ∷ l) picked

not_true : (b : Bool) → ¬ (b ≡ true) → b ≡ false
not_true true h = absurd (h refl)
not_true false h = refl

module _ (id command line : List ℕ) where
  pub ShellLine-dropped :
      ShellLine id command (trim_space line) → is_output_line id command line ≡ false
  unfolding is_output_line
  ShellLine-dropped (blank e) = ground (arith, (same_text_iff (trim_space line) []).1 e)
  ShellLine-dropped (export_term e) =
      ground (arith, (same_text_iff (trim_space line) (codes "export TERM=dumb")).1 e)
  ShellLine-dropped (unset_ps1 e) =
      ground (arith, (same_text_iff (trim_space line) (codes "unset PS1")).1 e)
  ShellLine-dropped (stty e) = ground (arith, e)
  ShellLine-dropped (echo_start e) = ground (
    arith,
    (same_text_iff (trim_space line) (codes "echo '" ++ (start_marker id ++ codes "'"))).1 e,
  )
  ShellLine-dropped (echo_end e) = ground (arith, e)
  ShellLine-dropped (the_command e) = ground (arith, (same_text_iff (trim_space line) command).1 e)
  ShellLine-dropped (the_exit e) =
      ground (arith, (same_text_iff (trim_space line) (codes "exit")).1 e)
  ShellLine-dropped (prompt e) = ground (arith, e)

  differs : (t : List ℕ) → ¬ (trim_space line ≡ t) → same_text (trim_space line) t ≡ false
  differs t h = not_true _ (λ e. h ((same_text_iff (trim_space line) t).0 e))

  pub own_line-kept :
      ¬ ShellLine id command (trim_space line) → is_output_line id command line ≡ true
  unfolding is_output_line
  own_line-kept own =
      rw
        (
          is_output_line,
          differs [] (λ e. own (blank e)),
          differs (codes "export TERM=dumb") (λ e. own (export_term e)),
          differs (codes "unset PS1") (λ e. own (unset_ps1 e)),
          not_true (has_prefix (trim_space line) (codes "stty ")) (λ e. own (stty e)),
          differs (codes "echo '" ++ (start_marker id ++ codes "'")) (λ e. own (echo_start e)),
          not_true (has_prefix (trim_space line) (codes "echo '" ++ (end_marker id ++ codes "'")))
              (λ e. own (echo_end e)),
          differs command (λ e. own (the_command e)),
          differs (codes "exit") (λ e. own (the_exit e)),
          not_true (is_prompt_line (trim_space line)) (λ e. own (prompt e)),
        )
        refl

  pub own_line : is_output_line id command line ≡ true → ¬ ShellLine id command (trim_space line)
  own_line kept shell = let lost = ShellLine-dropped shell in cc (kept, lost)
