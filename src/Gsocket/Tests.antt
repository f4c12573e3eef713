-- ===== src/Gsocket/Tests.antt =====
-- The output of a command on a shell with a prompt.
use syncent.Base.{
  List, ℕ, [], ◌∷◌, ◌++◌, codes, has_prefix, same_text, trim_space, is_space, ◌≡◌, refl, arith,
}
use syncent.Regex.{match_string}
use syncent.Gsocket.Output.{
  start_marker, end_marker, gs_output, plus, read_output, join_lines, is_output_line,
  is_prompt_line,
}
use syncent.Gsocket.Lines.{keep, take_out, end, prompt, own_line}
use syncent.Gsocket.Markers.{text_of, written, output_between_markers}

abbrev lines : List (List ℕ)
lines = codes "up" ∷ codes "$" ∷ codes "7" ∷ []

output_between_markers_example :
    read_output
      (codes "ab")
      (codes "id -u")
      (codes "$ "
        ++ (start_marker (codes "ab")
            ++ ((10 ∷ text_of lines)
                ++ (end_marker (codes "ab") ++ (written (1 ∷ 2 ∷ []) ++ 10 ∷ [])))))
      (codes "")
    ≡ gs_output (codes "up\n7") (plus 12)
unfolding has_prefix trim_space is_space same_text is_output_line is_prompt_line match_string
    join_lines
output_between_markers_example =
    output_between_markers (codes "ab") (codes "id -u") (codes "$ ") (codes "") [] lines 1 (2 ∷ [])
      (refl, (refl, tt)) (refl, (refl, (refl, (refl, (refl, (refl, (refl, (refl, tt))))))))
      ((refl, (refl, tt)), ((refl, tt), ((refl, tt), tt)))
      (keep (own_line (codes "ab") (codes "id -u") (codes "up") refl) (
        take_out (prompt refl) (keep (own_line (codes "ab") (codes "id -u") (codes "7") refl) end)))
      (omega arith, (omega arith, tt)) (omega arith)
