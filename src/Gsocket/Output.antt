-- ===== src/Gsocket/Output.antt =====
-- internal/services/gsocket.go: StripANSI, isPromptLine, and the script and the reading of the output in
-- GSocketExecute. A text is the list of its code points.
use syncent.Base.{
  ℕ, zero, suc, ◌+◌, ◌-◌, ◌*◌, String, Bool, true, false, not, ◌&&◌, ◌||◌, Option, none, some, List,
  [], ◌∷◌, ◌++◌, drop, length, ltb, leb, ◌==◌, codes, has_prefix, same_text, trim_space,
  if◌then◌else◌,
}
use syncent.Regex.{Regex, chr, seq, alt, star, start, finish, at, rest, ends, match_string, is_word}

abbrev pub is_digit : ℕ → Bool
is_digit c = leb b'0' c && leb c b'9'

abbrev is_letter : ℕ → Bool
is_letter c = leb b'a' c && leb c b'z' || leb b'A' c && leb c b'Z'

-- \s
abbrev is_blank : ℕ → Bool
is_blank c = c == 9 || c == 10 || c == 12 || c == 13 || c == 32

abbrev some_of : (ℕ → Bool) → Regex
some_of f = seq (chr f) (star (chr f))

-- \x1b\[[0-9;]*[a-zA-Z]|\x1b\][^\x07]*\x07|\[\?[0-9]+[hl]
abbrev pub ansi_re : Regex
ansi_re =
    alt
      (seq (chr (λ c. c == 0x1b)) (
        seq (chr (λ c. c == b'['))
          (seq (star (chr (λ c. is_digit c || c == b';'))) (chr is_letter))))
      (alt
        (seq (chr (λ c. c == 0x1b))
          (seq (chr (λ c. c == b']')) (seq (star (chr (λ c. not (c == 7)))) (chr (λ c. c == 7)))))
        (seq (chr (λ c. c == b'[')) (
          seq (chr (λ c. c == b'?')) (seq (some_of is_digit) (chr (λ c. c == b'h' || c == b'l'))))))

-- how many characters the preferred match at the begin of a text has, none if it has none
abbrev match_length : Regex → List ℕ → ℕ
match_length r s = elim (ends r (at none s)) [ [] ↦ 0 | p ∷ ps ↦ length s - length (rest p) ]

-- `ReplaceAllString(s, "")` of an expression that matches no empty text and looks at no character before;
-- the number is that of the characters that are still in a match
unfoldable pub remove_matches : Regex → ℕ → List ℕ → List ℕ
remove_matches r n [] = []
remove_matches r (suc n) (c ∷ s) = remove_matches r n s
remove_matches r zero (c ∷ s) =
    let size = match_length r (c ∷ s) in
    let removed = remove_matches r (size - 1) s in
    let kept = remove_matches r 0 s in if size == 0 then c ∷ kept else removed

unfoldable pub strip_ansi : List ℕ → List ℕ
unfolding remove_matches
strip_ansi s = remove_matches ansi_re 0 s

-- `strings.ReplaceAll(s, old, "")`
unfoldable pub remove_all : List ℕ → ℕ → List ℕ → List ℕ
remove_all old n [] = []
remove_all old (suc n) (c ∷ s) = remove_all old n s
remove_all old zero (c ∷ s) =
    let removed = remove_all old (length old - 1) s in
    let kept = remove_all old 0 s in if has_prefix (c ∷ s) old then removed else c ∷ kept

-- `strings.Index`: the text before the first place where another stands, and the text after it
unfoldable pub cut : List ℕ → List ℕ → Option (List ℕ × List ℕ)
cut m [] = if has_prefix [] m then some ([], []) else none
cut m (c ∷ s) =
    let later = cut m s in
    if has_prefix (c ∷ s) m
    then some ([], drop (length m) (c ∷ s))
    else (elim later [ none ↦ none | some (before, after) ↦ some (c ∷ before, after) ])

-- `strings.Contains`
abbrev contains : List ℕ → List ℕ → Bool
contains s m = elim (cut m s) [ none ↦ false | some p ↦ true ]

abbrev onto_first : ℕ → List (List ℕ) → List (List ℕ)
onto_first c [] = (c ∷ []) ∷ []
onto_first c (line ∷ others) = (c ∷ line) ∷ others

-- strings.Split(s, "\n")
unfoldable pub lines_of : List ℕ → List (List ℕ)
lines_of [] = [] ∷ []
lines_of (c ∷ s) = let others = lines_of s in if c == 10 then [] ∷ others else onto_first c others

-- strings.Join(lines, "\n")
unfoldable pub join_lines : List (List ℕ) → List ℕ
join_lines [] = []
join_lines (line ∷ []) = line
join_lines (line ∷ next ∷ others) = line ++ 10 ∷ join_lines (next ∷ others)

-- ^[\w.-]+@[\w.-]+[:\s~/$#]+$ and ^\$\s*$
abbrev host_char : ℕ → Bool
host_char c = is_word c || c == b'.' || c == b'-'

abbrev prompt_char : ℕ → Bool
prompt_char c = c == b':' || is_blank c || c == b'~' || c == b'/' || c == b'$' || c == b'#'

unfoldable pub is_prompt_line : List ℕ → Bool
is_prompt_line line =
    match_string
      (seq start (
        seq (some_of host_char) (
          seq (chr (λ c. c == b'@')) (seq (some_of host_char) (seq (some_of prompt_char) finish)))))
      line
    || match_string (seq start (seq (chr (λ c. c == b'$')) (seq (star (chr is_blank)) finish))) line

-- the two markers of a run
abbrev pub start_marker : List ℕ → List ℕ
start_marker id = codes "VPCMD_S_" ++ id

abbrev pub end_marker : List ℕ → List ℕ
end_marker id = codes "VPCMD_E_" ++ id

-- the command that is sent: no marker can be in it
unfoldable pub without_markers : List ℕ → List ℕ
without_markers command = remove_all (codes "VPCMD_E_") 0 (remove_all (codes "VPCMD_S_") 0 command)

abbrev echo_of : List ℕ → List ℕ
echo_of m = codes "echo '" ++ (m ++ codes "'")

-- the input of gs-netcat
unfoldable pub script : List ℕ → List ℕ → List ℕ
script id command =
    codes "export TERM=dumb 2>/dev/null\nunset PS1 2>/dev/null\nstty -echo 2>/dev/null\n"
    ++ (echo_of (start_marker id)
        ++ (codes "\n"
            ++ (without_markers command
                ++ (codes "\n" ++ (echo_of (end_marker id) ++ codes "\"$?\"\nexit\n")))))

-- a line of the output that is not of the shell's own
unfoldable pub is_output_line : List ℕ → List ℕ → List ℕ → Bool
is_output_line id command line =
    let trimmed = trim_space line in
    not (
      same_text trimmed []
      || same_text trimmed (codes "export TERM=dumb")
      || same_text trimmed (codes "unset PS1")
      || has_prefix trimmed (codes "stty ")
      || same_text trimmed (echo_of (start_marker id))
      || has_prefix trimmed (echo_of (end_marker id))
      || same_text trimmed command
      || same_text trimmed (codes "exit")
      || is_prompt_line trimmed)

unfoldable pub keep_lines : (List ℕ → Bool) → List (List ℕ) → List (List ℕ)
keep_lines p [] = []
keep_lines p (line ∷ others) =
    let kept = keep_lines p others in if p line then line ∷ kept else kept

-- the number of the digits that a text begins with, after those that were read
unfoldable pub digits_value : ℕ → List ℕ → ℕ
digits_value n [] = n
digits_value n (c ∷ s) =
    let more = digits_value (n * 10 + (c - b'0')) s in if is_digit c then more else n

-- a number of type int
pub data ExitStatus : Type 0 where
  plus minus : ℕ → ExitStatus

-- Sscanf of "%d" into a variable that holds 0: a sign, if there is one, and digits; without digits, and
-- for a number that is no int, the variable stays 0.
unfoldable pub scan_int : List ℕ → ExitStatus
scan_int s =
    let positive : List ℕ → ExitStatus =
      λ t. if ltb (digits_value 0 t) 9223372036854775808 then plus (digits_value 0 t) else plus 0 in
    elim s [
      | [] ↦ plus 0
      | c ∷ t ↦
          if c == b'-'
          then (if leb (digits_value 0 t) 9223372036854775808
              then minus (digits_value 0 t)
              else plus 0)
          else if c == b'+'
          then positive t
          else positive (c ∷ t)
    ]

abbrev pub first_line : List (List ℕ) → List ℕ
first_line [] = []
first_line (line ∷ others) = line

pub data GsOutput : Type 0 where
  -- the output and the exit code
  gs_output : List ℕ → ExitStatus → GsOutput
  gs_error : String → GsOutput

unfoldable pub clean : List ℕ → List ℕ → List ℕ → List ℕ
clean id command output =
    trim_space (join_lines (keep_lines (is_output_line id command) (lines_of output)))

-- what is read of the output, without its escape sequences; `errors` is the standard error
unfoldable pub read_output : List ℕ → List ℕ → List ℕ → List ℕ → GsOutput
read_output id command raw errors = elim (cut (start_marker id) raw) [
  | none ↦
      if contains errors (codes "takes longer") || contains errors (codes "Connecting")
      then gs_error "GSSocket timed out. Check gs-netcat is running on server"
      else gs_error "GSSocket connection failed"
  | some (noise, content) ↦ elim (cut (end_marker id) content) [
    | none ↦ gs_output (clean id command content) (plus 0)
    | some (output, after) ↦
        gs_output (clean id command output) (scan_int (trim_space (first_line (lines_of after))))
  ]
]

-- A run of gs-netcat: what it wrote in time, or nothing in time.
pub data Netcat : Type 0 where
  wrote : List ℕ → List ℕ → Netcat
  too_slow : String → Netcat

-- `GSocketExecute`: `size` is the number of the command's bytes, `run` what gs-netcat does with a secret
-- and a script
unfoldable pub gsocket_execute :
    (String → List ℕ → Netcat) → List ℕ → String → List ℕ → ℕ → GsOutput
gsocket_execute run id secret command size =
    if ltb 4096 size
    then gs_error "command too long (max 4096 bytes)"
    else (elim (run secret (script id command)) [
      | too_slow e ↦ gs_error e
      | wrote out errors ↦ read_output id (without_markers command) (strip_ansi out) errors
    ])
