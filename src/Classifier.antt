-- ===== src/Classifier.antt =====
-- internal/services/command_classifier.go. A command is the list of its code points.
pub mod Laws
mod Tests
use syncent.Base.{
  ℕ, ◌+◌, ◌-◌, String, Bool, true, false, not, ◌&&◌, ◌||◌, List, [], ◌∷◌, ◌++◌, map, any, leb, ◌==◌,
  if◌then◌else◌, codes, trim_space, same_text, has_prefix, folded,
}
use syncent.Regex.{Regex, eps, chr, seq, alt, star, word, finish, is_word, match_string}

pub data CommandTier : Type 0 where
  tier_safe tier_dangerous tier_blocked : CommandTier

-- a literal, with the flag i and without it
unfoldable pub lit_codes : List ℕ → Regex
lit_codes [] = eps
lit_codes (c ∷ s) = seq (chr (folded (λ d. d == c))) (lit_codes s)

unfoldable pub exact_codes : List ℕ → Regex
exact_codes [] = eps
exact_codes (c ∷ s) = seq (chr (λ d. d == c)) (exact_codes s)

abbrev lit : String → Regex
lit s = lit_codes (codes s)

abbrev exact : String → Regex
exact s = exact_codes (codes s)

abbrev plus : Regex → Regex
plus r = seq r (star r)

abbrev maybe : Regex → Regex
maybe r = alt r eps

unfoldable pub one_of : String → List String → Regex
one_of s [] = lit s
one_of s (t ∷ rest) = alt (lit s) (one_of t rest)

-- `\s`, `.`, `[a-zA-Z]` and `\w`
abbrev space_char : ℕ → Bool
space_char c = c == 9 || c == 10 || c == 12 || c == 13 || c == 32

abbrev spaces : Regex
spaces = star (chr space_char)

abbrev spaces1 : Regex
spaces1 = plus (chr space_char)

abbrev anything : Regex
anything = star (chr (λ c. not (c == 10)))

abbrev letters : Regex
letters = star (chr (folded (λ c. leb b'a' c && leb c b'z' || leb b'A' c && leb c b'Z')))

abbrev to_shell : Regex
to_shell = seq anything (seq (lit "|") (seq spaces (one_of "bash" ("sh" ∷ "zsh" ∷ "sudo" ∷ []))))

-- `\bw`, `\bw\b` and `\bw\s+(a|b|...)\b`
abbrev from_word : String → Regex → Regex
from_word s r = seq word (seq (lit s) r)

abbrev a_word : String → Regex
a_word s = from_word s word

abbrev verb : String → Regex → Regex
verb s r = from_word s (seq spaces1 (seq r word))

unfoldable pub blocked_patterns : List Regex
unfolding lit_codes exact_codes one_of folded
blocked_patterns =
    from_word "rm" (
      seq spaces1 (
        seq (maybe (seq (lit "-") (seq letters (seq (lit "f") (seq letters spaces1)))))
          (seq (lit "/") (seq spaces finish))))
    ∷ from_word "rm" (
        seq spaces1 (
          seq (lit "-") (
            seq letters
              (seq (lit "r") (seq letters (seq spaces1 (seq (lit "/") (seq spaces finish))))))))
    ∷ a_word "mkfs"
    ∷ from_word "dd" (seq spaces1 (lit "if="))
    ∷ seq (lit ">") (
        seq spaces (seq (lit "/dev/") (seq (chr (folded (λ c. c == b'h' || c == b's'))) (lit "d"))))
    ∷ seq (lit "curl") (seq spaces1 to_shell)
    ∷ seq (lit "wget") (seq spaces1 to_shell)
    ∷ seq (exact ":(){") (seq spaces (seq (exact ":|:&") (seq spaces (exact "};:"))))
    ∷ []

unfoldable pub dangerous_patterns : List Regex
unfolding lit_codes exact_codes one_of folded is_word
dangerous_patterns =
    a_word "reboot"
    ∷ a_word "shutdown"
    ∷ verb "systemctl" (one_of "restart" ("stop" ∷ "start" ∷ "enable" ∷ "disable" ∷ []))
    ∷ from_word "service" (
        seq spaces1 (
          seq (plus (chr (folded is_word)))
            (seq spaces1 (seq (one_of "restart" ("stop" ∷ "start" ∷ [])) word))))
    ∷ from_word "apt" (
        seq (maybe (lit "-get")) (
          seq spaces1
            (seq (one_of "install" ("remove" ∷ "purge" ∷ "upgrade" ∷ "dist-upgrade" ∷ [])) word)))
    ∷ verb "yum" (one_of "install" ("remove" ∷ "update" ∷ "upgrade" ∷ []))
    ∷ verb "dnf" (one_of "install" ("remove" ∷ "update" ∷ "upgrade" ∷ []))
    ∷ from_word "pacman"
        (seq spaces1 (seq (lit "-") (chr (folded (λ c. c == b'S' || c == b'R' || c == b'U')))))
    ∷ verb "docker" (one_of "restart" ("stop" ∷ "rm" ∷ "kill" ∷ "prune" ∷ []))
    ∷ verb "docker" (seq (lit "compose") (seq spaces1 (one_of "down" ("restart" ∷ "stop" ∷ []))))
    ∷ a_word "kill"
    ∷ a_word "pkill"
    ∷ a_word "killall"
    ∷ verb "nginx" (lit "-s")
    ∷ verb "ufw" (one_of "enable" ("disable" ∷ "allow" ∷ "deny" ∷ "delete" ∷ []))
    ∷ a_word "iptables"
    ∷ a_word "chmod"
    ∷ a_word "chown"
    ∷ a_word "useradd"
    ∷ a_word "userdel"
    ∷ a_word "passwd"
    ∷ []

abbrev pub safe_commands : List String
safe_commands =
    "uptime" ∷ "whoami" ∷ "hostname" ∷ "date" ∷ "id" ∷ "uname" ∷ "df" ∷ "free" ∷ "top" ∷ "htop"
    ∷ "vmstat" ∷ "iostat" ∷ "cat" ∷ "head" ∷ "tail" ∷ "less" ∷ "more" ∷ "wc" ∷ "grep" ∷ "ls" ∷ "ll"
    ∷ "pwd" ∷ "find" ∷ "which" ∷ "whereis" ∷ "ps" ∷ "pgrep" ∷ "lsof" ∷ "systemctl status"
    ∷ "systemctl is-active" ∷ "systemctl list-units" ∷ "ip addr" ∷ "ip route" ∷ "ifconfig" ∷ "ss"
    ∷ "netstat" ∷ "ping" ∷ "traceroute" ∷ "dig" ∷ "nslookup" ∷ "docker ps" ∷ "docker stats"
    ∷ "docker logs" ∷ "docker images" ∷ "docker compose ps" ∷ "docker compose logs" ∷ "timedatectl"
    ∷ "hostnamectl" ∷ "last" ∷ "w" ∷ "who" ∷ "journalctl" ∷ "dmesg" ∷ "vnstat" ∷ []

unfoldable pub some_match : List Regex → List ℕ → Bool
unfolding match_string
some_match [] cmd = false
some_match (p ∷ ps) cmd = if match_string p cmd then true else some_match ps cmd

unfoldable pub some_safe : List String → List ℕ → Bool
unfolding same_text has_prefix
some_safe [] cmd = false
some_safe (safe ∷ rest) cmd =
    if same_text cmd (codes safe) || has_prefix cmd (codes safe ++ b' ' ∷ [])
    then true
    else some_safe rest cmd

abbrev pub shell_pipe : Regex
shell_pipe =
    seq (exact "|")
      (seq spaces (alt (exact "bash") (alt (exact "sh") (alt (exact "zsh") (exact "sudo")))))

-- The tests of `ClassifyCommand` in their order, on the trimmed command. The last one, for a pipe to
-- a shell, answers as its other branch does.
unfoldable pub tier_by : List Regex → List Regex → List String → List ℕ → CommandTier
unfolding same_text some_match some_safe match_string exact_codes
tier_by blocked dangerous safe cmd =
    if same_text cmd []
    then tier_blocked
    else if some_match blocked cmd
    then tier_blocked
    else if some_match dangerous cmd
    then tier_dangerous
    else if some_safe safe cmd
    then tier_safe
    else if match_string shell_pipe cmd
    then tier_dangerous
    else tier_dangerous

unfoldable pub classify_command : List ℕ → CommandTier
classify_command command =
    tier_by blocked_patterns dangerous_patterns safe_commands (trim_space command)
