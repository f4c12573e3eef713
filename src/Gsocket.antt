-- ===== src/Gsocket.antt =====
-- internal/services/gsocket.go: servers that are reached by a gsocket.
pub mod Output
pub mod Lines
pub mod Markers
mod Tests
use syncent.Base.{
  String, none, some, List, [], ◌∷◌, trim_text, strip_prefix, split_lines, ◌≡◌, ◌⊎◌, inl, inr, refl,
}

-- what `GSocketExecute` gives: an error, or the output of the command
pub data GsRun : Type 0 where
  gs_failed gs_ran : String → GsRun

-- an operating system, a user and a kernel
pub record HostInfo : Type 0 where
  pub os_info : String
  pub username : String
  pub kernel : String

-- one line of the answer to a test
abbrev read_line : String → HostInfo → HostInfo
read_line line h =
    let h₁ : HostInfo = elim (strip_prefix line "OS:") [
      | none ↦ h
      | some v ↦ record h { os_info = v }
    ] in
    let h₂ : HostInfo = elim (strip_prefix line "USER:") [
      | none ↦ h₁
      | some v ↦ record h₁ { username = v }
    ] in
    elim (strip_prefix line "KERNEL:") [ none ↦ h₂ | some v ↦ record h₂ { kernel = v } ]

unfoldable pub read_lines : List String → HostInfo → HostInfo
read_lines [] h = h
read_lines (line ∷ rest) h = read_lines rest (read_line (trim_text line) h)

abbrev pub test_command : String
test_command =
    "echo \"OS:$(cat /etc/os-release 2>/dev/null | grep PRETTY_NAME | cut -d'\"' -f2 || uname -s)\" && echo \"USER:$(whoami)\" && echo \"KERNEL:$(uname -r)\""

pub data GsTest : Type 0 where
  gs_unreachable : String → GsTest
  gs_reached : HostInfo → GsTest

pub GsTest-cases :
    (t : GsTest) → ((e : String) × (t ≡ gs_unreachable e)) ⊎ ((h : HostInfo) × (t ≡ gs_reached h))
GsTest-cases (gs_unreachable e) = inl (e, refl)
GsTest-cases (gs_reached h) = inr (h, refl)

-- `GSocketTestConnection`; `execute` is what `GSocketExecute` gives for a secret and a command
unfoldable pub gsocket_test_connection : (String → String → GsRun) → String → GsTest
unfolding trim_text
gsocket_test_connection execute secret = elim (execute secret test_command) [
  | gs_failed e ↦ gs_unreachable e
  | gs_ran out ↦
      let unknown : HostInfo = record { os_info = "Linux"; username = "unknown"; kernel = "" } in
      gs_reached (read_lines (split_lines out) unknown)
]
