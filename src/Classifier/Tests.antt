-- ===== src/Classifier/Tests.antt =====
-- Commands on which the classifier is run.
use syncent.Base.{codes, trim_space, [], ◌≡◌, ◌≢◌, ◌↔◌, ◌⊎◌, refl}
use syncent.Classifier.{
  tier_safe, tier_blocked, tier_by, blocked_patterns, dangerous_patterns, safe_commands,
  classify_command,
}
use syncent.Classifier.Laws.{SomeOccurs, BeginsWithOne, classify_blocked_iff, classify_safe_iff}

root_removal : classify_command (codes "rm -rf /") ≡ tier_blocked
unfolding classify_command tier_by blocked_patterns dangerous_patterns trim_space
root_removal = refl

pipe_to_shell : classify_command (codes "cat x | bash") ≡ tier_safe
unfolding classify_command tier_by blocked_patterns dangerous_patterns trim_space
pipe_to_shell = refl

second_command : classify_command (codes "ls /; rm -rf /home") ≡ tier_safe
unfolding classify_command tier_by blocked_patterns dangerous_patterns trim_space
second_command = refl

classify_blocked_iff_example : (classify_command (codes "rm -rf /") ≡ tier_blocked) ↔ (
    (trim_space (codes "rm -rf /") ≡ [])
    ⊎ SomeOccurs blocked_patterns (trim_space (codes "rm -rf /")))
classify_blocked_iff_example = classify_blocked_iff (codes "rm -rf /")

classify_safe_iff_example : (classify_command (codes "cat x | bash") ≡ tier_safe) ↔ (
    (trim_space (codes "cat x | bash") ≢ [])
    × (SomeOccurs blocked_patterns (trim_space (codes "cat x | bash")) → ⊥)
    × (SomeOccurs dangerous_patterns (trim_space (codes "cat x | bash")) → ⊥)
    × BeginsWithOne safe_commands (trim_space (codes "cat x | bash")))
classify_safe_iff_example = classify_safe_iff (codes "cat x | bash")
