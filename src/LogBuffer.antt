-- ===== src/LogBuffer.antt =====
-- The buffers of internal/websocket/logs.go: for each key the latest entries.
pub mod Laws
use syncent.Base.{
  ℕ, ◌-◌, String, Bool, List, [], ◌∷◌, ◌++◌, length, drop, ltb, str_eq, if◌then◌else◌,
}

abbrev pub buffer_max : ℕ
buffer_max = 500

-- `buffers`, a map that answers the empty list where it has no entry; `A` is the type of an entry
abbrev pub Buffers {ℓ} : Type ℓ → Type ℓ
Buffers A = String → List A

abbrev pub latest {ℓ} : {A : Type ℓ} → List A → List A
latest buf = if ltb buffer_max (length buf) then drop (length buf - buffer_max) buf else buf

unfoldable pub add_to_buffer {ℓ} : {A : Type ℓ} → String → A → Buffers A → Buffers A
add_to_buffer key entry buffers k =
    if str_eq k key then latest (buffers key ++ entry ∷ []) else buffers k
