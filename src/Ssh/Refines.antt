-- ===== src/Ssh/Refines.antt =====
-- The semaphores of internal/services/ssh_manager.go against a specification that has no counters.
use syncent.Base.{ℕ, ◌<◌, String, List, ◌∷◌, ◌++◌, ◌≡◌, refl, arith}
use syncent.Ssh.{SshManager}
use syncent.Ssh.Slots.{
  waiting_global, waiting_server, running, leaving, finished, Call, Slots, at, Work, enter_global,
  enter_server, leave_server, leave_global, Reachable, total, inside_call, executing_on,
}
use syncent.Ssh.Bounds.{Inv, Reachable-Inv, taken-get_server_sem}

-- What the limits allow, as said of the calls alone: one more may enter where fewer than the limit
-- are inside, and run where fewer than the limit run on its server; leaving is always allowed.
pub data Allowed (m : SshManager) : List Call → List Call → Type 0 where
  enter :
      (before : List Call) (id : String) (after : List Call)
      → total inside_call (before ++ at id waiting_global ∷ after) < m.max_global
      → Allowed m (before ++ at id waiting_global ∷ after) (before ++ at id waiting_server ∷ after)
  begin :
      (before : List Call) (id : String) (after : List Call)
      → total (executing_on id) (before ++ at id waiting_server ∷ after) < m.max_per_server
      → Allowed m (before ++ at id waiting_server ∷ after) (before ++ at id running ∷ after)
  end :
      (before : List Call) (id : String) (after : List Call)
      → Allowed m (before ++ at id running ∷ after) (before ++ at id leaving ∷ after)
  depart :
      (before : List Call) (id : String) (after : List Call)
      → Allowed m (before ++ at id leaving ∷ after) (before ++ at id finished ∷ after)

Work-Allowed : {m : SshManager} {s t : Slots} → Inv m s → Work m s t → Allowed m s.calls t.calls
Work-Allowed inv (enter_global before id after room) =
    enter before id after (let e = inv.global in omega (arith, e, room))
Work-Allowed inv (enter_server {servers} before id after room) = begin before id after (
    let e = inv.server id in
    let free = taken-get_server_sem id id servers in omega (arith, e, free, room))
Work-Allowed inv (leave_server before id after) = end before id after
Work-Allowed inv (leave_global before id after) = depart before id after

Allowed-step :
    {m : SshManager} {g : ℕ} {servers : List (String × ℕ)} {calls later : List Call}
    → Inv m (record { global = g; servers = servers; calls = calls })
    → Allowed m calls later
    → (t : Slots) × Work m (record { global = g; servers = servers; calls = calls }) t
      × (t.calls ≡ later)
Allowed-step inv (enter before id after room) =
    (_, enter_global before id after (let e = inv.global in omega (arith, e, room)), refl)
Allowed-step {servers} inv (begin before id after room) = (
  _,
  enter_server before id after (
      let e = inv.server id in
      let free = taken-get_server_sem id id servers in omega (arith, e, free, room)),
  refl,
)
Allowed-step inv (end before id after) = (_, leave_server before id after, refl)
Allowed-step inv (depart before id after) = (_, leave_global before id after, refl)

-- In every state that calls reach, the semaphores let a call go on exactly where the specification
-- allows it: each step of the program is one of the specification, and each step that the
-- specification allows is one that the program can take.
pub slots_refine :
    {m : SshManager} {s : Slots}
    → Reachable m s
    → ((t : Slots) → Work m s t → Allowed m s.calls t.calls)
      × ((later : List Call)
          → Allowed m s.calls later
          → (t : Slots) × Work m s t × (t.calls ≡ later))
slots_refine r =
    let inv = Reachable-Inv r in
    (λ t step. Work-Allowed inv step, λ later allowed. Allowed-step inv allowed)
