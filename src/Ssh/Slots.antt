-- ===== src/Ssh/Slots.antt =====
-- Calls of ExecuteCommand and ExecuteBatch of internal/services/ssh_manager.go that share the
-- semaphores, each a goroutine: it takes a global slot, then one of its server, and when it is done
-- the deferred functions give them back in the opposite order.
use syncent.Base.{ℕ, suc, ◌+◌, ◌-◌, ◌<◌, String, List, [], ◌∷◌, ◌++◌, str_eq, if◌then◌else◌}
use syncent.Ssh.{SshManager, taken, get_server_sem, send, receive}

pub data Phase : Type 0 where
  waiting_global waiting_server running leaving finished : Phase

pub record Call : Type 0 where
  pub server : String
  pub phase : Phase

pub record Slots : Type 0 where
  pub global : ℕ
  pub servers : List (String × ℕ)
  pub calls : List Call

abbrev pub no_calls : Slots
no_calls = record { global = 0; servers = []; calls = [] }

abbrev pub at : String → Phase → Call
at id phase = record { server = id; phase = phase }

-- A step of one call, whatever the others wait for.
pub data Work (m : SshManager) : Slots → Slots → Type 0 where
  enter_global :
      {g : ℕ} {servers : List (String × ℕ)} (before : List Call) (id : String) (after : List Call)
      → g < m.max_global
      → Work m
          (record { global = g; servers = servers; calls = before ++ at id waiting_global ∷ after })
          (record {
            global = suc g;
            servers = servers;
            calls = before ++ at id waiting_server ∷ after;
          })
  enter_server :
      {g : ℕ} {servers : List (String × ℕ)} (before : List Call) (id : String) (after : List Call)
      → taken id (get_server_sem id servers) < m.max_per_server
      → Work m
          (record { global = g; servers = servers; calls = before ++ at id waiting_server ∷ after })
          (record {
            global = g;
            servers = send id (get_server_sem id servers);
            calls = before ++ at id running ∷ after;
          })
  leave_server :
      {g : ℕ} {servers : List (String × ℕ)} (before : List Call) (id : String) (after : List Call)
      → Work m
          (record { global = g; servers = servers; calls = before ++ at id running ∷ after })
          (record {
            global = g;
            servers = receive id servers;
            calls = before ++ at id leaving ∷ after;
          })
  leave_global :
      {g : ℕ} {servers : List (String × ℕ)} (before : List Call) (id : String) (after : List Call)
      → Work m
          (record { global = g; servers = servers; calls = before ++ at id leaving ∷ after })
          (record { global = g - 1; servers = servers; calls = before ++ at id finished ∷ after })

pub data Reachable (m : SshManager) : Slots → Type 0 where
  initial : Reachable m no_calls
  arrive :
      {s : Slots} (id : String)
      → Reachable m s
      → Reachable m (record s { calls = at id waiting_global ∷ s.calls })
  work : {s t : Slots} → Reachable m s → Work m s t → Reachable m t

-- the sum of a weight over the calls
unfoldable pub total : (Call → ℕ) → List Call → ℕ
total w [] = 0
total w (c ∷ rest) = w c + total w rest

-- a call that holds a global slot counts one
unfoldable pub inside : Phase → ℕ
inside waiting_global = 0
inside waiting_server = 1
inside running = 1
inside leaving = 1
inside finished = 0

-- a call that holds a slot of a server counts one
unfoldable pub executing : Phase → ℕ
executing waiting_global = 0
executing waiting_server = 0
executing running = 1
executing leaving = 0
executing finished = 0

-- how many steps a call has left
unfoldable pub left : Phase → ℕ
left waiting_global = 4
left waiting_server = 3
left running = 2
left leaving = 1
left finished = 0

abbrev pub inside_call : Call → ℕ
inside_call c = inside c.phase

abbrev pub executing_on : String → Call → ℕ
executing_on id c = if str_eq c.server id then executing c.phase else 0

abbrev pub left_call : Call → ℕ
left_call c = left c.phase

-- The calls that hold a global slot, those that run on a server, and the steps that are left.
abbrev pub holding : Slots → ℕ
holding s = total inside_call s.calls

abbrev pub running_on : String → Slots → ℕ
running_on id s = total (executing_on id) s.calls

abbrev pub steps_left : Slots → ℕ
steps_left s = total left_call s.calls
