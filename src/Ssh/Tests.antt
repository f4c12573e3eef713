-- ===== src/Ssh/Tests.antt =====
-- Two calls to one server, of which one runs.
use syncent.Base.{◌≤◌, String, List, [], ◌∷◌, ◌≡◌, arith}
use syncent.Ssh.{SshManager, new_ssh_manager, taken, get_server_sem, send}
use syncent.Ssh.Slots.{
  running, waiting_server, waiting_global, Call, Slots, at, Work, enter_global, enter_server,
  Reachable, initial, arrive, work, holding, running_on, steps_left,
}
use syncent.Ssh.Bounds.{slots_bounded}
use syncent.Ssh.Refines.{Allowed, slots_refine}
use syncent.Ssh.Served.{none_more, one_more, AllFinished, every_call_finishes}

abbrev manager : SshManager
manager = new_ssh_manager 30 1 10 30

abbrev second_waits : Slots
second_waits = record {
  global = 1;
  servers = ("s1", 1) ∷ [];
  calls = at "s1" waiting_global ∷ at "s1" running ∷ [];
}

second_waits-Reachable : Reachable manager second_waits
unfolding taken get_server_sem send
second_waits-Reachable = arrive "s1" (
    work (work (arrive "s1" initial) (enter_global [] "s1" [] (omega arith)))
      (enter_server [] "s1" [] (omega arith)))

slots_bounded_example :
    (holding second_waits ≤ 30) × ((id : String) → running_on id second_waits ≤ 1)
slots_bounded_example = slots_bounded second_waits-Reachable

slots_refine_example :
    ((t : Slots) → Work manager second_waits t → Allowed manager second_waits.calls t.calls)
    × ((later : List Call)
        → Allowed manager second_waits.calls later
        → (t : Slots) × Work manager second_waits t × (t.calls ≡ later))
slots_refine_example = slots_refine second_waits-Reachable

abbrev both_inside : Slots
both_inside = record {
  global = 2;
  servers = ("s1", 1) ∷ [];
  calls = at "s1" waiting_server ∷ at "s1" running ∷ [];
}

every_call_finishes_example :
    (1 ≤ steps_left second_waits)
    × (((u : Slots) → Work manager both_inside u → ⊥) → AllFinished both_inside.calls)
every_call_finishes_example =
    every_call_finishes second_waits-Reachable (omega arith) (omega arith) 1 both_inside
      (one_more (enter_global [] "s1" (at "s1" running ∷ []) (omega arith)) none_more)
