-- ===== src/Ssh/Served.antt =====
-- Every call of internal/services/ssh_manager.go gets its slots in the end.
use syncent.Base.{
  ℕ, suc, ◌+◌, ◌≤◌, String, List, [], ◌∷◌, ◌++◌, All, ◌≡◌, inl, inr, refl, sym, subst, ap, arith,
  Bool-cases, ◌==◌,
}
use syncent.Ssh.{SshManager}
use syncent.Ssh.Slots.{
  Phase, waiting_global, waiting_server, running, leaving, finished, Call, Slots, at, Work,
  enter_global, enter_server, leave_server, leave_global, Reachable, work, total, inside, executing,
  left, inside_call, executing_on, left_call, steps_left,
}
use syncent.Ssh.Bounds.{Inv, Reachable-Inv, total-around, total-move, taken-get_server_sem}

-- A number of steps of the calls that are there.
pub data Steps (m : SshManager) : ℕ → Slots → Slots → Type 0 where
  none_more : {s : Slots} → Steps m 0 s s
  one_more : {n : ℕ} {s t u : Slots} → Work m s t → Steps m n t u → Steps m (suc n) s u

steps_left-Work : {m : SshManager} {s t : Slots} → Work m s t → steps_left s ≡ suc (steps_left t)
unfolding left
steps_left-Work (enter_global before id after room) =
    let moved = total-move left_call before (at id waiting_global) (at id waiting_server) after in
    omega (arith, moved)
steps_left-Work (enter_server before id after room) =
    let moved = total-move left_call before (at id waiting_server) (at id running) after in
    omega (arith, moved)
steps_left-Work (leave_server before id after) =
    let moved = total-move left_call before (at id running) (at id leaving) after in
    omega (arith, moved)
steps_left-Work (leave_global before id after) =
    let moved = total-move left_call before (at id leaving) (at id finished) after in
    omega (arith, moved)

steps_left-Steps :
    {m : SshManager} {n : ℕ} {s t : Slots} → Steps m n s t → steps_left s ≡ n + steps_left t
steps_left-Steps none_more = omega arith
steps_left-Steps (one_more step rest) =
    let e = steps_left-Work step in let ih = steps_left-Steps rest in omega (arith, e, ih)

Reachable-Steps :
    {m : SshManager} {n : ℕ} {s t : Slots} → Reachable m s → Steps m n s t → Reachable m t
Reachable-Steps r none_more = r
Reachable-Steps r (one_more step rest) = Reachable-Steps (work r step) rest

-- A call somewhere among the calls, of a weight that is not zero.
Weighs : (Call → ℕ) → List Call → Type 0
Weighs w calls =
    (before : List Call) × (id : String) × (p : Phase) × (after : List Call) × (calls
      ≡ before ++ at id p ∷ after)
    × (1 ≤ w (at id p))

some-Weighs : (w : Call → ℕ) (calls : List Call) → 1 ≤ total w calls → Weighs w calls
unfolding total Weighs
some-Weighs w [] h = absurd (omega (arith, h))
some-Weighs w (c ∷ rest) h = elim (Bool-cases (w c == 0)) [
  | inr e ↦ ([], c.server, c.phase, rest, refl, ground (arith, e))
  | inl e ↦
      let (before, id, p, after, split, heavy) = some-Weighs w rest (ground (arith, e, h)) in
      (c ∷ before, id, p, after, ap (λ l. c ∷ l) split, heavy)
]

pub AllFinished : List Call → Type 0
AllFinished calls = All (λ c. c.phase ≡ finished) calls

left-finished : (p : Phase) → left p ≡ 0 → p ≡ finished
unfolding left
left-finished waiting_global h = absurd (omega (arith, h))
left-finished waiting_server h = absurd (omega (arith, h))
left-finished running h = absurd (omega (arith, h))
left-finished leaving h = absurd (omega (arith, h))
left-finished finished h = refl

none_left : (calls : List Call) → total left_call calls ≡ 0 → AllFinished calls
unfolding total AllFinished
none_left [] h = tt
none_left (c ∷ rest) h =
    (left-finished c.phase (omega (arith, h)), none_left rest (omega (arith, h)))

module _ (m : SshManager) (g : ℕ) (servers : List (String × ℕ)) where
  abbrev CanMove : List Call → Type 0
  CanMove calls = (t : Slots) × Work m (record { global = g; servers = servers; calls = calls }) t

  runs_on :
      (id : String) (before : List Call) (k : String) (p : Phase) (after : List Call)
      → 1 ≤ executing_on id (at k p)
      → CanMove (before ++ at k p ∷ after)
  unfolding executing
  runs_on id before k running after heavy = (_, leave_server before k after)
  runs_on id before k waiting_global after heavy = absurd (ground (arith, heavy))
  runs_on id before k waiting_server after heavy = absurd (ground (arith, heavy))
  runs_on id before k leaving after heavy = absurd (ground (arith, heavy))
  runs_on id before k finished after heavy = absurd (ground (arith, heavy))

  -- a call that runs on the server lets it go
  one_runs : (id : String) (calls : List Call) → 1 ≤ total (executing_on id) calls → CanMove calls
  unfolding Weighs
  one_runs id calls h =
      let (before, k, p, after, split, heavy) = some-Weighs (executing_on id) calls h in
      subst CanMove (sym split) (runs_on id before k p after heavy)

  module _ (calls : List Call)
      (inv : Inv m (record { global = g; servers = servers; calls = calls })) where
    -- A call that is inside moves, or one that runs on the server that it waits for.
    holder_moves :
        (before : List Call) (id : String) (p : Phase) (after : List Call)
        → calls ≡ before ++ at id p ∷ after
        → 1 ≤ m.max_per_server
        → 1 ≤ inside p
        → CanMove calls
    unfolding inside
    holder_moves before id waiting_global after split room h = absurd (omega (arith, h))
    holder_moves before id finished after split room h = absurd (omega (arith, h))
    holder_moves before id leaving after split room h =
        subst CanMove (sym split) (_, leave_global before id after)
    holder_moves before id running after split room h =
        subst CanMove (sym split) (_, leave_server before id after)
    holder_moves before id waiting_server after split room h =
        elim (Bool-cases (total (executing_on id) calls == 0)) [
          | inr e ↦ one_runs id calls (ground (arith, e))
          | inl e ↦
              let counted = inv.server id in
              let made = taken-get_server_sem id id servers in
              subst CanMove (sym split)
                (_, enter_server before id after (ground (arith, e, counted, made, room)))
        ]

    -- with nobody inside, a call that is left waits for its global slot
    outsider_moves :
        (before : List Call) (id : String) (p : Phase) (after : List Call)
        → calls ≡ before ++ at id p ∷ after
        → 1 ≤ m.max_global
        → total inside_call calls ≡ 0
        → 1 ≤ left p
        → CanMove calls
    unfolding inside left
    outsider_moves before id finished after split room empty h = absurd (omega (arith, h))
    outsider_moves before id waiting_global after split room empty h =
        let e = inv.global in
        subst CanMove (sym split) (_, enter_global before id after (omega (arith, e, empty, room)))
    outsider_moves before id waiting_server after split room empty h =
        let around = total-around inside_call before (at id waiting_server) after in
        absurd (omega (arith, around, empty, ap (total inside_call) split))
    outsider_moves before id running after split room empty h =
        let around = total-around inside_call before (at id running) after in
        absurd (omega (arith, around, empty, ap (total inside_call) split))
    outsider_moves before id leaving after split room empty h =
        let around = total-around inside_call before (at id leaving) after in
        absurd (omega (arith, around, empty, ap (total inside_call) split))

    progress : 1 ≤ m.max_global → 1 ≤ m.max_per_server → 1 ≤ total left_call calls → CanMove calls
    unfolding Weighs
    progress places room h = elim (Bool-cases (total inside_call calls == 0)) [
      | inl e ↦
          let (before, id, p, after, split, heavy) = some-Weighs left_call calls h in
          outsider_moves before id p after split places (ground (arith, e)) heavy
      | inr e ↦
          let (before, id, p, after, split, heavy) =
            some-Weighs inside_call calls (ground (arith, e)) in
          holder_moves before id p after split room heavy
    ]

-- Where both limits are at least one, the calls of a reachable state cannot wait for one another
-- for ever: whatever steps they take, they take no more of them than the state says are left, and
-- where no further step is possible every call has finished.
pub every_call_finishes :
    {m : SshManager} {s : Slots}
    → Reachable m s
    → 1 ≤ m.max_global
    → 1 ≤ m.max_per_server
    → (n : ℕ) (t : Slots) → Steps m n s t
    → (n ≤ steps_left s) × (((u : Slots) → Work m t u → ⊥) → AllFinished t.calls)
every_call_finishes {m} r places room n t run = (
  let e = steps_left-Steps run in omega (arith, e),
  λ stuck. none_left t.calls (
      let inv = Reachable-Inv (Reachable-Steps r run) in
      elim (Bool-cases (steps_left t == 0)) [
        | inl e ↦ ground (arith, e)
        | inr e ↦
            let next = progress m t.global t.servers t.calls inv places room (ground (arith, e)) in
            absurd (stuck next.0 next.1)
      ]),
)
