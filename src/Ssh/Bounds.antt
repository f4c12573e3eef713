-- ===== src/Ssh/Bounds.antt =====
-- The semaphores count the calls that hold them.
use syncent.Base.{
  ℕ, suc, ◌+◌, ◌-◌, ◌≤◌, String, List, [], ◌∷◌, ◌++◌, str_eq, eq_iff, ◌≡◌, ◌≢◌, refl, sym, subst,
  ◌∙◌, arith, Bool-cases, inl, inr, if◌then◌else◌,
}
use syncent.Ssh.{SshManager, taken, get_server_sem, send, receive}
use syncent.Ssh.Slots.{
  waiting_global, waiting_server, running, leaving, finished, Call, Slots, at, Work, enter_global,
  enter_server, leave_server, leave_global, Reachable, initial, arrive, work, total, inside,
  executing, inside_call, executing_on, holding, running_on,
}

pub total-append : (w : Call → ℕ) (xs ys : List Call) → total w (xs ++ ys) ≡ total w xs + total w ys
unfolding total
total-append w [] ys = omega arith
total-append w (c ∷ xs) ys = let ih = total-append w xs ys in omega (arith, ih)

-- The sum around one call.
pub total-around :
    (w : Call → ℕ) (before : List Call) (c : Call) (after : List Call)
    → total w (before ++ c ∷ after) ≡ w c + (total w before + total w after)
unfolding total
total-around w before c after = let e = total-append w before (c ∷ after) in omega (arith, e)

pub taken-get_server_sem :
    (j i : String) (sems : List (String × ℕ)) → taken j (get_server_sem i sems) ≡ taken j sems
unfolding taken get_server_sem
taken-get_server_sem j i [] = ground arith
taken-get_server_sem j i ((k, n) ∷ rest) =
    let ih = taken-get_server_sem j i rest in ground (arith, ih)

taken-send :
    (i : String) (sems : List (String × ℕ))
    → taken i (send i (get_server_sem i sems)) ≡ suc (taken i sems)
unfolding taken get_server_sem send
taken-send i [] = ground (arith, eq_iff i i)
taken-send i ((k, n) ∷ rest) = elim (Bool-cases (str_eq k i)) [
  | inl e ↦ rw (e, e, e)
  | inr e ↦ rw (e, e, e) (taken-send i rest)
]

taken-send_other :
    (j i : String) (sems : List (String × ℕ)) → i ≢ j → taken j (send i sems) ≡ taken j sems
unfolding taken send
taken-send_other j i [] h = refl
taken-send_other j i ((k, n) ∷ rest) h =
    let ih = taken-send_other j i rest h in ground (arith, ih, eq_iff k i, eq_iff k j, h)

taken-receive :
    (i : String) (sems : List (String × ℕ)) → taken i (receive i sems) ≡ taken i sems - 1
unfolding taken receive
taken-receive i [] = omega arith
taken-receive i ((k, n) ∷ rest) = elim (Bool-cases (str_eq k i)) [
  | inl e ↦ rw (e, e)
  | inr e ↦ rw (e, e) (taken-receive i rest)
]

taken-receive_other :
    (j i : String) (sems : List (String × ℕ)) → i ≢ j → taken j (receive i sems) ≡ taken j sems
unfolding taken receive
taken-receive_other j i [] h = refl
taken-receive_other j i ((k, n) ∷ rest) h =
    let ih = taken-receive_other j i rest h in ground (arith, ih, eq_iff k i, eq_iff k j, h)

-- One call changes its phase.
pub total-move :
    (w : Call → ℕ) (before : List Call) (c d : Call) (after : List Call)
    → total w (before ++ d ∷ after) + w c ≡ total w (before ++ c ∷ after) + w d
total-move w before c d after =
    let a = total-around w before c after in
    let b = total-around w before d after in omega (arith, a, b)

taken-sent :
    (k i : String) (sems : List (String × ℕ))
    → taken k (send i (get_server_sem i sems)) ≡ taken k sems + (if str_eq i k then 1 else 0)
taken-sent k i sems = elim (Bool-cases (str_eq i k)) [
  | inl e ↦
      let same : i ≡ k = (eq_iff i k).0 e in
      rw (e, sym same) (let t = taken-send i sems in omega (arith, t))
  | inr e ↦
      let other : i ≢ k = λ h. cc (sym e ∙ (eq_iff i k).1 h) in
      rw (e, taken-send_other k i (get_server_sem i sems) other, taken-get_server_sem k i sems)
        (omega arith)
]

taken-received :
    (k i : String) (sems : List (String × ℕ))
    → taken k (receive i sems) ≡ taken k sems - (if str_eq i k then 1 else 0)
taken-received k i sems = elim (Bool-cases (str_eq i k)) [
  | inl e ↦ let same : i ≡ k = (eq_iff i k).0 e in rw (e, sym same) (taken-receive i sems)
  | inr e ↦
      let other : i ≢ k = λ h. cc (sym e ∙ (eq_iff i k).1 h) in
      rw (e, taken-receive_other k i sems other) (omega arith)
]

-- What the counters say of the calls, and their bounds.
pub record Inv (m : SshManager) (s : Slots) : Type 0 where
  pub global : s.global ≡ holding s
  pub server : (id : String) → taken id s.servers ≡ running_on id s
  pub global_bound : s.global ≤ m.max_global
  pub server_bound : (id : String) → taken id s.servers ≤ m.max_per_server

initial-Inv : (m : SshManager) → Inv m (record { global = 0; servers = []; calls = [] })
unfolding taken total
initial-Inv m = record {
  global = refl;
  server = λ id. refl;
  global_bound = omega arith;
  server_bound = λ id. omega arith;
}

Work-Inv : {m : SshManager} {s t : Slots} → Work m s t → Inv m s → Inv m t
unfolding inside executing
Work-Inv (enter_global before id after room) inv = record {
  global =
      let moved =
        total-move inside_call before (at id waiting_global) (at id waiting_server) after in
      omega (arith, moved, inv.global);
  server = λ k.
      let moved =
        total-move (executing_on k) before (at id waiting_global) (at id waiting_server) after in
      let e = inv.server k in ground (arith, moved, e);
  global_bound = omega (arith, room);
  server_bound = inv.server_bound;
}
Work-Inv {m} (enter_server {g} {servers} before id after room) inv = record {
  global =
      let moved = total-move inside_call before (at id waiting_server) (at id running) after in
      omega (arith, moved, inv.global);
  server = λ k.
      let moved = total-move (executing_on k) before (at id waiting_server) (at id running) after in
      let e = inv.server k in let sent = taken-sent k id servers in ground (arith, moved, e, sent);
  global_bound = inv.global_bound;
  server_bound = λ k. elim (Bool-cases (str_eq id k)) [
    | inl e ↦
        let same : id ≡ k = (eq_iff id k).0 e in
        let free = taken-get_server_sem id id servers in
        let sent = taken-send id servers in
        subst (λ j. taken j (send id (get_server_sem id servers)) ≤ m.max_per_server) same
          (omega (arith, room, free, sent))
    | inr e ↦
        let bound = inv.server_bound k in
        let sent = taken-sent k id servers in ground (arith, sent, bound, e)
  ];
}
Work-Inv (leave_server {servers} before id after) inv = record {
  global =
      let moved = total-move inside_call before (at id running) (at id leaving) after in
      omega (arith, moved, inv.global);
  server = λ k.
      let moved = total-move (executing_on k) before (at id running) (at id leaving) after in
      let e = inv.server k in
      let received = taken-received k id servers in ground (arith, moved, e, received);
  global_bound = inv.global_bound;
  server_bound = λ k.
      let bound = inv.server_bound k in
      let received = taken-received k id servers in omega (arith, received, bound);
}
Work-Inv (leave_global before id after) inv = record {
  global =
      let moved = total-move inside_call before (at id leaving) (at id finished) after in
      omega (arith, moved, inv.global);
  server = λ k.
      let moved = total-move (executing_on k) before (at id leaving) (at id finished) after in
      let e = inv.server k in ground (arith, moved, e);
  global_bound = let b = inv.global_bound in omega (arith, b);
  server_bound = inv.server_bound;
}

pub Reachable-Inv : {m : SshManager} {s : Slots} → Reachable m s → Inv m s
unfolding total inside executing
Reachable-Inv {m} initial = initial-Inv m
Reachable-Inv (arrive id r) =
    let inv = Reachable-Inv r in
    record {
      global = let e = inv.global in omega (arith, e);
      server = λ k. let e = inv.server k in ground (arith, e);
      global_bound = inv.global_bound;
      server_bound = inv.server_bound;
    }
Reachable-Inv (work r step) = Work-Inv step (Reachable-Inv r)

-- However the calls interleave, at most the configured number of them run on one server, and at most
-- the configured number hold a place of the whole program, running or waiting for their server.
pub slots_bounded :
    {m : SshManager} {s : Slots}
    → Reachable m s
    → (holding s ≤ m.max_global) × ((id : String) → running_on id s ≤ m.max_per_server)
slots_bounded r =
    let inv = Reachable-Inv r in
    (
      let e = inv.global in let b = inv.global_bound in omega (arith, e, b),
      λ id. let e = inv.server id in let b = inv.server_bound id in omega (arith, e, b),
    )
