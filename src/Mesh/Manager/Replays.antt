-- ===== src/Mesh/Manager/Replays.antt =====
-- No join request counts twice.
use hart_link.Common.{
  ℕ, ◌≡◌, ◌≢◌, refl, arith, sym, subst, ◌∙◌, inl, inr, ◌⊎◌, Bool, true, false, Bool-cases, List, [],
  ◌∷◌, ◌==◌, ==_self, if◌then◌else◌, Result, ok, err, Result-cases, All,
}
use hart_link.Common.Maps.{nat_key, is_some, lookup, put, erase, lookup-put, lookup-erase}
use hart_link.Mesh.Replay.{ReplayWindow, SecurityError, new_window, accept}
use hart_link.Mesh.Replay.History
use hart_link.Mesh.Replay.History.{
  Remembers, recorded, verdict, ok_unseen, new_window-Remembers, accept-verdict, accept-Remembers,
}
use hart_link.Mesh.Schedule.{DeviceId, new_schedule}
use hart_link.Mesh.Graph.{NodeState}
use hart_link.Mesh.Manager.Rules.{apply_join_rule, join_authenticated_rule}
use hart_link.Mesh.Manager.{
  JoinRequest, JoinDecision, accepted, MeshManagerError, MeshManager, new_manager, forget_device,
  allow, revoke, window_of, rejoin, admit, join_authenticated,
}
use hart_link.Mesh.Manager.Runs.{
  Command, allowing, revoking, joining, measuring, losing, placing, run_command, run_commands,
}

-- The window of the device is true to accepted counters that have a property.
abbrev Tells : (List ℕ → Type 0) → List (DeviceId × ReplayWindow) → DeviceId → Type 0
Tells P windows d = (l : List ℕ) × Remembers (window_of d windows) l × P l

-- The command does not take the device's window away.
abbrev pub Keeps : DeviceId → Command → Type 0
Keeps d (allowing e key) = (d == e) ≡ false
Keeps d (revoking e) = (d == e) ≡ false
Keeps d (joining request) = Unit
Keeps d (measuring left right health) = Unit
Keeps d (losing e) = Unit
Keeps d (placing cell) = Unit

window_of-put :
    (z d : DeviceId) (w : ReplayWindow) (windows : List (DeviceId × ReplayWindow))
    → window_of z (put d w windows) ≡ (if z == d then w else window_of z windows)
unfolding window_of nat_key
window_of-put z d w windows = ground (arith, lookup-put z d w windows)

window_of-erase :
    (z d : DeviceId) (windows : List (DeviceId × ReplayWindow))
    → window_of z (erase d windows) ≡ (if z == d then new_window else window_of z windows)
unfolding window_of nat_key
window_of-erase z d windows = ground (arith, lookup-erase z d windows)

-- The check of a request's counter.
abbrev check : MeshManager → JoinRequest → Result SecurityError (Unit {0}) × ReplayWindow
check m request = accept (window_of request.device m.replay) request.security_counter

-- What a join does to the windows: nothing, and it is not accepted; or it checks the counter, and is accepted
-- only if the window accepts.
abbrev Checked :
    MeshManager → JoinRequest → Result MeshManagerError JoinDecision × MeshManager → Type 0
Checked m request o =
    ((o.1.replay ≡ m.replay) × ((k : ℕ) → o.0 ≢ ok (accepted k)))
    ⊎ ((o.1.replay ≡ put request.device (check m request).1 m.replay)
        × ((k : ℕ) → o.0 ≡ ok (accepted k) → (check m request).0 ≡ ok tt))

rejoin-Checked :
    (m : MeshManager) (request : JoinRequest) (node : NodeState)
    → Checked m request (rejoin m request node)
unfolding rejoin
rejoin-Checked m request node = elim (Result-cases (check m request).0) [
  | inl (tt, q) ↦ rw (rejoin, q) (inr (refl, λ k e. refl))
  | inr (x, q) ↦ rw (rejoin, q) (inr (refl, λ k e. absurd (cc)))
]

admit-Checked : (m : MeshManager) (request : JoinRequest) → Checked m request (admit m request)
unfolding admit
admit-Checked m request = elim (Bool-cases (m.next_nickname == 0)) [
  | inl full ↦ rw (admit, full) (inl (refl, λ k e. absurd (cc)))
  | inr room ↦ elim (Result-cases (check m request).0) [
    | inl (tt, q) ↦ rw (admit, room, q) (inr (refl, λ k e. refl))
    | inr (x, q) ↦ rw (admit, room, q) (inr (refl, λ k e. absurd (cc)))
  ]
]

join_authenticated-Checked :
    (authenticate : JoinRequest → List ℕ → Bool) (m : MeshManager) (request : JoinRequest)
    → Checked m request (join_authenticated authenticate m request)
join_authenticated-Checked authenticate m request =
    join_authenticated_rule m request (Checked m request) authenticate
      (λ away. inl (refl, λ k e. absurd (cc))) (λ home h. inl (refl, λ k e. absurd (cc)))
      (λ key k bad. inl (refl, λ k e. absurd (cc)))
      (λ key k good home listed.
        apply_join_rule m request (Checked m request) home listed (ground (arith, k))
          (λ node e running. rejoin-Checked m request node) (admit-Checked m request))

recorded_kept :
    (r : Result SecurityError (Unit {0})) (c x : ℕ) (l : List ℕ)
    → History.accepted c l ≡ true
    → History.accepted c (recorded r x l) ≡ true
recorded_kept (ok u) c x l h = ground (arith, h)
recorded_kept (err e) c x l h = h

-- A counter is a property of a history that no further counter undoes; so is nothing at all.
module _ (P : List ℕ → Type 0)
    (lasts : (r : Result SecurityError (Unit {0})) (x : ℕ) (l : List ℕ)
      → P l
      → P (recorded r x l)) where
  put-Tells :
      (m : MeshManager) (request : JoinRequest) (d : DeviceId)
      (windows : List (DeviceId × ReplayWindow))
      → windows ≡ put request.device (check m request).1 m.replay
      → Tells P m.replay d
      → Tells P windows d
  put-Tells m request d windows e (l, r, h) = elim (Bool-cases (d == request.device)) [
    | inr away ↦ (l, rw (e, window_of-put d request.device (check m request).1 m.replay, away) r, h)
    | inl here ↦
        let same : d ≡ request.device = ground (arith, here) in
        let own : Remembers (window_of request.device m.replay) l =
          subst (λ z. Remembers (window_of z m.replay) l) same r in
        let c = request.security_counter in
        (
          recorded (check m request).0 c l,
          rw (e, window_of-put d request.device (check m request).1 m.replay, here)
              (accept-Remembers (window_of request.device m.replay) l own c),
          lasts (check m request).0 c l h,
        )
  ]

  join-Tells :
      (authenticate : JoinRequest → List ℕ → Bool) (m : MeshManager) (request : JoinRequest)
      (d : DeviceId)
      → Tells P m.replay d
      → Tells P (join_authenticated authenticate m request).1.replay d
  join-Tells authenticate m request d t = elim (join_authenticated-Checked authenticate m request) [
    | inl (same, never) ↦ subst (λ w. Tells P w d) (sym same) t
    | inr (moved, only) ↦
        put-Tells m request d (join_authenticated authenticate m request).1.replay moved t
  ]

  erase-Tells :
      (windows : List (DeviceId × ReplayWindow)) (e d : DeviceId)
      → P [] ⊎ ((d == e) ≡ false)
      → Tells P windows d
      → Tells P (erase e windows) d
  erase-Tells windows e d h (l, r, p) = elim (Bool-cases (d == e)) [
    | inr away ↦ (l, rw (window_of-erase d e windows, away) r, p)
    | inl here ↦ elim h [
      | inl none_needed ↦
          ([], rw (window_of-erase d e windows, here) new_window-Remembers, none_needed)
      | inr away ↦ absurd (ground (arith, here, away))
    ]
  ]

  run_command-Tells :
      (authenticate : JoinRequest → List ℕ → Bool) (m : MeshManager) (d : DeviceId) (c : Command)
      → P [] ⊎ Keeps d c
      → Tells P m.replay d
      → Tells P (run_command authenticate m c).replay d
  unfolding run_command allow revoke forget_device
  run_command-Tells authenticate m d (allowing e key) h t =
      elim (Bool-cases (is_some (lookup e m.join_keys))) [
        | inl again ↦ rw (run_command, allow, again, forget_device) (erase-Tells m.replay e d h t)
        | inr first ↦ rw (run_command, allow, first) t
      ]
  run_command-Tells authenticate m d (revoking e) h t = erase-Tells m.replay e d h t
  run_command-Tells authenticate m d (joining request) h t = join-Tells authenticate m request d t
  run_command-Tells authenticate m d (measuring left right health) h t = t
  run_command-Tells authenticate m d (losing e) h t = t
  run_command-Tells authenticate m d (placing cell) h t = t

  run_commands-Tells :
      (authenticate : JoinRequest → List ℕ → Bool) (d : DeviceId) (cs : List Command)
      (m : MeshManager)
      → P [] ⊎ All (Keeps d) cs
      → Tells P m.replay d
      → Tells P (run_commands authenticate m cs).replay d
  unfolding run_commands
  run_commands-Tells authenticate d [] m h t = t
  run_commands-Tells authenticate d (c ∷ cs) m (inl free) t =
      run_commands-Tells authenticate d cs (run_command authenticate m c) (inl free)
        (run_command-Tells authenticate m d c (inl free) t)
  run_commands-Tells authenticate d (c ∷ cs) m (inr (k, ks)) t =
      run_commands-Tells authenticate d cs (run_command authenticate m c) (inr ks)
        (run_command-Tells authenticate m d c (inr k) t)

window_of_nothing : (d : DeviceId) → window_of d [] ≡ new_window
unfolding window_of lookup
window_of_nothing d = refl

-- In a manager just made, the windows tell no counters.
new_manager-Tells :
    (network size : ℕ) (m : MeshManager) (d : DeviceId)
    → new_manager network size ≡ ok m
    → Tells (λ l. Unit) m.replay d
unfolding new_manager
new_manager-Tells network size m d e = elim (Result-cases (new_schedule size)) [
  | inr (x, q) ↦ absurd (ground (arith, e, q))
  | inl (s, q) ↦
      let empty : m.replay ≡ [] = ground (arith, e, q) in
      ([], rw (empty, window_of_nothing d) new_window-Remembers, tt)
]

-- Accepting a request tells its counter.
join-Tells_counter :
    (authenticate : JoinRequest → List ℕ → Bool) (m : MeshManager) (request : JoinRequest) (n : ℕ)
    → Tells (λ l. Unit) m.replay request.device
    → (join_authenticated authenticate m request).0 ≡ ok (accepted n)
    → Tells
        (λ l. History.accepted request.security_counter l ≡ true)
        (join_authenticated authenticate m request).1.replay
        request.device
join-Tells_counter authenticate m request n (l, r, _) e =
    elim (join_authenticated-Checked authenticate m request) [
      | inl (same, never) ↦ absurd (never n e)
      | inr (moved, only) ↦
          let c = request.security_counter in
          let taken = only n e in
          let after : Remembers (check m request).1 (c ∷ l) =
            rw taken at (accept-Remembers (window_of request.device m.replay) l r c) in
          (
            c ∷ l,
            rw
                (
                  moved,
                  window_of-put request.device request.device (check m request).1 m.replay,
                  ==_self request.device,
                )
                after,
            rw (==_self c) refl,
          )
    ]

-- A counter that the window tells is not accepted.
join-told :
    (authenticate : JoinRequest → List ℕ → Bool) (m : MeshManager) (request : JoinRequest) (n : ℕ)
    → Tells (λ l. History.accepted request.security_counter l ≡ true) m.replay request.device
    → (join_authenticated authenticate m request).0 ≢ ok (accepted n)
join-told authenticate m request n (l, r, h) e =
    elim (join_authenticated-Checked authenticate m request) [
      | inl (same, never) ↦ never n e
      | inr (moved, only) ↦
          let w = window_of request.device m.replay in
          let unseen =
            ok_unseen w l request.security_counter
              (sym (accept-verdict w l r request.security_counter) ∙ only n e) in
          ground (arith, h, unseen)
    ]

-- Once a request is accepted, by a manager that was made and used in any way, no request of that device with
-- the same counter is accepted again, whatever is done in between but revoking the device or giving it a new
-- key, and whatever the verifier says.
pub join_authenticated-once :
    (authenticate : JoinRequest → List ℕ → Bool) (network size : ℕ) (m : MeshManager)
    → new_manager network size ≡ ok m
    → (before : List Command) (request : JoinRequest) (n : ℕ)
    → (join_authenticated authenticate (run_commands authenticate m before) request).0
      ≡ ok (accepted n)
    → (between : List Command) → All (Keeps request.device) between
    → (again : JoinRequest) → again.device ≡ request.device
    → again.security_counter ≡ request.security_counter
    → (k : ℕ)
    → (join_authenticated authenticate
        (run_commands authenticate
          (join_authenticated authenticate (run_commands authenticate m before) request).1
          between)
        again).0
      ≢ ok (accepted k)
join_authenticated-once authenticate network size m made before request n admitted between keeps
      again d c k =
    let P = λ (l : List ℕ). History.accepted request.security_counter l ≡ true in
    let start =
      run_commands-Tells (λ l. Unit) (λ r x l u. u) authenticate request.device before m (inl tt)
        (new_manager-Tells network size m request.device made) in
    let told =
      join-Tells_counter authenticate (run_commands authenticate m before) request n start
        admitted in
    let later =
      run_commands-Tells P (λ r x l. recorded_kept r request.security_counter x l) authenticate
        request.device between
        (join_authenticated authenticate (run_commands authenticate m before) request).1 (inr keeps)
        told in
    join-told authenticate _ again k (rw (d, c) later)
