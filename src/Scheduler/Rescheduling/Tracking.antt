-- ===== src/Scheduler/Rescheduling/Tracking.antt =====
-- The names that the scheduler tracks for an application, across a move and its rollback.
use proxima_scheduler.Prelude.{
  String, Bool, true, false, not, ◌&&◌, ◌≡◌, ◌≢◌, refl, ◌∙◌, Option, none, some, ◌==◌, string_eq,
  beq_ne, arith, Bool-cases, Option-cases, inl, inr, if◌then◌else◌,
}
use proxima_scheduler.Map.{Map}
use proxima_scheduler.Map
use proxima_scheduler.Scheduler.{Scheduler, DesiredApp, DesiredPod}
use proxima_scheduler.Scheduler.Placing.{with_pods}
use proxima_scheduler.Scheduler.Rescheduling.{retarget}

-- The entry that is tracked for an application under a name.
unfoldable pub tracked : Scheduler → String → String → Option DesiredPod
tracked s app name = elim (Map.lookup app s.desired_apps) [
  | none ↦ none
  | some d ↦ Map.lookup name d.pods_by_name
]

-- The application is desired.
abbrev IsDesired : Scheduler → String → Type 0
IsDesired s app = (d : DesiredApp) × (Map.lookup app s.desired_apps ≡ some d)

retarget_known :
    (s : Scheduler) (app old : String) (entry : DesiredPod) (d : DesiredApp)
    → app ≢ ""
    → Map.lookup app s.desired_apps ≡ some d
    → retarget s app old entry
      ≡ with_pods s app d (Map.insert entry.name entry (Map.delete old d.pods_by_name))
unfolding retarget
retarget_known s app old entry d set found = rw ((beq_ne app "").1 set, found)

tracked_known :
    (s : Scheduler) (app name : String) (d : DesiredApp)
    → Map.lookup app s.desired_apps ≡ some d
    → tracked s app name ≡ Map.lookup name d.pods_by_name
unfolding tracked
tracked_known s app name d found = rw (found, tracked)

IsDesired-retarget :
    (s : Scheduler) (app old : String) (entry : DesiredPod)
    → app ≢ ""
    → IsDesired s app
    → IsDesired (retarget s app old entry) app
IsDesired-retarget s app old entry set (d, found) =
    rw (retarget_known s app old entry d set found) (_, Map.lookup-insert_self app _ s.desired_apps)

-- A move of a pod of a desired application, name by name: the new entry is tracked under its name,
-- the old name is not tracked, and every other name of the application is as before.
tracked-retarget :
    (s : Scheduler) (app old : String) (entry : DesiredPod) (name : String)
    → app ≢ ""
    → IsDesired s app
    → tracked (retarget s app old entry) app name ≡ (
        if entry.name == name then some entry else if old == name then none else tracked s app name)
tracked-retarget s app old entry name set (d, found) =
    let pods = Map.insert entry.name entry (Map.delete old d.pods_by_name) in
    rw (retarget_known s app old entry d set found, tracked_known s app name d found)
      (tracked_known (with_pods s app d pods) app name (record d { pods_by_name = pods })
          (Map.lookup-insert_self app (record d { pods_by_name = pods }) s.desired_apps)
        ∙ simp (Map.lookup-insert, Map.lookup-delete))

tracked_congr :
    (s s' : Scheduler) (app name : String)
    → Map.lookup app s'.desired_apps ≡ Map.lookup app s.desired_apps
    → tracked s' app name ≡ tracked s app name
unfolding tracked
tracked_congr s s' app name e = rw (e, tracked)

-- The names of the other applications stay.
tracked-retarget_ne :
    (s : Scheduler) (app old : String) (entry : DesiredPod) (other name : String)
    → app ≢ other
    → tracked (retarget s app old entry) other name ≡ tracked s other name
unfolding retarget
tracked-retarget_ne s app old entry other name differ = elim (Bool-cases (app == "")) [
  | inl e ↦ rw (e, retarget) refl
  | inr e ↦ elim (Option-cases (Map.lookup app s.desired_apps)) [
    | inl m ↦ rw (e, m, retarget) refl
    | inr (d, f) ↦ tracked_congr s (retarget s app old entry) other name (
        rw (e, f, retarget)
          (Map.lookup-insert app other _ s.desired_apps ∙ rw ((beq_ne app other).1 differ)))
  ]
]

-- The rollback of a move, name by name: the pod's own name is tracked again, on its cluster and node,
-- the copy's name is not, and every other name of the desired application is as before the move.
tracked_rolled_back :
    (s : Scheduler) (app : String) (entry back : DesiredPod) (name : String)
    → app ≢ ""
    → IsDesired s app
    → tracked (retarget (retarget s app back.name entry) app entry.name back) app name ≡ (
        if back.name == name
        then some back
        else if entry.name == name
        then none
        else tracked s app name)
tracked_rolled_back s app entry back name set desired =
    tracked-retarget (retarget s app back.name entry) app entry.name back name set
      (IsDesired-retarget s app back.name entry set desired)
    ∙ rw (tracked-retarget s app back.name entry name set desired) (ground arith)

-- The application has a name, and is desired.
unfoldable pub is_known : Scheduler → String → Bool
is_known s app = not (app == "") && Map.has app s.desired_apps

known-IsDesired :
    (s : Scheduler) (app : String) → is_known s app ≡ true → (app ≢ "") × IsDesired s app
unfolding is_known Map.has
known-IsDesired s app known = elim (Bool-cases (app == "")) [
  | inl e ↦ cc (rw (is_known, e) at known)
  | inr e ↦ elim (Option-cases (Map.lookup app s.desired_apps)) [
    | inl m ↦ cc (rw (is_known, Map.has, e, m) at known)
    | inr (d, f) ↦ ((beq_ne app "").0 e, (d, f))
  ]
]

retarget_unknown :
    (s : Scheduler) (app old : String) (entry : DesiredPod)
    → is_known s app ≡ false
    → retarget s app old entry ≡ s
unfolding is_known retarget Map.has
retarget_unknown s app old entry unknown = elim (Bool-cases (app == "")) [
  | inl e ↦ rw (e, retarget) refl
  | inr e ↦ elim (Option-cases (Map.lookup app s.desired_apps)) [
    | inl m ↦ rw (e, m, retarget) refl
    | inr (d, f) ↦ cc (rw (is_known, Map.has, e, f) at unknown)
  ]
]

-- One entry is tracked for a known application, one name is not, and all else is tracked as before.
abbrev pub IsRetracked : Scheduler → Scheduler → String → DesiredPod → String → Type 0
IsRetracked s s' app entry gone =
    ((other name : String) → app ≢ other → tracked s' other name ≡ tracked s other name)
    × ((name : String)
        → tracked s' app name ≡ (
            if is_known s app
            then (if entry.name == name
                then some entry
                else if gone == name
                then none
                else tracked s app name)
            else tracked s app name))

pub retarget-IsRetracked :
    (s : Scheduler) (app old : String) (entry : DesiredPod)
    → IsRetracked s (retarget s app old entry) app entry old
retarget-IsRetracked s app old entry = (
  λ other name differ. tracked-retarget_ne s app old entry other name differ,
  λ name. elim (Bool-cases (is_known s app)) [
    | inl known ↦
        let (set, desired) = known-IsDesired s app known in
        rw known (tracked-retarget s app old entry name set desired)
    | inr unknown ↦ rw (unknown, retarget_unknown s app old entry unknown) refl
  ],
)

pub retarget-IsRetracked_back :
    (s : Scheduler) (app : String) (entry back : DesiredPod)
    → IsRetracked s
        (retarget (retarget s app back.name entry) app entry.name back)
        app
        back
        entry.name
retarget-IsRetracked_back s app entry back = (
  λ other name differ.
      tracked-retarget_ne (retarget s app back.name entry) app entry.name back other name differ
      ∙ tracked-retarget_ne s app back.name entry other name differ,
  λ name. elim (Bool-cases (is_known s app)) [
    | inl known ↦
        let (set, desired) = known-IsDesired s app known in
        rw known (tracked_rolled_back s app entry back name set desired)
    | inr unknown ↦
        rw
          (
            unknown,
            retarget_unknown s app back.name entry unknown,
            retarget_unknown s app entry.name back unknown,
          )
          refl
  ],
)
