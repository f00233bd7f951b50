-- ===== src/Tun/Supervisor/Moves.antt =====
-- What each stretch of code of engine/internal/tun/supervisor.go does to the state, by where the
-- call in progress stands and whether the current process lives.
use hypomux_arch.Prelude.{
  ℕ, ◌≡◌, refl, ◌∙◌, inl, inr, [], Bool, true, false, not, ◌&&◌, ◌||◌, Option, none, some, arith,
  ◌==◌, if◌then◌else◌, Bool-cases, Option-cases,
}
use hypomux_arch.Prelude.Int.{ℤ}
use hypomux_arch.Golang.Strings.{Text}
use hypomux_arch.Golang.Time.{Time}
use hypomux_arch.Tun.Supervisor.{
  fresh, State, stopped, starting, running, stopping, failed, state_eq, Supervisor, runs,
  begin_activation, mark_running, begin_stop, end_stop, record_exit, record_cleanup_failure,
}
use hypomux_arch.Tun.Supervisor.Protocol.{
  Caller, idle, preparing, waiting, aborting, halting, Stage, watching, closed, exited, recorded,
  World, update,
}

-- The end of the process is not in the status yet.
abbrev pub is_unrecorded : Stage → Bool
is_unrecorded watching = true
is_unrecorded (exited unexpected) = true
is_unrecorded _ = false

abbrev pub is_live : Option ℕ → (ℕ → Stage) → Bool
is_live none stage = false
is_live (some r) stage = is_unrecorded (stage r)

abbrev pub is_down : State → Bool
is_down state = state_eq state stopped || state_eq state failed

-- The state that fits where the call stands and whether the current process lives.
abbrev pub fits : Caller → Bool → State → Bool
fits idle live state = if live then state_eq state running else is_down state
fits preparing live state = not live && state_eq state starting
fits (waiting r) live state = if live then state_eq state starting else is_down state
fits (aborting r) live state = if live then state_eq state starting else is_down state
fits (halting r) live state =
    if live then state_eq state stopping else (is_down state || state_eq state stopping)

abbrev pub PointsTo : Caller → Option ℕ → Type 0
PointsTo idle run = Unit
PointsTo preparing run = Unit
PointsTo (waiting r) run = run ≡ some r
PointsTo (aborting r) run = run ≡ some r
PointsTo (halting r) run = run ≡ some r

pub record Inv (w : World) : Type 0 where
  pub fit : fits w.caller (is_live w.supervisor.run w.stage) w.supervisor.status.state ≡ true
  pub points : PointsTo w.caller w.supervisor.run

pub is_live_other :
    (run : Option ℕ) (stage : ℕ → Stage) (r : ℕ) (s : Stage)
    → runs run r ≡ false
    → is_live run (update stage r s) ≡ is_live run stage
is_live_other none stage r s h = refl
is_live_other (some q) stage r s h = ground arith

pub is_live_same :
    (run : Option ℕ) (stage : ℕ → Stage) (r : ℕ) (s : Stage)
    → is_unrecorded s ≡ is_unrecorded (stage r)
    → is_live run (update stage r s) ≡ is_live run stage
is_live_same none stage r s h = refl
is_live_same (some q) stage r s h = ground arith

pub is_live_self :
    (run : Option ℕ) (stage : ℕ → Stage) (r : ℕ)
    → runs run r ≡ true
    → is_live run stage ≡ is_unrecorded (stage r)
is_live_self none stage r h = cc
is_live_self (some q) stage r h = ground arith

pub begin_activation-some :
    (path : Text) (s s' : Supervisor)
    → begin_activation path s ≡ some s'
    → (is_down s.status.state ≡ true) × (s'.status.state ≡ starting) × (s'.run ≡ s.run)
unfolding begin_activation
begin_activation-some path s s' h =
    elim (Bool-cases
      (not (state_eq s.status.state stopped) && not (state_eq s.status.state failed))) [
        | inl refused ↦
            let none_some : none ≡ some s' = rw refused at h in absurd (none-ne-some none_some)
        | inr down ↦
            let same : some (record s { status = fresh starting path; last_stderr = [] })
                ≡ some s' =
              rw down at h in
            (ground arith, cc, cc)
      ]
  where
    none-ne-some : {x : Supervisor} → none ≡ some x → ⊥
    none-ne-some e = cc

pub down_not_live :
    (live : Bool) (state : State)
    → fits idle live state ≡ true
    → is_down state ≡ true
    → live ≡ false
down_not_live true running h d = cc
down_not_live true stopped h d = cc
down_not_live true starting h d = cc
down_not_live true stopping h d = cc
down_not_live true failed h d = cc
down_not_live false state h d = refl

pub not_live :
    (live : Bool) (state : State)
    → fits preparing live state ≡ true
    → (live ≡ false) × (state ≡ starting)
not_live false starting h = (refl, refl)
not_live false stopped h = cc
not_live false running h = cc
not_live false stopping h = cc
not_live false failed h = cc
not_live true state h = cc

pub fits_report :
    (caller : Caller) (old new : State)
    → fits caller true old ≡ true
    → is_down new ≡ true
    → fits caller false new ≡ true
fits_report idle old new h d = d
fits_report preparing old new h d = cc
fits_report (waiting r) old new h d = d
fits_report (aborting r) old new h d = d
fits_report (halting r) old new h d = ground arith

pub same_number : (r : ℕ) → (r == r) ≡ true
same_number r = ground arith

pub false-ne-true : false ≡ true → ⊥
false-ne-true h = cc

pub closed-not_live :
    (run : Option ℕ) (stage : ℕ → Stage) (r : ℕ)
    → run ≡ some r
    → stage r ≡ closed
    → is_live run stage ≡ false
closed-not_live run stage r e c = rw (e, c) refl

pub settle-fits :
    (r : ℕ) (s : Supervisor) (stage : ℕ → Stage)
    → s.run ≡ some r
    → fits (waiting r) (is_live s.run stage) s.status.state ≡ true
    → fits idle (is_live (mark_running r s).0.run stage) (mark_running r s).0.status.state ≡ true
unfolding mark_running
settle-fits r s stage e h =
    let own : runs s.run r ≡ true = rw e (same_number r) in
    elim (Bool-cases (state_eq s.status.state starting)) [
      | inl ready ↦
          rw (own, ready) (rw (waiting-live (is_live s.run stage) s.status.state h ready) refl)
      | inr late ↦ rw (own, late) (waiting-down (is_live s.run stage) s.status.state h late)
    ]
  where
    waiting-live :
        (live : Bool) (state : State)
        → fits (waiting r) live state ≡ true
        → state_eq state starting ≡ true
        → live ≡ true
    waiting-live true state h e = refl
    waiting-live false starting h e = cc
    waiting-live false stopped h e = cc
    waiting-live false running h e = cc
    waiting-live false stopping h e = cc
    waiting-live false failed h e = cc

    waiting-down :
        (live : Bool) (state : State)
        → fits (waiting r) live state ≡ true
        → state_eq state starting ≡ false
        → fits idle live state ≡ true
    waiting-down true state h e = absurd (both h e)
      where
        both : {b : Bool} → b ≡ true → b ≡ false → ⊥
        both h e = cc
    waiting-down false state h e = h

pub begin_stop-none :
    (s : Supervisor)
    → (begin_stop s).1 ≡ none
    → ((begin_stop s).0.run ≡ none) × ((begin_stop s).0.status.state ≡ stopped) × (s.run ≡ none)
unfolding begin_stop
begin_stop-none s h = elim (Option-cases s.run) [
  | inl missing ↦ rw (missing, begin_stop) (missing, refl, refl)
  | inr (r, there) ↦
      let found : some r ≡ none = rw (there, begin_stop) at h in absurd (some-ne-none found)
]
  where
    some-ne-none : {r : ℕ} → some r ≡ none → ⊥
    some-ne-none e = cc

pub begin_stop-some :
    (s : Supervisor) (r : ℕ)
    → (begin_stop s).1 ≡ some r
    → ((begin_stop s).0.run ≡ some r)
      × ((begin_stop s).0.status.state ≡ stopping)
      × ((begin_stop s).0.run ≡ s.run)
unfolding begin_stop
begin_stop-some s r h = elim (Option-cases s.run) [
  | inl missing ↦
      let found : none ≡ some r = rw (missing, begin_stop) at h in absurd (none-ne-some found)
  | inr (q, there) ↦
      let found : some q ≡ some r = rw (there, begin_stop) at h in
      rw (there, begin_stop) (there ∙ found, refl, there)
]
  where
    none-ne-some : {r : ℕ} → none ≡ some r → ⊥
    none-ne-some e = cc

pub end_stop_down :
    (r : ℕ) (s : Supervisor)
    → s.run ≡ some r
    → ((end_stop r s).run ≡ none) × ((end_stop r s).status.state ≡ stopped)
unfolding end_stop
end_stop_down r s e = (rw e (rw (same_number r) refl), refl)

pub report-fits :
    (caller : Caller) (s : Supervisor) (stage : ℕ → Stage) (r : ℕ) (unexpected : Bool) (now : Time)
    (code : ℤ) (error : Option Text)
    → stage r ≡ exited unexpected
    → fits caller (is_live s.run stage) s.status.state ≡ true
    → let s' = record_exit r (not unexpected) now code error s in
      (s'.run ≡ s.run)
      × (fits caller (is_live s.run (update stage r (recorded unexpected))) s'.status.state ≡ true)
unfolding record_exit
report-fits caller s stage r unexpected now code error e h = elim (Bool-cases (runs s.run r)) [
  | inr other ↦ rw other (refl, rw (is_live_other s.run stage r (recorded unexpected) other) h)
  | inl own ↦
      let lived : is_live s.run stage ≡ true = is_live_self s.run stage r own ∙ rw e refl in
      let dead : is_live s.run (update stage r (recorded unexpected)) ≡ false =
        is_live_self s.run (update stage r (recorded unexpected)) r own ∙ rw (same_number r) refl in
      rw own (
        refl,
        rw dead (
            fits_report caller s.status.state _ (rw lived at h)
              (elim (Bool-cases unexpected) [ inl u ↦ rw u refl | inr k ↦ rw k refl ])),
      )
]

pub keep_cleanup :
    (r : ℕ) (intentional : Bool) (error : Text) (s : Supervisor)
    → ((record_cleanup_failure r intentional error s).run ≡ s.run)
      × ((record_cleanup_failure r intentional error s).status.state ≡ s.status.state)
unfolding record_cleanup_failure
keep_cleanup r intentional error s = elim (Bool-cases (runs s.run r && not intentional)) [
  | inl noted ↦ rw noted (refl, refl)
  | inr ignored ↦ rw ignored (refl, refl)
]

pub mark_running_run : (r : ℕ) (s : Supervisor) → (mark_running r s).0.run ≡ s.run
unfolding mark_running
mark_running_run r s =
    elim (Bool-cases (not (runs s.run r) || not (state_eq s.status.state starting))) [
      | inl late ↦ rw late refl
      | inr ready ↦ rw ready refl
    ]

pub record_exit_run :
    (r : ℕ) (intentional : Bool) (now : Time) (code : ℤ) (error : Option Text) (s : Supervisor)
    → (record_exit r intentional now code error s).run ≡ s.run
unfolding record_exit
record_exit_run r intentional now code error s = elim (Bool-cases (runs s.run r)) [
  | inl own ↦ rw own refl
  | inr other ↦ rw other refl
]
