-- ===== src/Tun/Supervisor/Invariant.antt =====
-- The status of the supervisor of engine/internal/tun/supervisor.go in every state that calls and
-- processes can lead to.
use hypomux_arch.Prelude.{◌≡◌, refl, sym, ap, ◌⊎◌, inl, inr, Bool, true, false, not, if◌then◌else◌}
use hypomux_arch.Tun.Supervisor.{
  State, stopped, starting, running, stopping, failed, fail_start, record_launch, record_stderr,
}
use hypomux_arch.Tun.Supervisor.Protocol.{idle, closed, exited, World, Step, Reach, begin, later}
use hypomux_arch.Tun.Supervisor.Moves.{
  is_unrecorded, is_live, fits, Inv, is_live_same, begin_activation-some, down_not_live, not_live,
  same_number, false-ne-true, closed-not_live, settle-fits, begin_stop-none, begin_stop-some,
  end_stop_down, report-fits, keep_cleanup,
}

Step-Inv : {patient : Bool} {w v : World} → Step patient w v → Inv w → Inv v
unfolding fail_start record_launch record_stderr
Step-Inv {w = w} (Step.activate path s here ok) inv =
    let (down, state, run) = begin_activation-some path w.supervisor s ok in
    let dead =
      down_not_live (is_live w.supervisor.run w.stage) w.supervisor.status.state
        (rw here at inv.fit) down in
    record { fit = rw (run, dead, state) refl; points = tt }
Step-Inv {w = w} (Step.start_fails now error here) inv =
    let (dead, state) =
      not_live (is_live w.supervisor.run w.stage) w.supervisor.status.state (rw here at inv.fit) in
    record { fit = rw dead refl; points = tt }
Step-Inv {w = w} (Step.launch pid now here) inv =
    let (dead, state) =
      not_live (is_live w.supervisor.run w.stage) w.supervisor.status.state (rw here at inv.fit) in
    record { fit = rw (same_number w.next_run, state) refl; points = refl }
Step-Inv {w = w} (Step.settle r here) inv = record {
  fit = settle-fits r w.supervisor w.stage (rw here at inv.points) (rw here at inv.fit);
  points = tt;
}
Step-Inv {w = w} (Step.notice_exit r here ended) inv =
    let dead = closed-not_live w.supervisor.run w.stage r (rw here at inv.points) ended in
    record { fit = rw dead (rw (here, dead) at inv.fit); points = tt }
Step-Inv {w = w} (Step.cancel r here) inv = record {
  fit = rw here at inv.fit;
  points = rw here at inv.points;
}
Step-Inv {w = w} (Step.abort r now error here ended) inv =
    let dead = closed-not_live w.supervisor.run w.stage r (rw here at inv.points) ended in
    record { fit = rw dead refl; points = tt }
Step-Inv {w = w} (Step.stop_nothing here none_there) inv =
    let (run, state, _) = begin_stop-none w.supervisor none_there in
    record { fit = rw (here, run, state) refl; points = rw here tt }
Step-Inv {w = w} (Step.stop r here there) inv =
    let (run, state, _) = begin_stop-some w.supervisor r there in
    record { fit = rw (run, state) (either (is_unrecorded (w.stage r))); points = run }
  where
    either : (b : Bool) → (if b then true else true) ≡ true
    either true = refl
    either false = refl
Step-Inv {w = w} (Step.stopped_run r here ended) inv =
    let (run, state) = end_stop_down r w.supervisor (rw here at inv.points) in
    record { fit = rw (run, state) refl; points = tt }
Step-Inv {w = w} (Step.give_up r impatient here) inv =
    let (run, state) = end_stop_down r w.supervisor (rw here at inv.points) in
    record { fit = rw (run, state) refl; points = tt }
Step-Inv {w = w} (Step.exit r here) inv = record {
  fit =
      rw
        (is_live_same w.supervisor.run w.stage r (exited (not (w.intentional r)))
          (ap is_unrecorded (sym here)))
        inv.fit;
  points = inv.points;
}
Step-Inv {w = w} (Step.report r unexpected now code error here) inv =
    let (run, fit) =
      report-fits w.caller w.supervisor w.stage r unexpected now code error here inv.fit in
    record { fit = rw run fit; points = rw run inv.points }
Step-Inv {w = w} (Step.cleanup_fails r unexpected error here) inv =
    let (run, state) = keep_cleanup r (not unexpected) error w.supervisor in
    record { fit = rw (run, state) inv.fit; points = rw run inv.points }
Step-Inv {w = w} (Step.close r unexpected here) inv = record {
  fit = rw (is_live_same w.supervisor.run w.stage r closed (ap is_unrecorded (sym here))) inv.fit;
  points = inv.points;
}
Step-Inv {w = w} (Step.log line) inv = record { fit = inv.fit; points = inv.points }

pub Reach-Inv : {patient : Bool} {w : World} → Reach patient w → Inv w
Reach-Inv begin = record { fit = refl; points = tt }
Reach-Inv (later r st) = Step-Inv st (Reach-Inv r)

-- Whatever calls are made and whatever becomes of the processes: while no call is in progress, the
-- state is `running` if the end of the current process is not in the status yet, and `stopped` or
-- `failed` otherwise, never `starting` or `stopping`.
pub state_at_rest :
    {patient : Bool} {w : World}
    → Reach patient w
    → w.caller ≡ idle
    → let state = w.supervisor.status.state in
      if is_live w.supervisor.run w.stage
      then state ≡ running
      else (state ≡ stopped)
      ⊎ (state ≡ failed)
state_at_rest {w = w} r here =
    read (is_live w.supervisor.run w.stage) w.supervisor.status.state (rw here at (Reach-Inv r).fit)
  where
    read :
        (live : Bool) (state : State)
        → fits idle live state ≡ true
        → (if live then state ≡ running else (state ≡ stopped) ⊎ (state ≡ failed))
    read true running h = refl
    read true stopped h = absurd (false-ne-true h)
    read true starting h = absurd (false-ne-true h)
    read true stopping h = absurd (false-ne-true h)
    read true failed h = absurd (false-ne-true h)
    read false stopped h = inl refl
    read false failed h = inr refl
    read false starting h = absurd (false-ne-true h)
    read false running h = absurd (false-ne-true h)
    read false stopping h = absurd (false-ne-true h)
