-- ===== src/Examples/Tunnels.antt =====
-- A run of the supervisor of engine/internal/tun/supervisor.go.
use hypomux_arch.Prelude.{ℕ, ◌≡◌, refl, ◌⊎◌, true, [], ◌∷◌, none, arith, if◌then◌else◌}
use hypomux_arch.Prelude.Int.{pos}
use hypomux_arch.Golang.Strings.{bytes}
use hypomux_arch.Tun.Supervisor.{
  running, stopped, failed, begin_activation, record_launch, mark_running, record_exit,
}
use hypomux_arch.Tun.Supervisor.Tail.{last, written, joined, written_eq}
use hypomux_arch.Tun.Supervisor.Protocol.{World, Step, Reach}
use hypomux_arch.Tun.Supervisor.Moves.{is_live}
use hypomux_arch.Tun.Supervisor.Invariant.{state_at_rest}
use hypomux_arch.Tun.Supervisor.Single.{one_process}

-- A process is started, is ready, and crashes.
abbrev up_and_running : (w : World) × Reach true w
unfolding begin_activation
up_and_running = (
  _,
  Reach.later
      (Reach.later (Reach.later Reach.begin (Step.activate (bytes "conf.json") _ refl refl))
        (Step.launch 42 10 refl))
      (Step.settle 0 refl),
)

abbrev crashed : (w : World) × Reach true w
unfolding begin_activation
crashed = (
  _,
  Reach.later (Reach.later up_and_running.1 (Step.exit 0 refl))
      (Step.report 0 true 20 (pos 1) none refl),
)

crash_noted : crashed.0.supervisor.status.last_error ≡ bytes "sing-box exited unexpectedly (code=1)"
unfolding begin_activation record_launch mark_running record_exit
crash_noted = refl

state_at_rest_example :
    let state = crashed.0.supervisor.status.state in
    if is_live crashed.0.supervisor.run crashed.0.stage
    then state ≡ running
    else (state ≡ stopped)
    ⊎ (state ≡ failed)
unfolding begin_activation crashed up_and_running
state_at_rest_example = state_at_rest crashed.1 refl

one_process_example : ◌≡◌ {A = ℕ} 0 0
unfolding begin_activation up_and_running
one_process_example = one_process {w = up_and_running.0} 0 0 up_and_running.1 refl refl

written_eq_example :
    written 4 [] (bytes "abc" ∷ bytes "de" ∷ []) ≡ last 4 (joined (bytes "abc" ∷ bytes "de" ∷ []))
written_eq_example = written_eq 4 (bytes "abc" ∷ bytes "de" ∷ []) (omega arith)
