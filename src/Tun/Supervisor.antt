-- ===== src/Tun/Supervisor.antt =====
-- engine/internal/tun/supervisor.go: the supervisor of the sing-box process. Each function here is
-- one stretch of code under the supervisor's mutex; Protocol puts them in the order in which the
-- calls and the goroutines run them. A run is the number of the process started; the processes, the
-- clean-up and the clock are seen through the arguments.
use hypomux_arch.Prelude.{
  ℕ, ◌+◌, ◌-◌, Bool, true, false, not, ◌&&◌, ◌||◌, List, [], ◌∷◌, ◌++◌, Option, none, some, ltb,
  leb, ◌==◌, if◌then◌else◌, length, drop,
}
use hypomux_arch.Prelude.Int.{ℤ, pos}
use hypomux_arch.Golang.Strings.{Text, bytes, is_empty, itoa}
use hypomux_arch.Golang.Time.{Time}
pub mod Tail
pub mod Protocol
pub mod Moves
pub mod Invariant
pub mod Single

pub data State : Type 0 where
  stopped starting running stopping failed : State

-- Go's `==` on the constants of `State`.
abbrev pub state_eq : State → State → Bool
state_eq stopped stopped = true
state_eq starting starting = true
state_eq running running = true
state_eq stopping stopping = true
state_eq failed failed = true
state_eq _ _ = false

pub record Status : Type 0 where
  pub state : State
  pub pid : ℕ
  pub started_at : Option Time
  pub exited_at : Option Time
  pub exit_code : Option ℤ
  pub last_error : Text
  pub config_path : Text

-- Status{State: state, ConfigPath: path}.
abbrev pub fresh : State → Text → Status
fresh state path = record {
  state = state;
  pid = 0;
  started_at = none;
  exited_at = none;
  exit_code = none;
  last_error = [];
  config_path = path;
}

pub record Supervisor : Type 0 where
  pub status : Status
  pub run : Option ℕ
  pub last_stderr : Text

abbrev pub new_supervisor : Supervisor
new_supervisor = record { status = fresh stopped []; run = none; last_stderr = [] }

-- `s.run == run`.
abbrev pub runs : Option ℕ → ℕ → Bool
runs none r = false
runs (some q) r = q == r

-- The start of `Activate`: nothing where it refuses.
unfoldable pub begin_activation : Text → Supervisor → Option Supervisor
begin_activation path s =
    if not (state_eq s.status.state stopped) && not (state_eq s.status.state failed)
    then none
    else some (record s { status = fresh starting path; last_stderr = [] })

unfoldable pub fail_start : Time → Text → Supervisor → Supervisor
fail_start now error s = record s {
  status = record (s.status) { state = failed; exited_at = some now; last_error = error };
}

-- `Activate` behind the start of the process.
unfoldable pub record_launch : ℕ → ℕ → Time → Supervisor → Supervisor
record_launch r pid now s = record s {
  run = some r;
  status = record (s.status) { pid = pid; started_at = some now };
}

-- The supervisor, and whether the activation succeeds.
unfoldable pub mark_running : ℕ → Supervisor → Supervisor × Bool
mark_running r s =
    if not (runs s.run r) || not (state_eq s.status.state starting)
    then (s, false)
    else (record s { status = record (s.status) { state = running } }, true)

-- The start of `Stop`: the run to terminate, if there is one.
unfoldable pub begin_stop : Supervisor → Supervisor × Option ℕ
begin_stop s = elim s.run [
  | none ↦ (record s { status = fresh stopped [] }, none)
  | some r ↦ (record s { status = record (s.status) { state = stopping } }, some r)
]

unfoldable pub end_stop : ℕ → Supervisor → Supervisor
end_stop r s = record s { run = if runs s.run r then none else s.run; status = fresh stopped [] }

-- The wait for the process may end with an error, whose text is given.
unfoldable pub exit_error : ℤ → Option Text → Text → Text
exit_error code error stderr =
    let result = bytes "sing-box exited unexpectedly (code=" ++ (itoa code ++ bytes ")") in
    if not (is_empty stderr)
    then result ++ (bytes ": " ++ stderr)
    else elim error [ none ↦ result | some text ↦ result ++ (bytes ": " ++ text) ]

-- `waitProcess` behind the end of the process.
unfoldable pub record_exit : ℕ → Bool → Time → ℤ → Option Text → Supervisor → Supervisor
unfolding exit_error
record_exit r intentional now code error s =
    let seen : Status = record (s.status) {
      exited_at = some now;
      exit_code = some code;
      pid = 0;
    } in
    if not (runs s.run r) then s else record s {
      status =
          if not intentional
          then record seen { state = failed; last_error = exit_error code error s.last_stderr }
          else record seen { state = stopped; last_error = [] };
    }

-- `waitProcess` where the clean-up failed: errors.Join puts the texts on two lines.
unfoldable pub record_cleanup_failure : ℕ → Bool → Text → Supervisor → Supervisor
record_cleanup_failure r intentional error s =
    if runs s.run r && not intentional
    then record s {
      status = record (s.status) {
        last_error = (s.status).last_error ++ (10 ∷ (bytes "TUN cleanup: " ++ error));
      };
    }
    else s

-- A line on the process's standard error, trimmed and not empty.
unfoldable pub record_stderr : Text → Supervisor → Supervisor
record_stderr line s = record s { last_stderr = line }

-- `tailBuffer`: the data after a write, with the limit.
unfoldable pub tail_write : ℕ → Text → Text → Text
tail_write limit buffer payload =
    let grown = buffer ++ payload in
    if limit == 0
    then buffer
    else if ltb limit (length grown)
    then drop (length grown - limit) grown
    else grown
