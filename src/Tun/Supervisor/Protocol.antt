-- ===== src/Tun/Supervisor/Protocol.antt =====
-- The calls `Activate` and `Stop` of engine/internal/tun/supervisor.go and the goroutine
-- `waitProcess` of every process, as steps. `stopMu` lets one call run at a time; the goroutines run
-- beside it, and each stretch of code under the other mutex is one step.
use hypomux_arch.Prelude.{
  ℕ, ◌+◌, ◌≡◌, Bool, true, false, not, Option, none, some, ◌==◌, if◌then◌else◌,
}
use hypomux_arch.Prelude.Int.{ℤ}
use hypomux_arch.Golang.Strings.{Text}
use hypomux_arch.Golang.Time.{Time}
use hypomux_arch.Tun.Supervisor.{
  Supervisor, new_supervisor, begin_activation, fail_start, record_launch, mark_running, begin_stop,
  end_stop, record_exit, record_cleanup_failure, record_stderr,
}

-- Where the call that holds `stopMu` stands: none, before the process starts, waiting for it to be
-- ready, waiting for the end of a process that it gave up, or of one that it stops.
pub data Caller : Type 0 where
  idle preparing : Caller
  waiting aborting halting : ℕ → Caller

-- Where the goroutine of a process stands: the process runs; it has ended, and the end was
-- unexpected or not; that is in the status; `done` is closed.
pub data Stage : Type 0 where
  absent watching closed : Stage
  exited recorded : Bool → Stage

pub record World : Type 0 where
  pub supervisor : Supervisor
  pub caller : Caller
  pub stage : ℕ → Stage
  pub intentional : ℕ → Bool
  pub next_run : ℕ

abbrev pub update {ℓ} : {A : Type ℓ} → (ℕ → A) → ℕ → A → ℕ → A
update f r a q = if r == q then a else f q

abbrev pub start : World
start = record {
  supervisor = new_supervisor;
  caller = idle;
  stage = λ r. absent;
  intentional = λ r. false;
  next_run = 0;
}

-- With `patient` the contexts of `Stop` are never cancelled before the process has ended.
pub data Step (patient : Bool) (w : World) : World → Type 0 where
  activate :
      (path : Text) (s : Supervisor)
      → w.caller ≡ idle
      → begin_activation path w.supervisor ≡ some s
      → Step patient w (record w { supervisor = s; caller = preparing })
  start_fails :
      (now : Time) (error : Text)
      → w.caller ≡ preparing
      → Step patient w (record w { supervisor = fail_start now error w.supervisor; caller = idle })
  launch :
      (pid : ℕ) (now : Time)
      → w.caller ≡ preparing
      → Step patient w (record {
        supervisor = record_launch w.next_run pid now w.supervisor;
        caller = waiting w.next_run;
        stage = update w.stage w.next_run watching;
        intentional = update w.intentional w.next_run false;
        next_run = w.next_run + 1;
      })
  settle :
      (r : ℕ)
      → w.caller ≡ waiting r
      → Step patient w (record w { supervisor = (mark_running r w.supervisor).0; caller = idle })
  notice_exit :
      (r : ℕ)
      → w.caller ≡ waiting r
      → w.stage r ≡ closed
      → Step patient w (record w { caller = idle })
  cancel :
      (r : ℕ)
      → w.caller ≡ waiting r
      → Step patient w (record w { caller = aborting r; intentional = update w.intentional r true })
  abort :
      (r : ℕ) (now : Time) (error : Text)
      → w.caller ≡ aborting r
      → w.stage r ≡ closed
      → Step patient w (record w { supervisor = fail_start now error w.supervisor; caller = idle })
  stop_nothing :
      w.caller ≡ idle
      → (begin_stop w.supervisor).1 ≡ none
      → Step patient w (record w { supervisor = (begin_stop w.supervisor).0 })
  stop :
      (r : ℕ)
      → w.caller ≡ idle
      → (begin_stop w.supervisor).1 ≡ some r
      → Step patient w (record w {
        supervisor = (begin_stop w.supervisor).0;
        caller = halting r;
        intentional = update w.intentional r true;
      })
  stopped_run :
      (r : ℕ)
      → w.caller ≡ halting r
      → w.stage r ≡ closed
      → Step patient w (record w { supervisor = end_stop r w.supervisor; caller = idle })
  give_up :
      (r : ℕ)
      → patient ≡ false
      → w.caller ≡ halting r
      → Step patient w (record w { supervisor = end_stop r w.supervisor; caller = idle })
  exit :
      (r : ℕ)
      → w.stage r ≡ watching
      → Step patient w (record w { stage = update w.stage r (exited (not (w.intentional r))) })
  report :
      (r : ℕ) (unexpected : Bool) (now : Time) (code : ℤ) (error : Option Text)
      → w.stage r ≡ exited unexpected
      → Step patient w (record w {
        supervisor = record_exit r (not unexpected) now code error w.supervisor;
        stage = update w.stage r (recorded unexpected);
      })
  cleanup_fails :
      (r : ℕ) (unexpected : Bool) (error : Text)
      → w.stage r ≡ recorded unexpected
      → Step patient w
          (record w { supervisor = record_cleanup_failure r (not unexpected) error w.supervisor })
  close :
      (r : ℕ) (unexpected : Bool)
      → w.stage r ≡ recorded unexpected
      → Step patient w (record w { stage = update w.stage r closed })
  log : (line : Text) → Step patient w (record w { supervisor = record_stderr line w.supervisor })

pub data Reach (patient : Bool) : World → Type 0 where
  begin : Reach patient start
  later : {w v : World} → Reach patient w → Step patient w v → Reach patient v
