-- ===== src/Tun/Supervisor/Single.antt =====
-- How many processes the supervisor of engine/internal/tun/supervisor.go can have at once.
use hypomux_arch.Prelude.{
  ℕ, ◌≡◌, refl, sym, ap, ◌∙◌, Bool, true, false, not, none, some, arith, ◌==◌, inl, inr, Bool-cases,
}
use hypomux_arch.Tun.Supervisor.{fail_start, record_launch, record_stderr}
use hypomux_arch.Tun.Supervisor.Protocol.{World, Step, Reach, begin, later}
use hypomux_arch.Tun.Supervisor.Moves.{
  is_unrecorded, is_live, Inv, begin_activation-some, not_live, begin_stop-none, begin_stop-some,
  keep_cleanup, mark_running_run, record_exit_run,
}
use hypomux_arch.Tun.Supervisor.Invariant.{Reach-Inv}

-- A process whose end is not in the status yet is the current one.
abbrev IsCurrent : World → Type 0
IsCurrent w = (p : ℕ) → is_unrecorded (w.stage p) ≡ true → w.supervisor.run ≡ some p

some-ne-none : {p : ℕ} → none ≡ some p → ⊥
some-ne-none e = cc

true-ne-false : {b : Bool} → b ≡ true → b ≡ false → ⊥
true-ne-false e f = cc

Step-IsCurrent : {w v : World} → Step true w v → Inv w → IsCurrent w → IsCurrent v
unfolding fail_start record_launch record_stderr
Step-IsCurrent {w = w} (Step.activate path s here ok) inv current p h =
    (begin_activation-some path w.supervisor s ok).2 ∙ current p h
Step-IsCurrent {w = w} (Step.start_fails now error here) inv current p h = current p h
Step-IsCurrent {w = w} (Step.launch pid now here) inv current p h =
    elim (Bool-cases (w.next_run == p)) [
      | inl same ↦ ap some (equal w.next_run p same)
      | inr other ↦
          let run = current p (rw other at h) in
          let dead =
            (not_live (is_live w.supervisor.run w.stage) w.supervisor.status.state
              (rw here at inv.fit)).0 in
          let lives : is_live w.supervisor.run w.stage ≡ true = rw run (rw other at h) in
          absurd (true-ne-false lives dead)
    ]
  where
    equal : (a b : ℕ) → (a == b) ≡ true → a ≡ b
    equal a b e = ground arith
Step-IsCurrent {w = w} (Step.settle r here) inv current p h =
    mark_running_run r w.supervisor ∙ current p h
Step-IsCurrent {w = w} (Step.notice_exit r here ended) inv current p h = current p h
Step-IsCurrent {w = w} (Step.cancel r here) inv current p h = current p h
Step-IsCurrent {w = w} (Step.abort r now error here ended) inv current p h = current p h
Step-IsCurrent {w = w} (Step.stop_nothing here none_there) inv current p h =
    absurd (some-ne-none (sym ((begin_stop-none w.supervisor none_there).2) ∙ current p h))
Step-IsCurrent {w = w} (Step.stop r here there) inv current p h =
    (begin_stop-some w.supervisor r there).2 ∙ current p h
Step-IsCurrent {w = w} (Step.stopped_run r here ended) inv current p h =
    let own : some p ≡ some r = sym (current p h) ∙ (rw here at inv.points) in
    let same : p ≡ r = cc in
    let gone : is_unrecorded (w.stage p) ≡ false = rw same (rw ended refl) in
    absurd (true-ne-false h gone)
Step-IsCurrent {w = w} (Step.give_up r impatient here) inv current p h =
    absurd (true-ne-false refl impatient)
Step-IsCurrent {w = w} (Step.exit r here) inv current p h = elim (Bool-cases (r == p)) [
  | inl same ↦ current p (ap is_unrecorded (ap w.stage (equal p r same) ∙ here))
  | inr other ↦ current p (rw other at h)
]
  where
    equal : (p r : ℕ) → (r == p) ≡ true → p ≡ r
    equal p r e = ground arith
Step-IsCurrent {w = w} (Step.report r unexpected now code error here) inv current p h =
    elim (Bool-cases (r == p)) [
      | inl same ↦ absurd (true-ne-false (rw same at h) refl)
      | inr other ↦
          record_exit_run r (not unexpected) now code error w.supervisor ∙ current p (rw other at h)
    ]
Step-IsCurrent {w = w} (Step.cleanup_fails r unexpected error here) inv current p h =
    (keep_cleanup r (not unexpected) error w.supervisor).0 ∙ current p h
Step-IsCurrent {w = w} (Step.close r unexpected here) inv current p h = elim (Bool-cases (r == p)) [
  | inl same ↦ absurd (true-ne-false (rw same at h) refl)
  | inr other ↦ current p (rw other at h)
]
Step-IsCurrent {w = w} (Step.log line) inv current p h = current p h

Reach-IsCurrent : {w : World} → Reach true w → IsCurrent w
Reach-IsCurrent begin p h = absurd (true-ne-false h refl)
Reach-IsCurrent (later r st) p h = Step-IsCurrent st (Reach-Inv r) (Reach-IsCurrent r) p h

-- While no `Stop` is given up before its process has ended, two processes are never awaited at
-- once: a new one starts only after the end of the last is in the status.
pub one_process :
    {w : World} (p q : ℕ)
    → Reach true w
    → is_unrecorded (w.stage p) ≡ true
    → is_unrecorded (w.stage q) ≡ true
    → p ≡ q
one_process p q r hp hq =
    let same : some p ≡ some q = sym (Reach-IsCurrent r p hp) ∙ Reach-IsCurrent r q hq in cc
