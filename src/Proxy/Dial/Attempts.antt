-- ===== src/Proxy/Dial/Attempts.antt =====
-- How many adapters the dialling of engine/internal/proxy/dial.go tries, and which.
use hypomux_arch.Prelude.{
  ℕ, zero, suc, ◌+◌, ◌≤◌, ◌≡◌, refl, sym, ap, subst, Bool, true, false, not, ◌&&◌, List, [], ◌∷◌,
  ◌++◌, Option, none, some, inl, inr, Bool-cases, if◌then◌else◌, All, length, arith, length-append,
}
use hypomux_arch.Prelude.Assoc.{contains, beq_refl}
use hypomux_arch.Prelude.Unique.{NoRepeat, NoRepeat_snoc}
use hypomux_arch.Golang.Strings.{Text, text_eq}
use hypomux_arch.Golang.Time.{Time}
use hypomux_arch.Golang.Net.{Ip, parse_ip}
use hypomux_arch.Proxy.Adapter.{Adapter}
use hypomux_arch.Proxy.Health.{HealthTable}
use hypomux_arch.Proxy.Health.Validity.{IsValid}
use hypomux_arch.Proxy.Candidates.{candidates}
use hypomux_arch.Proxy.Candidates.Selection.{mem-candidates}
use hypomux_arch.Proxy.Scheduler.{Scheduler, select_for_domain}
use hypomux_arch.Proxy.Scheduler.Choice.{mem-pick}
use hypomux_arch.Proxy.Dial.{
  Environment, Outcome, connected, comparative, local, unrelated, attempt, DialResult, established,
  all_failed, no_adapter, not_literal, exclude, give_up, Failure, Progress, settle_attempt,
  is_connected, choose, Clock, dial_loop, begin, attempts, target_domain, dial_target,
  dial_upstream,
}
use hypomux_arch.Proxy.Dial.Owner.{choose_own, settle_attempt-IsValid}

abbrev pub tried : List Failure → List Text
tried [] = []
tried (f ∷ fs) = f.adapter ∷ tried fs

tried_snoc :
    (fs : List Failure) (f : Failure) → tried (fs ++ (f ∷ [])) ≡ tried fs ++ (f.adapter ∷ [])
tried_snoc [] f = refl
tried_snoc (g ∷ fs) f = ap (λ xs. g.adapter ∷ xs) (tried_snoc fs f)

-- Every failure is of an adapter that is excluded by now, and no two are of the same.
record Apart (excluded : List Text) (fs : List Failure) : Type 0 where
  pub out : All (λ n. contains excluded n ≡ true) (tried fs)
  pub no_repeat : NoRepeat (tried fs)

contains-exclude :
    (name other : Text) (excluded : List Text)
    → contains excluded other ≡ true
    → contains (exclude name excluded) other ≡ true
contains-exclude name other excluded h = ground (arith, h)

contains-exclude_self :
    (name : Text) (excluded : List Text) → contains (exclude name excluded) name ≡ true
contains-exclude_self name excluded = elim (Bool-cases (contains excluded name)) [
  | inl there ↦ rw (there, there) refl
  | inr new ↦ rw (new, beq_refl name) refl
]

All_exclude :
    (name : Text) (excluded names : List Text)
    → All (λ n. contains excluded n ≡ true) names
    → All (λ n. contains (exclude name excluded) n ≡ true) names
All_exclude name excluded [] h = tt
All_exclude name excluded (n ∷ names) h =
    (contains-exclude name n excluded h.0, All_exclude name excluded names h.1)

absent :
    (name : Text) (excluded names : List Text)
    → contains excluded name ≡ false
    → All (λ n. contains excluded n ≡ true) names
    → contains names name ≡ false
absent name excluded [] new h = refl
absent name excluded (n ∷ names) new h =
    ground (arith, text_eq.beq_iff n name, new, h.0, absent name excluded names new h.1)

All_snoc :
    (excluded names : List Text) (name : Text)
    → All (λ n. contains excluded n ≡ true) names
    → contains excluded name ≡ true
    → All (λ n. contains excluded n ≡ true) (names ++ (name ∷ []))
All_snoc excluded [] name h j = (j, tt)
All_snoc excluded (n ∷ names) name h j = (h.0, All_snoc excluded names name h.1 j)

Apart-snoc :
    (excluded : List Text) (fs : List Failure) (f : Failure)
    → contains excluded f.adapter ≡ false
    → Apart excluded fs
    → Apart (exclude f.adapter excluded) (fs ++ (f ∷ []))
Apart-snoc excluded fs f new apart = record {
  out =
      subst (λ xs. All (λ n. contains (exclude f.adapter excluded) n ≡ true) xs)
        (sym (tried_snoc fs f))
        (All_snoc (exclude f.adapter excluded) (tried fs) f.adapter
          (All_exclude f.adapter excluded (tried fs) apart.out)
          (contains-exclude_self f.adapter excluded));
  no_repeat = subst NoRepeat (sym (tried_snoc fs f)) (
      NoRepeat_snoc (tried fs) f.adapter apart.no_repeat
        (absent f.adapter excluded (tried fs) new apart.out));
}

choose_new :
    (now : Time) (domain : Text) (p : Progress) (a : Adapter)
    → IsValid p.health
    → (choose now domain p).0 ≡ some a
    → contains p.excluded a.name ≡ false
unfolding choose select_for_domain candidates
choose_new now domain p a valid found =
    let s = p.scheduler in
    let usable =
      (mem-candidates p.health now s.adapters p.excluded domain a valid
        (mem-pick s (candidates p.health now s.adapters p.excluded domain).0 found)).1 in
    first_of (contains p.excluded a.name) _ usable
  where
    first_of : (b c : Bool) → (not b && c) ≡ true → b ≡ false
    first_of true c h = sym h
    first_of false c h = refl

excluded-choose :
    (now : Time) (domain : Text) (p : Progress) (a : Adapter)
    → (choose now domain p).0 ≡ some a
    → (choose now domain p).1.excluded ≡ exclude a.name p.excluded
unfolding choose
excluded-choose now domain p a found =
    ap (λ o. elim o [ none ↦ p.excluded | some b ↦ exclude b.name p.excluded ]) found

failures-choose :
    (now : Time) (domain : Text) (p : Progress) → (choose now domain p).1.failures ≡ p.failures
unfolding choose
failures-choose now domain p = refl

-- A list of failures at the end has at most `n`, and no two of the same adapter.
abbrev EndsApart : ℕ → Progress × DialResult → Type 0
EndsApart n (p, r) = (fs : List Failure) → r ≡ all_failed fs → (length fs ≤ n) × NoRepeat (tried fs)

give_up-EndsApart :
    (n : ℕ) (excluded : List Text) (fs : List Failure) (p : Progress)
    → length fs ≤ n
    → Apart excluded fs
    → EndsApart n (p, give_up fs)
give_up-EndsApart n excluded [] p h apart = λ gs e. absurd (no_adapter-ne e)
  where
    no_adapter-ne : {gs : List Failure} → no_adapter ≡ all_failed gs → ⊥
    no_adapter-ne e = cc
give_up-EndsApart n excluded (f ∷ fs) p h apart =
    λ gs e. subst (λ xs. (length xs ≤ n) × NoRepeat (tried xs)) (same e) (h, apart.no_repeat)
  where
    same : {gs : List Failure} → all_failed (f ∷ fs) ≡ all_failed gs → f ∷ fs ≡ gs
    same e = cc

-- After a round on the adapter `a`, which was not excluded before.
settle_attempt-Apart :
    (now : Time) (domain : Text) (a : Adapter) (o : Outcome) (p : Progress) (excluded : List Text)
    → contains excluded a.name ≡ false
    → p.excluded ≡ exclude a.name excluded
    → Apart excluded p.failures
    → is_connected o ≡ false
    → let p'' = settle_attempt now domain a o p in
      Apart p''.excluded p''.failures × (length p''.failures ≡ length p.failures + 1)
unfolding settle_attempt
settle_attempt-Apart now domain a connected p excluded new e apart h = cc
settle_attempt-Apart now domain a (comparative r) p excluded new e apart h =
    let f : Failure = record { adapter = a.name; reason = r } in
    (
      subst (λ x. Apart x (p.failures ++ (f ∷ []))) (sym e)
          (Apart-snoc excluded p.failures f new apart),
      length-append p.failures (f ∷ []),
    )
settle_attempt-Apart now domain a (local r) p excluded new e apart h =
    let f : Failure = record { adapter = a.name; reason = r } in
    (
      subst (λ x. Apart x (p.failures ++ (f ∷ []))) (sym e)
          (Apart-snoc excluded p.failures f new apart),
      length-append p.failures (f ∷ []),
    )
settle_attempt-Apart now domain a (unrelated r) p excluded new e apart h =
    let f : Failure = record { adapter = a.name; reason = r } in
    (
      subst (λ x. Apart x (p.failures ++ (f ∷ []))) (sym e)
          (Apart-snoc excluded p.failures f new apart),
      length-append p.failures (f ∷ []),
    )

dial_loop-EndsApart :
    (rounds n : ℕ) (env : Environment) (clock : Clock) (target : Option Ip) (domain : Text)
    (p : Progress)
    → IsValid p.health
    → Apart p.excluded p.failures
    → length p.failures + rounds ≤ n
    → EndsApart n (dial_loop rounds env clock target domain p)
unfolding dial_loop
dial_loop-EndsApart zero n env clock target domain p valid apart few =
    give_up-EndsApart n p.excluded p.failures p (omega (arith, few)) apart
dial_loop-EndsApart (suc rounds) n env clock target domain p valid apart few =
    let now = clock.begins rounds in
    round (dial_loop-EndsApart rounds n env clock target domain) (choose now domain p).1
      (choose now domain p).0
      (λ a found. (choose_new now domain p a valid found, excluded-choose now domain p a found))
      (choose_own now domain p valid).1
      (subst (λ fs. Apart p.excluded fs) (sym (failures-choose now domain p)) apart)
      (ap length (failures-choose now domain p))
  where
    ended :
        (b : Bool) (a : Adapter) (p'' : Progress) (rest : Progress × DialResult)
        → (b ≡ false → EndsApart n rest)
        → EndsApart n (if b then (p'', established a) else rest)
    ended true a p'' rest later = λ fs e. absurd (established-ne e)
      where
        established-ne : {fs : List Failure} → established a ≡ all_failed fs → ⊥
        established-ne e = cc
    ended false a p'' rest later = later refl

    round :
        ((q : Progress)
          → IsValid q.health
          → Apart q.excluded q.failures
          → length q.failures + rounds ≤ n
          → EndsApart n (dial_loop rounds env clock target domain q))
        → (p' : Progress) (selected : Option Adapter)
        → ((a : Adapter)
            → selected ≡ some a
            → (contains p.excluded a.name ≡ false) × (p'.excluded ≡ exclude a.name p.excluded))
        → IsValid p'.health
        → Apart p.excluded p'.failures
        → length p'.failures ≡ length p.failures
        → EndsApart n (elim selected [
          | none ↦ (p', give_up p'.failures)
          | some a ↦
              let o = attempt env target domain a in
              let p'' = settle_attempt (clock.ends rounds) domain a o p' in
              let rest = dial_loop rounds env clock target domain p'' in
              if is_connected o then (p'', established a) else rest
        ])
    round again p' none new valid' apart' same =
        give_up-EndsApart n p.excluded p'.failures p' (omega (arith, few, same)) apart'
    round again p' (some a) new valid' apart' same =
        let now = clock.ends rounds in
        let o = attempt env target domain a in
        let p'' = settle_attempt now domain a o p' in
        ended (is_connected o) a p'' (dial_loop rounds env clock target domain p'') (λ failed.
          let (unseen, excluded) = new a refl in
          let (apart'', grown) =
            settle_attempt-Apart now domain a o p' p.excluded unseen excluded apart' failed in
          again p'' (settle_attempt-IsValid now domain a o p' valid') apart''
            (omega (arith, few, same, grown)))

nothing-Apart : (excluded : List Text) → Apart excluded []
nothing-Apart excluded = record { out = tt; no_repeat = tt }

attempts-le : (target : Option Ip) (s : Scheduler) → 0 + attempts target s ≤ 2
attempts-le target s = ground arith

dial_target-EndsApart :
    (env : Environment) (clock : Clock) (host : Text) (literal_ip_only : Bool) (s : Scheduler)
    (h : HealthTable) (target : Option Ip)
    → IsValid h
    → EndsApart 2 (dial_target env clock host literal_ip_only s h target)
unfolding dial_target
dial_target-EndsApart env clock host true s h none valid = λ fs e. absurd (not_literal-ne e)
  where
    not_literal-ne : {fs : List Failure} → not_literal ≡ all_failed fs → ⊥
    not_literal-ne e = cc
dial_target-EndsApart env clock host false s h none valid =
    dial_loop-EndsApart (attempts none s) 2 env clock none (target_domain host none)
      (begin none s h) valid (nothing-Apart []) (attempts-le none s)
dial_target-EndsApart env clock host literal_ip_only s h (some ip) valid =
    dial_loop-EndsApart (attempts (some ip) s) 2 env clock (some ip) (target_domain host (some ip))
      (begin (some ip) s h) valid (nothing-Apart (begin (some ip) s h).excluded)
      (attempts-le (some ip) s)

-- When every attempt of a dialling fails, on a well-formed table, there were two at most, on
-- different adapters.
pub dial_upstream_fails :
    (env : Environment) (clock : Clock) (host : Text) (literal_ip_only : Bool) (s : Scheduler)
    (h : HealthTable) (fs : List Failure)
    → IsValid h
    → (dial_upstream env clock host literal_ip_only s h).1 ≡ all_failed fs
    → (length fs ≤ 2) × NoRepeat (tried fs)
unfolding dial_upstream
dial_upstream_fails env clock host literal_ip_only s h fs valid =
    dial_target-EndsApart env clock host literal_ip_only s h (parse_ip host) valid fs
