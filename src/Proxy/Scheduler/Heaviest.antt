-- ===== src/Proxy/Scheduler/Heaviest.antt =====
-- `selectWeighted` (engine/internal/proxy/scheduler.go) selects a candidate that is heaviest once
-- every candidate's weight has been added, where no two candidates have one name.
use hypomux_arch.Prelude.{
  ◌≡◌, refl, ap, ◌∙◌, false, List, [], ◌∷◌, arith, Memᴰ, inl, inr, Bool-cases,
}
use hypomux_arch.Prelude.Int.{ℤ, pos, ◌+ℤ◌, ◌≤ℤ◌, ltb_ℤ, ltb_ℤ→lt, ltb_ℤ→ge, int_laws}
use hypomux_arch.Prelude.Assoc.{beq, beq_refl, beq_comm, contains, contains_split, insert}
use hypomux_arch.Golang.Strings.{Text, text_eq}
use hypomux_arch.Proxy.Adapter.{Adapter}
use hypomux_arch.Proxy.Scheduler.{weight_of, heavier, weigh, select_weighted}
use hypomux_arch.Proxy.Scheduler.Weights.{names, DistinctNames, added, weight_of-insert}

-- An adapter of the list does not have a name that the list lacks.
pub beq_of_absent :
    (name : Text) (rest : List Adapter) (b : Adapter)
    → contains (names rest) name ≡ false
    → Memᴰ b rest
    → beq name b.name ≡ false
beq_of_absent name [] b absent m = elim m [ ]
beq_of_absent name (c ∷ rest) b absent (Memᴰ.head e) =
    rw e (beq_comm c.name name (contains_split c.name name (names rest) absent).0)
beq_of_absent name (c ∷ rest) b absent (Memᴰ.tail m) =
    beq_of_absent name rest b (contains_split c.name name (names rest) absent).1 m

added_absent :
    (rest : List Adapter) (name : Text)
    → contains (names rest) name ≡ false
    → added rest name ≡ pos 0
added_absent [] name absent = refl
added_absent (c ∷ rest) name absent =
    let (differs, later) = contains_split c.name name (names rest) absent in
    rw differs (omega (int_laws, added_absent rest name later))

-- A pass over the candidates adds its own weight to each.
pub added_mem :
    (cands : List Adapter) (a : Adapter)
    → DistinctNames cands
    → Memᴰ a cands
    → added cands a.name ≡ a.weight
added_mem [] a d m = elim m [ ]
added_mem (c ∷ rest) a d (Memᴰ.head e) =
    rw (e, beq_refl c.name) (omega (int_laws, added_absent rest c.name d.0))
added_mem (c ∷ rest) a d (Memᴰ.tail m) =
    rw (beq_of_absent c.name rest a d.0 m) (omega (int_laws, added_mem rest a d.1 m))

heavier-le-selected :
    (m : List (Text × ℤ)) (a selected : Adapter)
    → weight_of m selected.name ≤ℤ weight_of m (heavier m a selected).name
heavier-le-selected m a selected =
    elim (Bool-cases (ltb_ℤ (weight_of m selected.name) (weight_of m a.name))) [
      | inl less ↦
          rw less (omega (arith, ltb_ℤ→lt (weight_of m selected.name) (weight_of m a.name) less))
      | inr more ↦ rw more (omega arith)
    ]

heavier-le :
    (m : List (Text × ℤ)) (a selected : Adapter)
    → weight_of m a.name ≤ℤ weight_of m (heavier m a selected).name
heavier-le m a selected =
    elim (Bool-cases (ltb_ℤ (weight_of m selected.name) (weight_of m a.name))) [
      | inl less ↦ rw less (omega arith)
      | inr more ↦
          rw more (omega (arith, ltb_ℤ→ge (weight_of m selected.name) (weight_of m a.name) more))
    ]

heavier_absent :
    (m : List (Text × ℤ)) (a selected : Adapter) (rest : List Adapter)
    → contains (names rest) a.name ≡ false
    → contains (names rest) selected.name ≡ false
    → contains (names rest) (heavier m a selected).name ≡ false
heavier_absent m a selected rest absent absent' =
    elim (Bool-cases (ltb_ℤ (weight_of m selected.name) (weight_of m a.name))) [
      | inl less ↦ rw less absent
      | inr more ↦ rw more absent'
    ]

weight_of_kept :
    (name other : Text) (w : ℤ) (m : List (Text × ℤ))
    → beq name other ≡ false
    → weight_of (insert name w m) other ≡ weight_of m other
weight_of_kept name other w m differs = weight_of-insert name other w m ∙ rw differs refl

-- The loop leaves a weight that is no heavier than the one selected below the one selected last,
-- if it belongs to no adapter still to come.
weigh-le-done :
    (total : ℤ) (selected : Adapter) (m : List (Text × ℤ)) (rest : List Adapter) (name : Text)
    → DistinctNames rest
    → contains (names rest) selected.name ≡ false
    → contains (names rest) name ≡ false
    → weight_of m name ≤ℤ weight_of m selected.name
    → let (_, selected', m') = weigh total selected m rest in
      weight_of m' name ≤ℤ weight_of m' selected'.name
unfolding weigh
weigh-le-done total selected m [] name d absent absent' h = h
weigh-le-done total selected m (a ∷ rest) name d absent absent' h =
    let w = weight_of m a.name +ℤ a.weight in
    let m' = insert a.name w m in
    let (differs, later) = contains_split a.name selected.name (names rest) absent in
    let (differs', later') = contains_split a.name name (names rest) absent' in
    weigh-le-done (total +ℤ a.weight) (heavier m' a selected) m' rest name d.1
      (heavier_absent m' a selected rest d.0 later) later'
      (omega (
        int_laws,
        heavier-le-selected m' a selected,
        weight_of_kept a.name selected.name w m differs,
        weight_of_kept a.name name w m differs',
      ))

weigh-le-rest :
    (total : ℤ) (selected : Adapter) (m : List (Text × ℤ)) (rest : List Adapter) (b : Adapter)
    → DistinctNames rest
    → contains (names rest) selected.name ≡ false
    → Memᴰ b rest
    → let (_, selected', m') = weigh total selected m rest in
      weight_of m' b.name ≤ℤ weight_of m' selected'.name
unfolding weigh
weigh-le-rest total selected m [] b d absent n = elim n [ ]
weigh-le-rest total selected m (a ∷ rest) b d absent (Memᴰ.head e) =
    let m' = insert a.name (weight_of m a.name +ℤ a.weight) m in
    let later = (contains_split a.name selected.name (names rest) absent).1 in
    rw e (
      weigh-le-done (total +ℤ a.weight) (heavier m' a selected) m' rest a.name d.1
        (heavier_absent m' a selected rest d.0 later) d.0 (heavier-le m' a selected))
weigh-le-rest total selected m (a ∷ rest) b d absent (Memᴰ.tail n) =
    let m' = insert a.name (weight_of m a.name +ℤ a.weight) m in
    let later = (contains_split a.name selected.name (names rest) absent).1 in
    weigh-le-rest (total +ℤ a.weight) (heavier m' a selected) m' rest b d.1
      (heavier_absent m' a selected rest d.0 later) n

weigh-mem :
    (total : ℤ) (selected : Adapter) (m : List (Text × ℤ)) (rest : List Adapter)
    → Memᴰ (weigh total selected m rest).1 (selected ∷ rest)
unfolding weigh
weigh-mem total selected m [] = Memᴰ.head refl
weigh-mem total selected m (a ∷ rest) =
    let m' = insert a.name (weight_of m a.name +ℤ a.weight) m in
    elim (Bool-cases (ltb_ℤ (weight_of m' selected.name) (weight_of m' a.name))) [
      | inl less ↦ rw (less, weigh) (Memᴰ.tail (weigh-mem (total +ℤ a.weight) a m' rest))
      | inr more ↦ rw (more, weigh) (skip (weigh-mem (total +ℤ a.weight) selected m' rest))
    ]
  where
    skip : {c : Adapter} → Memᴰ c (selected ∷ rest) → Memᴰ c (selected ∷ a ∷ rest)
    skip (Memᴰ.head e) = Memᴰ.head e
    skip (Memᴰ.tail m) = Memᴰ.tail (Memᴰ.tail m)

heavier_self : (m : List (Text × ℤ)) (a : Adapter) → heavier m a a ≡ a
heavier_self m a = elim (Bool-cases (ltb_ℤ (weight_of m a.name) (weight_of m a.name))) [
  | inl less ↦ rw less
  | inr more ↦ rw more
]

weigh_first :
    (m : List (Text × ℤ)) (first : Adapter) (rest : List Adapter)
    → let m' = insert first.name (weight_of m first.name +ℤ first.weight) m in
      weigh (pos 0) first m (first ∷ rest) ≡ weigh (pos 0 +ℤ first.weight) first m' rest
unfolding weigh
weigh_first m first rest =
    let m' = insert first.name (weight_of m first.name +ℤ first.weight) m in
    ap (λ s. weigh (pos 0 +ℤ first.weight) s m' rest) (heavier_self m' first)

-- On the candidates `first ∷ rest` the loop starts from the first of them.
pub weigh-le :
    (m : List (Text × ℤ)) (first : Adapter) (rest : List Adapter) (b : Adapter)
    → DistinctNames (first ∷ rest)
    → Memᴰ b (first ∷ rest)
    → let (_, selected, m') = weigh (pos 0) first m (first ∷ rest) in
      weight_of m' b.name ≤ℤ weight_of m' selected.name
weigh-le m first rest b d (Memᴰ.head e) =
    let m' = insert first.name (weight_of m first.name +ℤ first.weight) m in
    rw (e, weigh_first m first rest)
      (weigh-le-done (pos 0 +ℤ first.weight) first m' rest first.name d.1 d.0 d.0 (omega arith))
weigh-le m first rest b d (Memᴰ.tail n) =
    let m' = insert first.name (weight_of m first.name +ℤ first.weight) m in
    rw (weigh_first m first rest) (weigh-le-rest (pos 0 +ℤ first.weight) first m' rest b d.1 d.0 n)

-- What is selected is one of the candidates.
pub mem-select_weighted :
    (m : List (Text × ℤ)) (first : Adapter) (rest : List Adapter)
    → Memᴰ (select_weighted m first rest).0 (first ∷ rest)
unfolding select_weighted
mem-select_weighted m first rest = collapse (weigh-mem (pos 0) first m (first ∷ rest))
  where
    collapse : {c : Adapter} → Memᴰ c (first ∷ first ∷ rest) → Memᴰ c (first ∷ rest)
    collapse (Memᴰ.head e) = Memᴰ.head e
    collapse (Memᴰ.tail m) = m
