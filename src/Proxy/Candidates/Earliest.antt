-- ===== src/Proxy/Candidates/Earliest.antt =====
-- `earliestCooldown` of engine/internal/proxy/health.go: one adapter whose cooldown ends first.
use hypomux_arch.Prelude.{
  ◌≤◌, ◌<◌, ◌≡◌, refl, sym, subst, false, List, [], ◌∷◌, arith, if◌then◌else◌, length, Memᴰ, inl,
  inr, Bool-cases, ltb→lt,
}
use hypomux_arch.Prelude.Assoc.{lookup}
use hypomux_arch.Golang.Strings.{Text, text_eq}
use hypomux_arch.Golang.Time.{Time, before}
use hypomux_arch.Proxy.Adapter.{Adapter}
use hypomux_arch.Proxy.Health.{AdapterHealth}
use hypomux_arch.Proxy.Candidates.{cooldown_of, earliest, earliest_cooldown}

abbrev pub cooldown : List (Text × AdapterHealth) → Adapter → Time
cooldown states a = cooldown_of (lookup a.name states)

not_before : (t u : Time) → before t u ≡ false → u ≤ t
not_before t u h = ground arith

mem_one : {x y : Adapter} → Memᴰ x (y ∷ []) → x ≡ y
mem_one (Memᴰ.head e) = e
mem_one (Memᴰ.tail m) = elim m [ ]

module _ (states : List (Text × AdapterHealth)) where
  earliest-le-selected :
      (selected : Adapter) (rest : List Adapter)
      → cooldown states (earliest states selected rest) ≤ cooldown states selected
  unfolding earliest
  earliest-le-selected selected [] = omega arith
  earliest-le-selected selected (a ∷ rest) =
      elim (Bool-cases (before (cooldown states a) (cooldown states selected))) [
        | inl sooner ↦
            rw (sooner, earliest) (omega (arith, earliest-le-selected a rest, ltb→lt _ _ sooner))
        | inr later ↦ rw (later, earliest) (earliest-le-selected selected rest)
      ]

  earliest-le :
      (selected : Adapter) (rest : List Adapter) (a : Adapter)
      → Memᴰ a rest
      → cooldown states (earliest states selected rest) ≤ cooldown states a
  unfolding earliest
  earliest-le selected [] a m = elim m [ ]
  earliest-le selected (b ∷ rest) a (Memᴰ.head e) =
      rw e (elim (Bool-cases (before (cooldown states b) (cooldown states selected))) [
        | inl sooner ↦ rw (sooner, earliest) (earliest-le-selected b rest)
        | inr later ↦
            rw (later, earliest)
              (omega (arith, earliest-le-selected selected rest, not_before _ _ later))
      ])
  earliest-le selected (b ∷ rest) a (Memᴰ.tail m) =
      earliest-le (if before (cooldown states b) (cooldown states selected) then b else selected)
        rest a m

  mem-earliest :
      (selected : Adapter) (rest : List Adapter)
      → Memᴰ (earliest states selected rest) (selected ∷ rest)
  unfolding earliest
  mem-earliest selected [] = Memᴰ.head refl
  mem-earliest selected (a ∷ rest) =
      elim (Bool-cases (before (cooldown states a) (cooldown states selected))) [
        | inl sooner ↦ rw sooner (Memᴰ.tail (mem-earliest a rest))
        | inr later ↦ rw later (skip (mem-earliest selected rest))
      ]
    where
      skip : {c : Adapter} → Memᴰ c (selected ∷ rest) → Memᴰ c (selected ∷ a ∷ rest)
      skip (Memᴰ.head e) = Memᴰ.head e
      skip (Memᴰ.tail m) = Memᴰ.tail (Memᴰ.tail m)

  -- What it returns is of the list, and no adapter of the list leaves its cooldown sooner.
  pub mem-earliest_cooldown :
      (adapters : List Adapter) (c : Adapter)
      → Memᴰ c (earliest_cooldown adapters states)
      → Memᴰ c adapters
  unfolding earliest_cooldown
  mem-earliest_cooldown [] c m = m
  mem-earliest_cooldown (a ∷ []) c m = m
  mem-earliest_cooldown (a ∷ b ∷ rest) c m =
      subst (λ x. Memᴰ x (a ∷ b ∷ rest)) (sym (mem_one m)) (mem-earliest a (b ∷ rest))

  pub earliest_cooldown-le :
      (adapters : List Adapter) (c a : Adapter)
      → Memᴰ c (earliest_cooldown adapters states)
      → Memᴰ a adapters
      → cooldown states c ≤ cooldown states a
  unfolding earliest_cooldown
  earliest_cooldown-le [] c a m n = elim m [ ]
  earliest_cooldown-le (b ∷ []) c a m n = rw (mem_one m, mem_one n) (omega arith)
  earliest_cooldown-le (b ∷ d ∷ rest) c a m (Memᴰ.head e) =
      rw (mem_one m, e) (earliest-le-selected b (d ∷ rest))
  earliest_cooldown-le (b ∷ d ∷ rest) c a m (Memᴰ.tail n) =
      rw (mem_one m) (earliest-le b (d ∷ rest) a n)

  pub earliest_cooldown_nonempty :
      (adapters : List Adapter)
      → 0 < length adapters
      → 0 < length (earliest_cooldown adapters states)
  unfolding earliest_cooldown
  earliest_cooldown_nonempty [] h = h
  earliest_cooldown_nonempty (a ∷ []) h = h
  earliest_cooldown_nonempty (a ∷ b ∷ rest) h = omega arith
