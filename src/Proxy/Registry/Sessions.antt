-- ===== src/Proxy/Registry/Sessions.antt =====
-- A session from its attachment to its end in engine/internal/proxy/registry.go: what it leaves in
-- the counters.
use hypomux_arch.Prelude.{
  ℕ, ◌+◌, ◌-◌, ◌%◌, ◌^◌, ◌≡◌, ◌<◌, refl, sym, ap, ◌∙◌, List, [], ◌∷◌, Option, some, arith, ◌==◌,
  if◌then◌else◌, inl, inr, Bool-cases,
}
use hypomux_arch.Prelude.Assoc.{beq_refl, lookup, insert, lookup-insert}
use hypomux_arch.Golang.Strings.{Text, text_eq}
use hypomux_arch.Proxy.Adapter.{Adapter}
use hypomux_arch.Proxy.Registry.{
  Counters, Session, Registry, plus, update_counters, attach, charge, add_up, add_down, finish,
}

-- A transfer over the session.
pub data Transfer : Type 0 where
  up down : ℕ → Transfer

abbrev pub transfer : Registry → Session → List Transfer → Registry × Session
transfer r s [] = (r, s)
transfer r s (up n ∷ ts) = let (r', s') = add_up r s n in transfer r' s' ts
transfer r s (down n ∷ ts) = let (r', s') = add_down r s n in transfer r' s' ts

abbrev pub total_up : List Transfer → ℕ
total_up [] = 0
total_up (up n ∷ ts) = n + total_up ts
total_up (down n ∷ ts) = total_up ts

abbrev pub total_down : List Transfer → ℕ
total_down [] = 0
total_down (up n ∷ ts) = total_down ts
total_down (down n ∷ ts) = n + total_down ts

lookup-insert_self :
    (name : Text) (c : Counters) (m : List (Text × Counters))
    → lookup name (insert name c m) ≡ some c
lookup-insert_self name c m =
    lookup-insert name name c m ∙ ap (λ b. if b then some c else lookup name m) (beq_refl name)

-- The counters are those before, with so much added.
abbrev Moved : Counters → ℕ → ℕ → Counters → Type 0
Moved c u d c' =
    (c'.active ≡ c.active)
    × (c'.bytes_up ≡ (c.bytes_up + u) % 2 ^ 64)
    × (c'.bytes_down ≡ (c.bytes_down + d) % 2 ^ 64)

add_up-counters :
    (r : Registry) (s : Session) (n : ℕ) {c : Counters}
    → lookup s.adapter r.adapters ≡ some c
    → c.bytes_up < 2 ^ 64
    → c.bytes_down < 2 ^ 64
    → let (r', s') = add_up r s n in
      (s'.adapter ≡ s.adapter)
      × (c' : Counters) × (lookup s.adapter r'.adapters ≡ some c')
      × Moved c n 0 c'
unfolding add_up charge
add_up-counters r s n {c} found low high = elim (Bool-cases (n == 0)) [
  | inl nothing ↦ rw nothing (refl, c, found, (refl, ground arith, ground arith))
  | inr some_bytes ↦
      rw (some_bytes, found, charge)
        (
          refl,
          record c { bytes_up = plus c.bytes_up n },
          lookup-insert_self s.adapter _ r.adapters,
          (refl, refl, ground arith),
        )
]

add_down-counters :
    (r : Registry) (s : Session) (n : ℕ) {c : Counters}
    → lookup s.adapter r.adapters ≡ some c
    → c.bytes_up < 2 ^ 64
    → c.bytes_down < 2 ^ 64
    → let (r', s') = add_down r s n in
      (s'.adapter ≡ s.adapter)
      × (c' : Counters) × (lookup s.adapter r'.adapters ≡ some c')
      × Moved c 0 n c'
unfolding add_down charge
add_down-counters r s n {c} found low high = elim (Bool-cases (n == 0)) [
  | inl nothing ↦ rw nothing (refl, c, found, (refl, ground arith, ground arith))
  | inr some_bytes ↦
      rw (some_bytes, found, charge)
        (
          refl,
          record c { bytes_down = plus c.bytes_down n },
          lookup-insert_self s.adapter _ r.adapters,
          (refl, ground arith, refl),
        )
]

transfer-counters :
    (ts : List Transfer) (r : Registry) (s : Session) {c : Counters}
    → lookup s.adapter r.adapters ≡ some c
    → c.bytes_up < 2 ^ 64
    → c.bytes_down < 2 ^ 64
    → let (r', s') = transfer r s ts in
      (s'.adapter ≡ s.adapter)
      × (c' : Counters) × (lookup s.adapter r'.adapters ≡ some c')
      × Moved c (total_up ts) (total_down ts) c'
transfer-counters [] r s {c} found low high =
    (refl, c, found, (refl, omega (arith, low), omega (arith, high)))
transfer-counters (up n ∷ ts) r s found low high =
    let (same, c₁, found₁, moved₁) = add_up-counters r s n found low high in
    let (r₁, s₁) = add_up r s n in
    let (same₂, c₂, found₂, moved₂) =
      transfer-counters ts r₁ s₁ (ap (λ k. lookup k r₁.adapters) same ∙ found₁)
        (omega (arith, moved₁.1)) (omega (arith, moved₁.2)) in
    (
      same₂ ∙ same,
      c₂,
      ap (λ k. lookup k (transfer r₁ s₁ ts).0.adapters) (sym same) ∙ found₂,
      (moved₂.0 ∙ moved₁.0, omega (arith, moved₁.1, moved₂.1), omega (arith, moved₁.2, moved₂.2)),
    )
transfer-counters (down n ∷ ts) r s found low high =
    let (same, c₁, found₁, moved₁) = add_down-counters r s n found low high in
    let (r₁, s₁) = add_down r s n in
    let (same₂, c₂, found₂, moved₂) =
      transfer-counters ts r₁ s₁ (ap (λ k. lookup k r₁.adapters) same ∙ found₁)
        (omega (arith, moved₁.1)) (omega (arith, moved₁.2)) in
    (
      same₂ ∙ same,
      c₂,
      ap (λ k. lookup k (transfer r₁ s₁ ts).0.adapters) (sym same) ∙ found₂,
      (moved₂.0 ∙ moved₁.0, omega (arith, moved₁.1, moved₂.1), omega (arith, moved₁.2, moved₂.2)),
    )

attach-counters :
    (r : Registry) (s : Session) (remote : Option Text) (target : Text) (a : Adapter) {c : Counters}
    → lookup a.name r.adapters ≡ some c
    → lookup a.name (attach r s remote target a).0.adapters
      ≡ some (record c { active = plus c.active 1 })
unfolding attach update_counters
attach-counters r s remote target a found =
    rw (found, update_counters) (lookup-insert_self a.name _ r.adapters)

finish-counters :
    (r : Registry) (s : Session) {c : Counters}
    → lookup s.adapter r.adapters ≡ some c
    → lookup s.adapter (finish r s).adapters
      ≡ some (record c { active = plus c.active (2 ^ 64 - 1) })
unfolding finish charge
finish-counters r s found = rw (found, charge) (lookup-insert_self s.adapter _ r.adapters)

-- A session that is attached to an adapter with counters, transfers bytes and is finished, with no
-- other call in between, leaves the adapter's count of active connections as it was, and adds to
-- its byte counters what was transferred each way, modulo 2 ^ 64.
pub session_balances :
    (r : Registry) (s : Session) (remote : Option Text) (target : Text) (a : Adapter)
    (ts : List Transfer) {c : Counters}
    → lookup a.name r.adapters ≡ some c
    → c.active < 2 ^ 64
    → c.bytes_up < 2 ^ 64
    → c.bytes_down < 2 ^ 64
    → let (r₁, s₁) = attach r s remote target a in
      let (r₂, s₂) = transfer r₁ s₁ ts in
      (c' : Counters) × (lookup a.name (finish r₂ s₂).adapters ≡ some c')
      × (c'.active ≡ c.active)
      × (c'.bytes_up ≡ (c.bytes_up + total_up ts) % 2 ^ 64)
      × (c'.bytes_down ≡ (c.bytes_down + total_down ts) % 2 ^ 64)
unfolding attach
session_balances r s remote target a ts {c} found few low high =
    let (r₁, s₁) = attach r s remote target a in
    let (same, c₂, found₂, moved) =
      transfer-counters ts r₁ s₁ (attach-counters r s remote target a found) low high in
    let (r₂, s₂) = transfer r₁ s₁ ts in
    let ended = finish-counters r₂ s₂ (ap (λ k. lookup k r₂.adapters) same ∙ found₂) in
    (
      record c₂ { active = plus c₂.active (2 ^ 64 - 1) },
      ap (λ k. lookup k (finish r₂ s₂).adapters) (sym same) ∙ ended,
      omega (arith, moved.0, few),
      moved.1,
      moved.2,
    )
