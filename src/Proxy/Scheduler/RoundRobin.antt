-- ===== src/Proxy/Scheduler/RoundRobin.antt =====
-- Round robin in engine/internal/proxy/scheduler.go, while the candidates stay the same.
use hypomux_arch.Prelude.{
  ℕ, zero, suc, ◌+◌, ◌-◌, ◌%◌, ◌≤◌, ◌<◌, ◌≡◌, sym, ap, ◌∙◌, false, leb, ltb, ltb→lt, if◌then◌else◌,
  inl, inr, Bool-cases, List, Option, arith, length, get_elem?,
}
use hypomux_arch.Proxy.Adapter.{Adapter}
use hypomux_arch.Proxy.Scheduler.{take_turn}
use native.Mathlib.Nat.{mod-add-mod, mod-lt, mod-eq_of_lt, mod-eq-sub-mod}

-- The cursor after `k` turns.
abbrev next_after : ℕ → ℕ → List Adapter → ℕ
next_after zero next candidates = next
next_after (suc k) next candidates = next_after k (take_turn next candidates).1 candidates

-- The adapter that the turn after `k` others goes to.
abbrev pub turn_after : ℕ → ℕ → List Adapter → Option Adapter
turn_after k next candidates = (take_turn (next_after k next candidates) candidates).0

regroup : (n next k : ℕ) → ((next + 1) % n + k) % n ≡ (next + suc k) % n
regroup n next k = mod-add-mod (next + 1) n k ∙ ap (λ i. i % n) (omega arith)

next_after-mod :
    (k next : ℕ) (candidates : List Adapter)
    → 0 < length candidates
    → next_after k next candidates % length candidates ≡ (next + k) % length candidates
unfolding take_turn
next_after-mod zero next candidates h = ap (λ n. n % length candidates) (omega arith)
next_after-mod (suc k) next candidates h =
    next_after-mod k ((next + 1) % length candidates) candidates h
    ∙ regroup (length candidates) next k

-- The k-th of the turns that follow goes to the candidate k places after the cursor, around the
-- list of the candidates.
pub turn_after-get_elem? :
    (k next : ℕ) (candidates : List Adapter)
    → 0 < length candidates
    → turn_after k next candidates ≡ get_elem? candidates ((next + k) % length candidates)
unfolding take_turn
turn_after-get_elem? k next candidates h =
    ap (get_elem? candidates) (next_after-mod k next candidates h)

wrap : (x n : ℕ) → x < n + n → x % n ≡ (if ltb x n then x else x - n)
wrap x n h = elim (Bool-cases (ltb x n)) [
  | inl below ↦ rw below (mod-eq_of_lt (ltb→lt x n below))
  | inr above ↦
      rw above
        (mod-eq-sub-mod (not_below x n above) ∙ mod-eq_of_lt (omega (arith, not_below x n above)))
]
  where
    not_below : (x n : ℕ) → ltb x n ≡ false → n ≤ x
    not_below x n above = ground arith

add-mod_left : (n next k : ℕ) → (next + k) % n ≡ (next % n + k) % n
add-mod_left n next k = sym (mod-add-mod next n k)

-- In any n consecutive turns over n candidates, wherever the cursor stands, each has a turn.
pub each_has_turn :
    (next j : ℕ) (candidates : List Adapter)
    → j < length candidates
    → (k : ℕ) × (k < length candidates) × (turn_after k next candidates ≡ get_elem? candidates j)
each_has_turn next j candidates h =
    let n = length candidates in
    let r = next % n in
    let small : r < n = mod-lt next (omega arith) in
    let k = if leb r j then j - r else j + n - r in
    let reached : (next + k) % n ≡ j =
      add-mod_left n next k ∙ wrap (r + k) n (ground arith) ∙ ground arith in
    (
      k,
      ground arith,
      turn_after-get_elem? k next candidates (omega arith) ∙ ap (get_elem? candidates) reached,
    )
