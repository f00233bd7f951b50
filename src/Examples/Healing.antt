-- ===== src/Examples/Healing.antt =====
-- Failures and successes of an adapter in the table of engine/internal/proxy/health.go.
use hypomux_arch.Prelude.{
  ◌+◌, ◌*◌, ◌≤◌, ◌≡◌, refl, true, false, [], ◌∷◌, some, arith, Memᴰ, map, if◌then◌else◌,
}
use hypomux_arch.Prelude.Assoc.{beq, contains, lookup, insert}
use hypomux_arch.Golang.Strings.{Text, text_eq, bytes, trim_dot, to_lower, trim_space}
use hypomux_arch.Golang.Time.{second, minute, after}
use hypomux_arch.Proxy.Adapter.{Adapter}
use hypomux_arch.Proxy.Health.{
  AdapterHealth, HealthTable, new_health_table, normalize_domain, record_local_failure,
  record_success, domain_quarantine_ttl,
}
use hypomux_arch.Proxy.Health.Failures.{fail_at, fail_at_cooldown, wait_after}
use hypomux_arch.Proxy.Health.Isolation.{
  record_success_heals, failed_twice, failed_twice_quarantined, failed_twice_forgotten,
}
use hypomux_arch.Proxy.Health.Reachable.{Reachable, Reachable-known}
use hypomux_arch.Proxy.Health.Validity.{
  new_health_table_configured-IsValid, record_local_failure-IsValid,
}
use hypomux_arch.Proxy.Candidates.{candidates, classify}
use hypomux_arch.Proxy.Candidates.Tiering.{
  is_known, is_cooling, is_quarantined, tiers_of, classify-tiers_of,
}
use hypomux_arch.Proxy.Candidates.Earliest.{cooldown}
use hypomux_arch.Proxy.Candidates.Selection.{cooldown-candidates-le}
use hypomux_arch.Examples.Scheduling.{ethernet, wifi, both, table}

abbrev eth : Text
eth = bytes "eth"

abbrev steam : Text
steam = bytes "Steam.com."

fail_at_cooldown_example :
    (state : AdapterHealth) × (lookup eth
        (fail_at (record_local_failure table (1 * second) eth) eth (2 * second ∷ [])).adapters
      ≡ some state)
    × (state.consecutive_failures ≡ 2)
    × (state.cooldown_until ≡ 2 * second + wait_after 2)
unfolding new_health_table lookup insert
fail_at_cooldown_example = fail_at_cooldown table eth (1 * second) (2 * second ∷ []) refl

record_success_heals_example :
    (is_cooling (record_success table 5 eth steam) 6 ethernet ≡ false)
    × (is_quarantined (record_success table 5 eth steam) (bytes "steam.com") 6 ethernet ≡ (
        if beq (normalize_domain steam) (bytes "steam.com")
        then false
        else is_quarantined table (bytes "steam.com") 6 ethernet))
unfolding new_health_table lookup insert
record_success_heals_example =
    record_success_heals table 5 ethernet steam (bytes "steam.com") 6 refl

failed_twice_quarantined_example :
    is_quarantined
      (failed_twice table ethernet steam (1 * minute) (2 * minute))
      (normalize_domain steam)
      (3 * minute)
      ethernet
    ≡ after (2 * minute + domain_quarantine_ttl) (3 * minute)
unfolding new_health_table lookup insert normalize_domain trim_dot to_lower trim_space
failed_twice_quarantined_example =
    failed_twice_quarantined table ethernet steam (1 * minute) (2 * minute) (3 * minute) refl refl
      refl (omega arith)

failed_twice_forgotten_example :
    is_quarantined
      (failed_twice table ethernet steam (1 * minute) (12 * minute))
      (normalize_domain steam)
      (13 * minute)
      ethernet
    ≡ false
unfolding new_health_table lookup insert normalize_domain trim_dot to_lower trim_space
failed_twice_forgotten_example =
    failed_twice_forgotten table ethernet steam (1 * minute) (12 * minute) (13 * minute) refl refl
      refl refl (omega arith)

-- A table that has seen a selection, a failure and a success.
abbrev made_by_default : Reachable both table
unfolding new_health_table
made_by_default = Reachable.made true true []

abbrev history :
    Reachable both
      (record_success (record_local_failure (candidates table 1 both [] steam).1 2 eth) 3 eth steam)
history =
    Reachable.succeeded 3 eth steam
      (Reachable.failed 2 eth (Reachable.asked 1 both [] steam made_by_default))

Reachable-known_example :
    is_known (
      lookup eth
        (record_success
          (record_local_failure (candidates table 1 both [] steam).1 2 eth)
          3
          eth
          steam).adapters)
    ≡ contains (map (λ (a : Adapter). a.name) both) eth
Reachable-known_example = Reachable-known both eth history

classify-tiers_of_example :
    (classify table [] (bytes "steam.com") 5 both).0 ≡ tiers_of table [] (bytes "steam.com") 5 both
unfolding new_health_table
classify-tiers_of_example =
    classify-tiers_of table [] (bytes "steam.com") 5 both
      (new_health_table_configured-IsValid both true true [])

-- Both adapters have failed, `wifi` first.
abbrev both_failed : HealthTable
both_failed = record_local_failure (record_local_failure table 1 (bytes "wifi")) 2 eth

cooldown-candidates-le_example :
    cooldown both_failed.adapters wifi ≤ cooldown both_failed.adapters ethernet
unfolding new_health_table record_local_failure lookup insert candidates normalize_domain trim_dot
    to_lower trim_space
cooldown-candidates-le_example =
    cooldown-candidates-le both_failed 5 both [] [] wifi ethernet
      (record_local_failure-IsValid (record_local_failure table 1 (bytes "wifi")) 2 eth (
        record_local_failure-IsValid table 1 (bytes "wifi")
          (new_health_table_configured-IsValid both true true [])))
      (Memᴰ.head refl) refl (Memᴰ.head refl) refl refl
