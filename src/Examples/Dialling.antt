-- ===== src/Examples/Dialling.antt =====
-- Diallings of engine/internal/proxy/dial.go with two adapters.
use hypomux_arch.Prelude.{◌≡◌, refl, true, false, List, [], ◌∷◌, some, Memᴰ}
use hypomux_arch.Prelude.Assoc.{lookup, insert}
use hypomux_arch.Golang.Strings.{Text, text_eq, bytes, trim_dot, to_lower, trim_space}
use hypomux_arch.Golang.Net.{parse_ip, to4}
use hypomux_arch.Proxy.Health.{
  AdapterHealth, DomainHealth, HealthTable, fresh, domain_failure_threshold,
  new_health_table_configured,
}
use hypomux_arch.Proxy.Health.Validity.{new_health_table_configured-IsValid}
use hypomux_arch.Proxy.Scheduler.{Scheduler}
use hypomux_arch.Proxy.Candidates.{candidates}
use hypomux_arch.Proxy.Dial.{attempt, is_connected, target_domain, established, dial_upstream}
use hypomux_arch.Proxy.Dial.Attempts.{tried, dial_upstream_fails}
use hypomux_arch.Prelude.Unique.{NoRepeat}
use hypomux_arch.Prelude.{length, ◌≤◌}
use hypomux_arch.Proxy.Dial.{Failure, connect_failed, all_failed}
use hypomux_arch.Proxy.Dial.Owner.{dial_upstream_connects}
use hypomux_arch.Proxy.Dial.Blame.{is_established, dial_upstream_spares}
use hypomux_arch.Examples.Serving.{ethernet, wifi, reachable, refusing, ticking}

abbrev both : Scheduler
both = record { adapters = ethernet ∷ wifi ∷ []; weighted = false; next = 0; current_weight = [] }

dialled :
    (dial_upstream reachable ticking
      (bytes "1.2.3.4")
      true
      both
      (new_health_table_configured both.adapters true true [])).1
    ≡ established ethernet
unfolding dial_upstream new_health_table_configured to4 candidates lookup insert trim_dot to_lower
    trim_space
dialled = refl

dial_upstream_connects_example :
    Memᴰ ethernet both.adapters
    × (is_connected (
          attempt reachable
            (parse_ip (bytes "1.2.3.4"))
            (target_domain (bytes "1.2.3.4") (parse_ip (bytes "1.2.3.4")))
            ethernet)
        ≡ true)
dial_upstream_connects_example =
    dial_upstream_connects reachable ticking (bytes "1.2.3.4") true both
      (new_health_table_configured both.adapters true true []) ethernet
      (new_health_table_configured-IsValid both.adapters true true []) dialled

abbrev steam : Text
steam = bytes "steam.com"

-- A domain in quarantine on one of the adapters.
abbrev quarantined : DomainHealth
quarantined = record { evidence = domain_failure_threshold; expires_at = 100 }

abbrev blamed : AdapterHealth
blamed = record fresh { domains = (steam, quarantined) ∷ [] }

abbrev table : HealthTable
table =
    new_health_table_configured both.adapters true true
      (record { adapter = bytes "eth"; domain = steam; expires_at = 100 } ∷ [])

refused : is_established (dial_upstream refusing ticking steam false both table).1 ≡ false
unfolding dial_upstream new_health_table_configured to4 candidates lookup insert trim_dot to_lower
    trim_space
refused = refl

still_blamed :
    lookup (bytes "eth") (dial_upstream refusing ticking steam false both table).0.health.adapters
    ≡ some blamed
unfolding dial_upstream new_health_table_configured to4 candidates lookup insert trim_dot to_lower
    trim_space
still_blamed = refl

known_blame : lookup steam blamed.domains ≡ some quarantined
unfolding lookup
known_blame = refl

dial_upstream_spares_example :
    (state : AdapterHealth) × (lookup (bytes "eth") table.adapters ≡ some state)
    × (lookup steam state.domains ≡ some quarantined)
dial_upstream_spares_example =
    dial_upstream_spares refusing ticking steam false both table (bytes "eth") blamed steam
      quarantined
      (new_health_table_configured-IsValid both.adapters true true
        (record { adapter = bytes "eth"; domain = steam; expires_at = 100 } ∷ []))
      refused still_blamed known_blame

abbrev both_failed : List Failure
both_failed =
    record { adapter = bytes "wifi"; reason = connect_failed }
    ∷ record { adapter = bytes "eth"; reason = connect_failed }
    ∷ []

exhausted : (dial_upstream refusing ticking steam false both table).1 ≡ all_failed both_failed
unfolding dial_upstream new_health_table_configured to4 candidates lookup insert trim_dot to_lower
    trim_space
exhausted = refl

dial_upstream_fails_example : (length both_failed ≤ 2) × NoRepeat (tried both_failed)
dial_upstream_fails_example =
    dial_upstream_fails refusing ticking steam false both table both_failed
      (new_health_table_configured-IsValid both.adapters true true
        (record { adapter = bytes "eth"; domain = steam; expires_at = 100 } ∷ []))
      exhausted
