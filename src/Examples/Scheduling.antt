-- ===== src/Examples/Scheduling.antt =====
-- Two adapters of weights 1 and 2 under the scheduler of engine/internal/proxy/scheduler.go.
use hypomux_arch.Prelude.{
  ◌⊎◌, false, ℕ, ◌+◌, ◌*◌, ◌≤◌, ◌<◌, ◌≡◌, refl, true, false, List, [], ◌∷◌, none, some, arith,
  length, get_elem?, Memᴰ, map,
}
use hypomux_arch.Prelude.Int.{pos, pos_part, ◌+ℤ◌, ◌-ℤ◌}
use hypomux_arch.Prelude.Assoc.{lookup, insert}
use hypomux_arch.Golang.Strings.{Text, text_eq, bytes, trim_dot, to_lower, trim_space}
use hypomux_arch.Proxy.Adapter.{Adapter}
use hypomux_arch.Proxy.Health.{
  HealthTable, new_health_table, record_local_failure, normalize_domain,
}
use hypomux_arch.Proxy.Health.Validity.{
  new_health_table_configured-IsValid, record_local_failure-IsValid,
}
use hypomux_arch.Proxy.Candidates.{candidates, effective_domain}
use hypomux_arch.Proxy.Candidates.Tiering.{is_usable}
use hypomux_arch.Proxy.Candidates.Selection.{rank}
use hypomux_arch.Proxy.Scheduler.{
  Scheduler, new_scheduler, select_weighted, weigh, select_for_domain,
}
use hypomux_arch.Proxy.Scheduler.Choice.{
  select_for_domain_fittest, select_for_domain_succeeds, Used, Used-sum_values,
}
use hypomux_arch.Proxy.Scheduler.RoundRobin.{turn_after, each_has_turn}
use hypomux_arch.Proxy.Scheduler.Weights.{sum_values, total_weight}
use hypomux_arch.Proxy.Scheduler.Share.{wins, wins_share}
use hypomux_arch.Proxy.Scheduler.Fairness.{IsPositive}

abbrev adapter : Text → ℕ → Adapter
adapter name weight = record {
  name = name;
  source_ip = [];
  if_index = pos 0;
  source_ipv6 = [];
  ipv6_if_index = pos 0;
  weight = pos weight;
  dns_servers = [];
}

abbrev pub ethernet : Adapter
ethernet = adapter (bytes "eth") 1

abbrev pub wifi : Adapter
wifi = adapter (bytes "wifi") 2

abbrev pub both : List Adapter
both = ethernet ∷ wifi ∷ []

abbrev pub table : HealthTable
table = new_health_table both

abbrev weighted : Scheduler
weighted = (new_scheduler both true none).0

abbrev in_turn : Scheduler
in_turn = (new_scheduler both false none).0

-- Of three rounds the heavier adapter wins two.
three_rounds : map (wins 3 [] ethernet (wifi ∷ [])) (bytes "eth" ∷ bytes "wifi" ∷ []) ≡ 1 ∷ 2 ∷ []
unfolding select_weighted weigh lookup insert ◌+ℤ◌ ◌-ℤ◌
three_rounds = refl

positive : (a : Adapter) → Memᴰ a both → IsPositive a
positive a (Memᴰ.head e) = rw e (omega arith)
positive a (Memᴰ.tail (Memᴰ.head e)) = rw e (omega arith)
positive a (Memᴰ.tail (Memᴰ.tail m)) = elim m [ ]

wins_share_example :
    let W = pos_part (total_weight both) in
    let won = wins 7 [] ethernet (wifi ∷ []) wifi.name in
    (won * W < 7 * 2 + W) × (7 * 2 + W ≤ won * W + 2 * W)
wins_share_example =
    wins_share ethernet (wifi ∷ []) (refl, (refl, tt)) positive 7 wifi (Memᴰ.tail (Memᴰ.head refl))

-- With `eth` cooling down, the turn goes to `wifi`.
abbrev after_failure : HealthTable
after_failure = record_local_failure table 100 (bytes "eth")

select_for_domain_fittest_example :
    Memᴰ wifi both
    × (is_usable after_failure [] wifi ≡ true)
    × ((is_usable after_failure [] ethernet ≡ false)
        ⊎ (rank after_failure (effective_domain after_failure []) 100 wifi
            ≤ rank after_failure (effective_domain after_failure []) 100 ethernet))
unfolding new_health_table record_local_failure select_for_domain new_scheduler lookup insert
    candidates select_weighted normalize_domain trim_dot to_lower trim_space
select_for_domain_fittest_example =
    select_for_domain_fittest in_turn after_failure 100 [] [] wifi ethernet
      (record_local_failure-IsValid table 100 (bytes "eth")
        (new_health_table_configured-IsValid both true true []))
      refl (Memᴰ.head refl)

select_for_domain_succeeds_example :
    (c : Adapter) × ((select_for_domain weighted table 100 (bytes "eth" ∷ []) []).0 ≡ some c)
unfolding new_health_table new_scheduler lookup insert
select_for_domain_succeeds_example =
    select_for_domain_succeeds weighted table 100 (bytes "eth" ∷ []) [] wifi
      (new_health_table_configured-IsValid both true true []) (Memᴰ.tail (Memᴰ.head refl)) refl

Used-sum_values_example :
    sum_values (select_for_domain weighted table 100 [] []).1.current_weight ≡ pos 0
Used-sum_values_example = Used-sum_values both true (Used.used table 100 [] [] (Used.made none))

each_has_turn_example : (k : ℕ) × (k < length both) × (turn_after k 1 both ≡ get_elem? both 0)
each_has_turn_example = each_has_turn 1 0 both (omega arith)
