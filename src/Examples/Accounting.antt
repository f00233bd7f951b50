-- ===== src/Examples/Accounting.antt =====
-- One connection in the registry of engine/internal/proxy/registry.go.
use hypomux_arch.Prelude.{◌+◌, ◌%◌, ◌^◌, ◌≡◌, refl, List, [], ◌∷◌, none, some, arith}
use hypomux_arch.Prelude.Assoc.{lookup, insert}
use hypomux_arch.Golang.Strings.{text_eq, bytes}
use hypomux_arch.Proxy.Registry.{
  Counters, Session, Registry, new_registry, begin_address, attach, finish,
}
use hypomux_arch.Proxy.Registry.Sessions.{
  Transfer, up, down, transfer, total_up, total_down, session_balances,
}
use hypomux_arch.Examples.Scheduling.{ethernet, both}

abbrev opened : Registry × Session
opened =
    begin_address (new_registry both) 5 (bytes "socks5") (bytes "main") (bytes "127.0.0.1:5000") []

abbrev transfers : List Transfer
transfers = up 10 ∷ down 500 ∷ up 0 ∷ up 7 ∷ []

session_balances_example :
    let (r₁, s₁) = attach opened.0 opened.1 none (bytes "a.com:443") ethernet in
    let (r₂, s₂) = transfer r₁ s₁ transfers in
    (c : Counters) × (lookup (bytes "eth") (finish r₂ s₂).adapters ≡ some c)
    × (c.active ≡ 0)
    × (c.bytes_up ≡ (0 + total_up transfers) % 2 ^ 64)
    × (c.bytes_down ≡ (0 + total_down transfers) % 2 ^ 64)
unfolding new_registry begin_address lookup insert
session_balances_example =
    session_balances opened.0 opened.1 none (bytes "a.com:443") ethernet transfers refl
      (omega arith) (omega arith) (omega arith)
