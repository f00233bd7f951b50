-- ===== src/Proxy/Adapter.antt =====
-- engine/internal/proxy/config.go and dial.go: a network adapter as the scheduler sees it.
use hypomux_arch.Prelude.{List}
use hypomux_arch.Prelude.Int.{ℤ}
use hypomux_arch.Golang.Strings.{Text}

pub record Adapter : Type 0 where
  pub name : Text
  pub source_ip : Text
  pub if_index : ℤ
  pub source_ipv6 : Text
  pub ipv6_if_index : ℤ
  pub weight : ℤ
  pub dns_servers : List Text
