-- ===== src/Proxy/Registry.antt =====
-- engine/internal/proxy/registry.go: the live connections and the counters of each adapter. A
-- session is an object that its owner shares with the registry's map; here the owner holds it, a
-- method takes it and returns it changed, and the map is the list of the identifiers in it. The
-- network connections that a session holds are left out.
use hypomux_arch.Prelude.{
  ℕ, ◌+◌, ◌-◌, ◌%◌, ◌^◌, Bool, true, false, not, List, [], ◌∷◌, ◌++◌, Option, none, some, ◌==◌,
  if◌then◌else◌, keep,
}
use hypomux_arch.Prelude.Assoc.{lookup, insert}
use hypomux_arch.Golang.Strings.{Text, text_eq}
use hypomux_arch.Golang.Time.{Time}
use hypomux_arch.Proxy.Adapter.{Adapter}
pub mod Sessions

-- The counters are uint64.
pub record Counters : Type 0 where
  pub adapter : Adapter
  pub active : ℕ
  pub bytes_up : ℕ
  pub bytes_down : ℕ

pub record Session : Type 0 where
  pub id : ℕ
  pub protocol : Text
  pub channel : Text
  pub client : Text
  pub listener : Text
  pub started_at : Time
  pub target : Text
  pub remote : Text
  pub adapter : Text
  pub direct : Bool
  pub bytes_up : ℕ
  pub bytes_down : ℕ

pub record Registry : Type 0 where
  pub next_id : ℕ
  pub connections : List ℕ
  pub adapters : List (Text × Counters)
  pub order : List Text
  pub direct_active : ℕ
  pub direct_bytes_up : ℕ
  pub direct_bytes_down : ℕ

-- atomic.Uint64's Add.
abbrev pub plus : ℕ → ℕ → ℕ
plus n m = (n + m) % 2 ^ 64

-- The loop of `newRegistry`.
unfoldable pub enter : List Adapter → Registry → Registry
enter [] r = r
enter (a ∷ rest) r = enter rest (record r {
  adapters =
      insert a.name (record { adapter = a; active = 0; bytes_up = 0; bytes_down = 0 }) r.adapters;
  order = r.order ++ (a.name ∷ []);
})

unfoldable pub new_registry : List Adapter → Registry
unfolding enter
new_registry adapters = enter adapters (record {
  next_id = 0;
  connections = [];
  adapters = [];
  order = [];
  direct_active = 0;
  direct_bytes_up = 0;
  direct_bytes_down = 0;
})

unfoldable pub begin_address : Registry → Time → Text → Text → Text → Text → Registry × Session
begin_address r now protocol channel client listener =
    let id = plus r.next_id 1 in
    (
      record r { next_id = id; connections = id ∷ keep (λ j. not (j == id)) r.connections },
      record {
        id = id;
        protocol = protocol;
        channel = channel;
        client = client;
        listener = listener;
        started_at = now;
        target = [];
        remote = [];
        adapter = [];
        direct = false;
        bytes_up = 0;
        bytes_down = 0;
      },
    )

-- `counters := r.adapters[name]` and, if it is there, its change.
unfoldable pub update_counters : Registry → Text → (Counters → Counters) → Registry
update_counters r name change = elim (lookup name r.adapters) [
  | none ↦ r
  | some counters ↦ record r { adapters = insert name (change counters) r.adapters }
]

-- The remote address is `none` where the connection has none.
abbrev pub or_unchanged : Text → Option Text → Text
or_unchanged old none = old
or_unchanged old (some address) = address

unfoldable pub attach : Registry → Session → Option Text → Text → Adapter → Registry × Session
unfolding update_counters
attach r s remote target a = (
  update_counters r a.name (λ c. record c { active = plus c.active 1 }),
  record s { target = target; remote = or_unchanged s.remote remote; adapter = a.name },
)

unfoldable pub attach_direct : Registry → Session → Option Text → Text → Registry × Session
attach_direct r s remote target = (
  record r { direct_active = plus r.direct_active 1 },
  record s { target = target; remote = or_unchanged s.remote remote; adapter = []; direct = true },
)

-- A change of the counters of the session's adapter or, without one, of the direct connections'.
unfoldable pub charge :
    Registry → Session → (Counters → Counters) → (Registry → Registry) → Registry
charge r s change change_direct = elim (lookup s.adapter r.adapters) [
  | none ↦ if s.direct then change_direct r else r
  | some counters ↦ record r { adapters = insert s.adapter (change counters) r.adapters }
]

unfoldable pub add_up : Registry → Session → ℕ → Registry × Session
unfolding charge
add_up r s amount = if amount == 0 then (r, s) else (
  charge r s (λ c. record c { bytes_up = plus c.bytes_up amount })
      (λ r. record r { direct_bytes_up = plus r.direct_bytes_up amount }),
  record s { bytes_up = plus s.bytes_up amount },
)

unfoldable pub add_down : Registry → Session → ℕ → Registry × Session
unfolding charge
add_down r s amount = if amount == 0 then (r, s) else (
  charge r s (λ c. record c { bytes_down = plus c.bytes_down amount })
      (λ r. record r { direct_bytes_down = plus r.direct_bytes_down amount }),
  record s { bytes_down = plus s.bytes_down amount },
)

-- Adding ^uint64(0) takes one away.
unfoldable pub finish : Registry → Session → Registry
unfolding charge
finish r s =
    charge (record r { connections = keep (λ j. not (j == s.id)) r.connections }) s
      (λ c. record c { active = plus c.active (2 ^ 64 - 1) })
      (λ r. record r { direct_active = plus r.direct_active (2 ^ 64 - 1) })
