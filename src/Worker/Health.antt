-- ===== src/Worker/Health.antt =====
-- The cached health check.
use text.Mathlib.TextEquality.{eq_iff}
use high_performance_llm_gat.Prelude.{ℕ, ◌+◌, ◌<◌, ◌≡◌, ◌≢◌, refl, true, ◌||◌, leb, ◌==◌, arith}
use high_performance_llm_gat.Worker.{Transport, Client, probe_health, healthy}

healthy-probed :
    {F I W : Type 0} (t : Transport F I W) (c : Client) (w w1 : W) (now : ℕ)
    → c.base_url ≢ ""
    → (c.last_health_at == 0 || leb (c.last_health_at + c.health_ttl) now) ≡ true
    → t.now w ≡ (now, w1)
    → healthy t c w ≡ (
      (probe_health t c w1).0,
      record c { last_health_at = now; last_health_value = (probe_health t c w1).0 },
      (probe_health t c w1).1,
    )
unfolding healthy
healthy-probed t c w w1 now set stale e = rw (e, healthy) (ground (arith, eq_iff c.base_url ""))

healthy-fresh :
    {F I W : Type 0} (t : Transport F I W) (c : Client) (w w1 : W) (now : ℕ)
    → c.base_url ≢ ""
    → c.last_health_at ≢ 0
    → now < c.last_health_at + c.health_ttl
    → t.now w ≡ (now, w1)
    → healthy t c w ≡ (c.last_health_value, c, w1)
unfolding healthy
healthy-fresh t c w w1 now set nz soon e = rw (e, healthy) (ground (arith, eq_iff c.base_url ""))

-- A client with an address, asked for its health at a time `now` at which no probe is fresh, probes
-- the worker. Asked again within the health TTL it gives the same value, changes nothing, and only
-- reads the clock. The clock does not show Go's zero time.
pub healthy-cached :
    {F I W : Type 0} (t : Transport F I W) (c : Client) (w w1 w2 w3 : W) (now later : ℕ)
    → c.base_url ≢ ""
    → now ≢ 0
    → (c.last_health_at == 0 || leb (c.last_health_at + c.health_ttl) now) ≡ true
    → t.now w ≡ (now, w1)
    → t.now w2 ≡ (later, w3)
    → later < now + c.health_ttl
    → ((healthy t c w).0 ≡ (probe_health t c w1).0)
      × (healthy t (healthy t c w).1 w2 ≡ ((healthy t c w).0, (healthy t c w).1, w3))
healthy-cached t c w w1 w2 w3 now later set nz stale e1 e2 soon =
    let probed = healthy-probed t c w w1 now set stale e1 in
    let value = (probe_health t c w1).0 in
    let c' : Client = record c { last_health_at = now; last_health_value = value } in
    rw probed (refl, healthy-fresh t c' w2 w3 later set nz soon e2)
