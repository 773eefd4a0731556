-- ===== src/Services/Metrics.antt =====
-- The counts of the services of tenants in src/brokerlib/metrics/src/TenantMetricsService.cpp. The
-- callers adjust a count by 1 up or down, and a count is never negative. A limit that is reached is
-- logged and sent as an event, which is left out.
use opendxl_broker.Prelude.{
  ℕ, ◌+◌, ◌-◌, Bool, true, none, some, List, Str, find, assign, ltb, leb, ◌==◌, ◌&&◌, not,
  if◌then◌else◌,
}

abbrev pub Counts : Type 0
Counts = List (Str × ℕ)

unfoldable pub check_tenant_within_limit : Str → ℕ → Counts → Bool
check_tenant_within_limit tenant limit counts =
    if limit == 0 then true else elim (find tenant counts) [ none ↦ true | some n ↦ ltb n limit ]

-- `f->second += adjCount`, held between 0 and the limit.
unfoldable pub adjust : Bool → ℕ → ℕ → ℕ
adjust is_up limit n = let m = if is_up then n + 1 else n - 1 in if ltb limit m then limit else m

-- The answer, and the counts.
unfoldable pub update_tenant_limit_count : Str → Bool → ℕ → Counts → Bool × Counts
update_tenant_limit_count tenant is_up limit counts =
    if limit == 0
    then (true, counts)
    else (let old : ℕ = elim (find tenant counts) [ none ↦ 0 | some n ↦ n ] in
        let count = adjust is_up limit old in
        (not (not (old == count) && leb limit count), assign tenant count counts))
