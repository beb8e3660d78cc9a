-- ===== src/Regmetrics/Sound.antt =====
-- internal/regmetrics/regmetrics.go: what Scrape reports.
use devplat_agent.Base.{
  ℕ, ◌+◌, ◌^◌, ◌%◌, ◌≡◌, ◌≢◌, refl, [], ◌∷◌, Option, none, some, inl, inr, ap, arith, Option-cases,
}
use devplat_agent.Base.Text.{Bytes}
use devplat_agent.Json.{Json}
use devplat_agent.Json.Decode.{read_struct}
use devplat_agent.Regmetrics.{
  ProxyStats, Registry, ExpvarPayload, set_payload, report, parse, totals, Fetched, unbuilt,
  unreachable, answered, scrape,
}

-- The counters of a payload that has a proxy section.
pub record Counted (j : Json) (total hits : ℕ) : Type 0 where
  pub payload : ExpvarPayload
  pub decoded : read_struct set_payload j (record { registry = none }) ≡ some payload
  pub registry : Registry
  pub has_registry : payload.registry ≡ some registry
  pub proxy : ProxyStats
  pub has_proxy : registry.proxy ≡ some proxy
  pub total_is : total ≡ (proxy.hits + proxy.misses) % 2 ^ 64
  pub hits_is : hits ≡ proxy.hits

report-totals :
    (o : Option Registry) (total hits : ℕ)
    → report (record { registry = o }) ≡ totals total hits
    → (r : Registry) × (o ≡ some r)
      × (s : ProxyStats) × (r.proxy ≡ some s)
      × (total ≡ (s.hits + s.misses) % 2 ^ 64)
      × (hits ≡ s.hits)
unfolding report
report-totals none total hits h = absurd (ground arith)
report-totals (some r) total hits h = elim (Option-cases r.proxy) [
  | inl absent ↦ absurd (ground arith)
  | inr (s, present) ↦ (r, refl, s, present, ground arith, ground arith)
]

report-Counted :
    (j : Json) (total hits : ℕ) (p : ExpvarPayload)
    → read_struct set_payload j (record { registry = none }) ≡ some p
    → report p ≡ totals total hits
    → Counted j total hits
report-Counted j total hits p decoded h =
    let (r, e1, s, e2, t, k) = report-totals p.registry total hits h in
    record {
      payload = p;
      decoded = decoded;
      registry = r;
      has_registry = e1;
      proxy = s;
      has_proxy = e2;
      total_is = t;
      hits_is = k;
    }

parse-Counted :
    (j : Json) (total hits : ℕ) → parse (some j) ≡ totals total hits → Counted j total hits
parse-Counted j total hits h =
    elim (Option-cases (read_struct set_payload j (record { registry = none }))) [
      | inl bad ↦ absurd (unfold parse in ground arith)
      | inr (p, decoded) ↦ report-Counted j total hits p decoded (unfold parse in ground arith)
    ]

-- Scrape reports counters only where a URL is configured, the registry answered 200, and its body
-- has a proxy section, of which they are the hits and the sum of hits and misses in uint64.
pub scrape-Counted :
    (url : Bytes) (fetched : Fetched) (total hits : ℕ)
    → scrape url fetched ≡ some (total, hits)
    → (url ≢ []) × ((j : Json) × (fetched ≡ answered 200 (some j)) × Counted j total hits)
unfolding scrape
scrape-Counted [] fetched total hits h = absurd (cc)
scrape-Counted (c ∷ url) unbuilt total hits h = absurd (cc)
scrape-Counted (c ∷ url) unreachable total hits h = absurd (cc)
scrape-Counted (c ∷ url) (answered status none) total hits h = absurd (unfold parse in ground arith)
scrape-Counted (c ∷ url) (answered status (some j)) total hits h =
    let fine : status ≡ 200 = ground arith in
    let parsed : parse (some j) ≡ totals total hits = ground arith in
    (ground arith, (j, ap (λ n. answered n (some j)) fine, parse-Counted j total hits parsed))
