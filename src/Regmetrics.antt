-- ===== src/Regmetrics.antt =====
-- internal/regmetrics/regmetrics.go: the registry cache's counters, from its expvar document.
use mathlib.Core.Option
pub mod Sound
use devplat_agent.Base.{
  ℕ, ◌+◌, ◌%◌, ◌^◌, ◌≡◌, refl, [], ◌∷◌, Option, none, some, if◌then◌else◌, ltb, ◌==◌,
}
use devplat_agent.Base.Int.{pos}
use devplat_agent.Base.Text.{Bytes, codes}
use devplat_agent.Json.{Json, null, num, obj, object}
use devplat_agent.Json.Decode.{key_matches, read_fields, read_struct}

pub record ProxyStats : Type 0 where
  pub requests : ℕ
  pub hits : ℕ
  pub misses : ℕ

-- A nil pointer is `none`.
pub record Registry : Type 0 where
  pub proxy : Option ProxyStats

pub record ExpvarPayload : Type 0 where
  pub registry : Option Registry

unfoldable pub read_uint64 : Json → ℕ → Option ℕ
read_uint64 null old = some old
read_uint64 (num (pos n)) old = if ltb n (2 ^ 64) then some n else none
read_uint64 _ old = none

unfoldable pub set_stats : Bytes → Json → ProxyStats → Option ProxyStats
set_stats k v p =
    if key_matches k (codes "Requests")
    then Option.map (λ n. record p { requests = n }) (read_uint64 v p.requests)
    else if key_matches k (codes "Hits")
    then Option.map (λ n. record p { hits = n }) (read_uint64 v p.hits)
    else if key_matches k (codes "Misses")
    then Option.map (λ n. record p { misses = n }) (read_uint64 v p.misses)
    else some p

-- A pointer to a struct: `null` makes it nil, an object is read into the struct that is there or
-- into a new one.
unfoldable pub read_pointer :
    {A : Type 0} → (Bytes → Json → A → Option A) → A → Json → Option A → Option (Option A)
read_pointer set fresh null old = some none
read_pointer set fresh (obj fs) none = Option.map some (read_fields set fs fresh)
read_pointer set fresh (obj fs) (some a) = Option.map some (read_fields set fs a)
read_pointer set fresh _ old = none

unfoldable pub set_registry : Bytes → Json → Registry → Option Registry
set_registry k v r =
    if key_matches k (codes "proxy")
    then Option.map (λ p. record { proxy = p })
        (read_pointer set_stats (record { requests = 0; hits = 0; misses = 0 }) v r.proxy)
    else some r

unfoldable pub set_payload : Bytes → Json → ExpvarPayload → Option ExpvarPayload
set_payload k v p =
    if key_matches k (codes "registry")
    then Option.map (λ r. record { registry = r })
        (read_pointer set_registry (record { proxy = none }) v p.registry)
    else some p

-- What parse returns: a decoding error, no proxy section, or the totals.
pub data Parsed : Type 0 where
  decode_error no_proxy : Parsed
  totals : ℕ → ℕ → Parsed

-- The sum is taken in uint64.
unfoldable pub report : ExpvarPayload → Parsed
report p = elim p.registry [
  | none ↦ no_proxy
  | some r ↦ elim r.proxy [
    | none ↦ no_proxy
    | some ps ↦ totals ((ps.hits + ps.misses) % 2 ^ 64) ps.hits
  ]
]

-- parse; `none` is a body that is no JSON.
unfoldable pub parse : Option Json → Parsed
unfolding report
parse none = decode_error
parse (some j) = elim (read_struct set_payload j (record { registry = none })) [
  | none ↦ decode_error
  | some p ↦ report p
]

-- What the request to the registry gives: no request could be built, no answer, or one with a status.
pub data Fetched : Type 0 where
  unbuilt unreachable : Fetched
  answered : ℕ → Option Json → Fetched

-- Scrape: the total of lookups and the hits, where they are known.
unfoldable pub scrape : Bytes → Fetched → Option (ℕ × ℕ)
unfolding parse
scrape [] fetched = none
scrape (c ∷ url) unbuilt = none
scrape (c ∷ url) unreachable = none
scrape (c ∷ url) (answered status body) =
    if status == 200
    then elim (parse body) [
      | decode_error ↦ none
      | no_proxy ↦ none
      | totals total hits ↦ some (total, hits)
    ]
    else none

abbrev sample : ℕ → ℕ → Json
sample hits misses = obj (
    object (
      (codes "memstats", obj (object ((codes "Alloc", num (pos 1234567)) ∷ [])))
      ∷ (
        codes "registry",
        obj (
            object (
              (
                codes "proxy",
                obj (
                    object (
                      (codes "Requests", num (pos 40))
                      ∷ (codes "Hits", num (pos hits))
                      ∷ (codes "Misses", num (pos misses))
                      ∷ (codes "BytesPulled", num (pos 123456789))
                      ∷ [])),
              )
              ∷ [])),
      )
      ∷ []))

scrape-sample : scrape (codes "http://x") (answered 200 (some (sample 30 10))) ≡ some (40, 30)
unfolding scrape read_struct read_fields set_payload set_registry read_pointer set_stats read_uint64
    key_matches
scrape-sample = refl
