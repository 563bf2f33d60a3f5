-- ===== src/Host/Atlas.antt =====
-- `DiagnosticTools.mongodb_atlas_connectivity` of diagnostic_gateway/tools.py: the reachability of the shards of
-- a MongoDB Atlas seed, within fixed limits. A dictionary is a record of its keys.
pub mod Permitted
pub mod Returned
use home_ai_agent.Base.{
  ℕ, zero, suc, ◌+◌, Bool, true, false, not, ◌&&◌, ◌||◌, Option, none, some, List, [], ◌∷◌, ◌++◌,
  String, ◌==◌, string_eq, nat_eq, contains, any, map, length, is_empty, ltb, leb, min, take,
  if◌then◌else◌,
}
use home_ai_agent.Host.Server.{Failure, tool_error, other_failure}
use home_ai_agent.Host.Config.{GatewayConfig, AtlasSeed}
use home_ai_agent.Host.Exec.{Tried, gave, refused}
use home_ai_agent.Host.Network.{
  Network, Events, SrvRecord, Probe, remaining, resolve_srv_records, resolve_atlas_shard_addresses,
  hostname_matches_suffix, atlas_tls_probe,
}

abbrev pub max_atlas_srv_records : ℕ
max_atlas_srv_records = 6

abbrev pub max_atlas_addresses_per_shard : ℕ
max_atlas_addresses_per_shard = 2

abbrev pub max_atlas_endpoint_probes : ℕ
max_atlas_endpoint_probes = 6

abbrev pub max_atlas_endpoint_milliseconds : ℕ
max_atlas_endpoint_milliseconds = 3000

pub record Shard : Type 0 where
  pub hostname : String
  pub port : ℕ
  pub resolved : Bool
  pub addresses : List String
  pub probes : List Probe
  pub error_code : Option String
  pub error : Option String

pub record Report : Type 0 where
  pub seed : String
  pub port : ℕ
  pub reachable : Bool
  pub error_code : Option String
  pub error : Option String
  pub srv_resolved : Bool
  pub srv_records : List SrvRecord
  pub rejected_record_count : ℕ
  pub truncated : Bool
  pub srv_error_code : Option String
  pub srv_error : Option String
  pub shards : List Shard
  pub probe_budget_exhausted : Bool

-- `getattr(exc, 'error_code', None) or other`
unfoldable pub code_of : Failure → String → String
unfolding string_eq
code_of (tool_error _ (some error_code)) other = if error_code == "" then other else error_code
code_of _ other = other

-- `except (ToolError, TimeoutError)`
abbrev pub is_caught : Failure → Bool
is_caught other_failure = false
is_caught _ = true

-- the inner loop's results: the probes, how many were used, and whether the budget or the time ran out
pub record Probing : Type 0 where
  pub probes : List Probe
  pub used : ℕ
  pub exhausted : Bool
  pub late : Bool

abbrev probing : List Probe → ℕ → Bool → Bool → Probing
probing ps n exhausted late = record { probes = ps; used = n; exhausted = exhausted; late = late }

abbrev pub is_reached : Probe → Bool
is_reached p = p.tls_reachable

-- `shard['probes'][-1]['error_code']`
unfoldable last_code : List Probe → Option String
last_code [] = none
last_code (p ∷ []) = p.error_code
last_code (p ∷ q ∷ ps) = last_code (q ∷ ps)

module _ (net : Network) (c : AtlasSeed) where
  -- the permitted records and how many were rejected, after the hosts that were seen
  unfoldable pub candidates : List String → List SrvRecord → List SrvRecord × ℕ
  unfolding string_eq nat_eq hostname_matches_suffix
  candidates seen [] = ([], 0)
  candidates seen (r ∷ records) =
      elim (r.port == c.port
        && hostname_matches_suffix net r.hostname c.shard_hostname_suffix
        && not (contains seen r.hostname)) [
          | true ↦
              let (kept, rejected) = candidates (r.hostname ∷ seen) records in (r ∷ kept, rejected)
          | false ↦ let (kept, rejected) = candidates seen records in (kept, suc rejected)
        ]

  -- the inner loop over the addresses of a shard
  unfoldable pub probe_all : String → List String → ℕ → List Probe → Events → Tried Probing × Events
  unfolding nat_eq atlas_tls_probe
  probe_all hostname [] used ps l = (gave (probing ps used false false), l)
  probe_all hostname (address ∷ addresses) used ps l = elim (leb max_atlas_endpoint_probes used) [
    | true ↦ (gave (probing ps used true false), l)
    | false ↦ elim (remaining (net.time_left l)) [
      | refused _ ↦ (gave (probing ps used true true), l)
      | gave t ↦
          let timeout = min max_atlas_endpoint_milliseconds t in
          let (r, after) = atlas_tls_probe net hostname address c.port timeout l in
          elim r [
            | refused x ↦ (refused x, after)
            | gave p ↦ probe_all hostname addresses (suc used) (ps ++ (p ∷ [])) after
          ]
    ]
  ]

  unfoldable pub unresolved : String → Failure → Shard
  unfolding code_of
  unresolved hostname x = record {
    hostname = hostname;
    port = c.port;
    resolved = false;
    addresses = [];
    probes = [];
    error_code = some (code_of x "ATLAS_PROBE_TIMEOUT");
    error = some "Atlas shard hostname resolution did not complete";
  }

  unfoldable pub shard_of : String → List String → Probing → Shard
  unfolding last_code
  shard_of hostname addresses b =
      let unreached = not (is_empty b.probes) && not (any is_reached b.probes) in
      record {
        hostname = hostname;
        port = c.port;
        resolved = true;
        addresses = addresses;
        probes = b.probes;
        error_code =
            if unreached
            then last_code b.probes
            else if b.late
            then some "ATLAS_PROBE_TIMEOUT"
            else none;
        error =
            if unreached
            then some "Atlas shard did not complete a verified TLS handshake"
            else if b.late
            then some "Atlas diagnostic reached its total time limit"
            else none;
      }

  -- the lookup of a shard's addresses in the time that is left
  unfoldable pub shard_addresses : String → Events → Tried (List String) × Events
  unfolding nat_eq resolve_atlas_shard_addresses
  shard_addresses hostname l = elim (remaining (net.time_left l)) [
    | refused x ↦ (refused x, l)
    | gave t ↦ resolve_atlas_shard_addresses net hostname c.shard_hostname_suffix l
  ]

  -- the outer loop, with the probes used so far; the shards, and whether the budget or the time ran out
  unfoldable pub probe_shards :
      List SrvRecord → ℕ → List Shard → Events → Tried (List Shard × Bool) × Events
  unfolding probe_all shard_addresses unresolved shard_of
  probe_shards [] used shards l = (gave (shards, false), l)
  probe_shards (r ∷ records) used shards l =
      let (found, after) = shard_addresses r.hostname l in
      elim found [
        | refused x ↦ elim (is_caught x) [
          | true ↦ probe_shards records used (shards ++ (unresolved r.hostname x ∷ [])) after
          | false ↦ (refused x, after)
        ]
        | gave addresses ↦
            let some_addresses = take max_atlas_addresses_per_shard addresses in
            let (tried, last) = probe_all r.hostname some_addresses used [] after in
            elim tried [
              | refused x ↦ (refused x, last)
              | gave b ↦
                  let shards' = shards ++ (shard_of r.hostname some_addresses b ∷ []) in
                  elim b.exhausted [
                    | true ↦ (gave (shards', true), last)
                    | false ↦ probe_shards records b.used shards' last
                  ]
            ]
      ]

  abbrev has_reached : Shard → Bool
  has_reached s = any is_reached s.probes

  -- the report of a lookup that failed
  unfoldable pub no_records : Failure → Report
  unfolding code_of
  no_records x =
      let error_code = code_of x "ATLAS_SRV_TIMEOUT" in
      record {
        seed = c.seed;
        port = c.port;
        reachable = false;
        error_code = some error_code;
        error = some "Atlas SRV lookup did not complete";
        srv_resolved = false;
        srv_records = [];
        rejected_record_count = 0;
        truncated = false;
        srv_error_code = some error_code;
        srv_error = some "Atlas SRV lookup did not complete";
        shards = [];
        probe_budget_exhausted = false;
      }

  -- the report after the probes
  unfoldable pub report : List SrvRecord → ℕ → List Shard × Bool → Report
  report kept rejected (shards, exhausted) =
      let reached = any has_reached shards in
      record {
        seed = c.seed;
        port = c.port;
        reachable = reached;
        error_code =
            if is_empty kept
            then some "ATLAS_NO_ALLOWED_SRV_TARGETS"
            else if reached
            then none
            else if exhausted
            then some "ATLAS_PROBE_TIMEOUT"
            else some "ATLAS_TLS_UNREACHABLE";
        error =
            if is_empty kept
            then some "Atlas SRV response had no permitted shard targets"
            else if reached
            then none
            else some "No permitted Atlas shard completed a verified TLS handshake";
        srv_resolved = true;
        srv_records = take max_atlas_srv_records kept;
        rejected_record_count = rejected;
        truncated = ltb max_atlas_srv_records (length kept);
        srv_error_code = none;
        srv_error = none;
        shards = shards;
        probe_budget_exhausted = exhausted;
      }

  -- the lookup of the seed's records in the time that is left
  unfoldable pub seed_records : Events → Tried (List SrvRecord) × Events
  unfolding nat_eq resolve_srv_records
  seed_records l = elim (remaining (net.time_left l)) [
    | refused x ↦ (refused x, l)
    | gave t ↦ resolve_srv_records net c.seed l
  ]

  -- the diagnostic of one configured seed; without a candidate no shard is tried
  unfoldable pub check_seed : Events → Tried Report × Events
  unfolding seed_records candidates probe_shards no_records report
  check_seed l =
      let (found, after) = seed_records l in
      elim found [
        | refused x ↦ elim (is_caught x) [
          | true ↦ (gave (no_records x), after)
          | false ↦ (refused x, after)
        ]
        | gave records ↦
            let (kept, rejected) = candidates [] records in
            let (tried, last) = probe_shards (take max_atlas_srv_records kept) 0 [] after in
            elim tried [
              | refused x ↦ (refused x, last)
              | gave r ↦ (gave (report kept rejected r), last)
            ]
      ]

-- `next(item for item in atlas_seeds if item.seed == seed)`, after `require`
unfoldable pub find_seed : List AtlasSeed → String → Option AtlasSeed
unfolding string_eq
find_seed [] seed = none
find_seed (c ∷ seeds) seed = if c.seed == seed then some c else find_seed seeds seed

unfoldable pub mongodb_atlas_connectivity :
    Network → GatewayConfig → String → Events → Tried Report × Events
unfolding check_seed find_seed
mongodb_atlas_connectivity net config seed l = elim (find_seed config.atlas_seeds seed) [
  | none ↦ (refused (tool_error "Atlas seed is not allowlisted" none), l)
  | some c ↦ check_seed net c l
]
