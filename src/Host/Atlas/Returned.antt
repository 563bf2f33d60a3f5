-- ===== src/Host/Atlas/Returned.antt =====
-- How the Atlas diagnostic of diagnostic_gateway/tools.py ends.
use mathlib.Core.List.{append-nil}
use home_ai_agent.Base.{
  ◌⊎◌, Bool, ℕ, ◌≤◌, ◌≡◌, ◌∙◌, nat_eq, ap, refl, sym, true, false, some, List, [], ◌∷◌, ◌++◌,
  String, All, all, take, arith, inl, inr, Bool-cases,
}
use home_ai_agent.Host.Server.{Failure, tool_error, timed_out, other_failure}
use home_ai_agent.Host.Config.{GatewayConfig, AtlasSeed}
use home_ai_agent.Host.Exec.{Tried, gave, refused}
use home_ai_agent.Host.Network.{
  Reply, answered, nx_domain, no_answer, no_nameservers, dns_timeout, dns_exception, lookups,
  public_only, then_public, resolve_atlas_shard_addresses, srv_result, Network, looked_up, Events,
  SrvRecord, remaining, hostname_matches_suffix, safe_address, resolve_srv_records,
}
use home_ai_agent.Host.Atlas.{
  is_caught, Report, Shard, shard_addresses, probe_shards, seed_records, check_seed, find_seed,
  mongodb_atlas_connectivity, candidates, max_atlas_srv_records,
}
use home_ai_agent.Host.Atlas.Permitted.{
  connects, IsPermitted, Since, Since-snoc, probe_all-Probed, Fails, Raised, Since-wider,
  resolve-Since, resolve-IsSafe, no_addresses, all-take,
}

module _ (net : Network) (c : AtlasSeed) (l0 : Events) where
  abbrev After : ℕ → Events → Type 0
  After = Since net c l0

  abbrev Failing : Type 0
  Failing = Fails net c l0

  -- an error that the diagnostic catches, or one that goes through
  abbrev Explained : {A : Type 0} → Tried A → Type 0
  Explained {A} t =
      (x : Failure) → t ≡ refused x → (is_caught x ≡ true) ⊎ ((x ≡ other_failure) × Failing)

  lookups-Explained :
      (hostname : String) (kinds found : List String) (late : Bool) (l : Events)
      → Explained (lookups net hostname kinds found late l).0
  unfolding lookups
  lookups-Explained hostname [] found late l = λ x h. absurd (cc)
  lookups-Explained hostname (kind ∷ kinds) found late l =
      by_time (remaining (net.lookup_left l)) refl
        (λ found' late'. lookups-Explained hostname kinds found' late' after)
    where
      after : Events
      after = l ++ (looked_up hostname kind ∷ [])

      Rest : Type 0
      Rest =
          (found' : List String) (late' : Bool)
          → Explained (lookups net hostname kinds found' late' after).0

      by_reply :
          (r : Reply (List String))
          → net.resolve l hostname kind ≡ r
          → (t : ℕ) → remaining (net.lookup_left l) ≡ gave t
          → Rest
          → Explained (lookups net hostname (kind ∷ kinds) found late l).0
      by_reply (answered texts) e t f rest = rw (lookups, f, e) (rest (found ++ texts) late)
      by_reply dns_timeout e t f rest = rw (lookups, f, e) (rest found true)
      by_reply nx_domain e t f rest = rw (lookups, f, e) (rest found late)
      by_reply no_answer e t f rest = rw (lookups, f, e) (rest found late)
      by_reply no_nameservers e t f rest = rw (lookups, f, e) (rest found late)
      by_reply dns_exception e t f rest = rw (lookups, f, e) (λ x h. inl (ground arith))

      by_time :
          (t : Tried ℕ)
          → remaining (net.lookup_left l) ≡ t
          → Rest
          → Explained (lookups net hostname (kind ∷ kinds) found late l).0
      by_time (refused x) f rest = rw (lookups, f) (λ y h. absurd (cc))
      by_time (gave t) f rest = by_reply (net.resolve l hostname kind) refl t f rest

  then_public-Explained :
      (t : Tried (List String × Bool)) → Explained t → Explained (then_public net t)
  unfolding public_only
  then_public-Explained (gave r) k x h = inl (ground arith)
  then_public-Explained (refused y) k x h = let same : y ≡ x = ground arith in k x (ap refused same)

  resolve-Explained :
      (hostname : String) (l : Events)
      → Explained (resolve_atlas_shard_addresses net hostname c.shard_hostname_suffix l).0
  unfolding resolve_atlas_shard_addresses
  resolve-Explained hostname l =
      elim (Bool-cases (hostname_matches_suffix net hostname c.shard_hostname_suffix)) [
        | inr n ↦ rw n (λ x h. inl (ground arith))
        | inl y ↦ elim (Bool-cases (net.resolver_ready l)) [
          | inl z ↦
              rw (y, z)
                (then_public-Explained (lookups net hostname ("A" ∷ "AAAA" ∷ []) [] false l).0
                  (lookups-Explained hostname ("A" ∷ "AAAA" ∷ []) [] false l))
          | inr z ↦ rw (y, z) (λ x h. inr (ground arith, inl (l, z)))
        ]
      ]

  shard_addresses-Since :
      (n : ℕ) (hostname : String) (l : Events)
      → After n l
      → After n (shard_addresses net c hostname l).1
  unfolding shard_addresses
  shard_addresses-Since n hostname l h = by_time (remaining (net.time_left l)) refl
    where
      by_time :
          (t : Tried ℕ)
          → remaining (net.time_left l) ≡ t
          → After n (shard_addresses net c hostname l).1
      by_time (refused x) f = rw (shard_addresses, f) h
      by_time (gave t) f = rw (shard_addresses, f) (resolve-Since net c l0 n hostname l h)

  shard_addresses-IsSafe :
      (hostname : String) (l : Events) (addresses : List String)
      → (shard_addresses net c hostname l).0 ≡ gave addresses
      → (hostname_matches_suffix net hostname c.shard_hostname_suffix ≡ true)
        × (all (safe_address net false false) addresses ≡ true)
  unfolding shard_addresses
  shard_addresses-IsSafe hostname l addresses h = by_time (remaining (net.time_left l)) refl
    where
      by_time :
          (t : Tried ℕ)
          → remaining (net.time_left l) ≡ t
          → (hostname_matches_suffix net hostname c.shard_hostname_suffix ≡ true)
            × (all (safe_address net false false) addresses ≡ true)
      by_time (refused x) f = absurd (no_addresses (rw (shard_addresses, f) at h))
      by_time (gave t) f =
          resolve-IsSafe net c l0 hostname l addresses (rw (shard_addresses, f) at h)

  time_out-caught : (left : ℕ) (x : Failure) → remaining left ≡ refused x → is_caught x ≡ true
  unfolding nat_eq
  time_out-caught left x h = ground arith

  shard_addresses-Explained :
      (hostname : String) (l : Events) → Explained (shard_addresses net c hostname l).0
  unfolding shard_addresses
  shard_addresses-Explained hostname l = by_time (remaining (net.time_left l)) refl
    where
      by_time :
          (t : Tried ℕ)
          → remaining (net.time_left l) ≡ t
          → Explained (shard_addresses net c hostname l).0
      by_time (gave t) f = rw (shard_addresses, f) (resolve-Explained hostname l)
      by_time (refused y) f =
          rw (shard_addresses, f)
            (λ x h.
              let same : y ≡ x = ground arith in
              inl (time_out-caught (net.time_left l) x (f ∙ ap refused same)))

  abbrev Ends : {A : Type 0} → Tried A × Events → Type 0
  Ends {A} r = ((a : A) × (last : Events) × (r ≡ (gave a, last)) × After 6 last) ⊎ Raised net c l0 r

  probe_shards-Ends :
      (c.port ≡ 27017)
      → (records : List SrvRecord) (used : ℕ) (shards : List Shard) (l : Events) → used ≤ 6
      → After used l
      → Ends (probe_shards net c records used shards l)
  unfolding probe_shards
  probe_shards-Ends p [] used shards l few h = inl (_, l, refl, Since-wider net c l0 used l few h)
  probe_shards-Ends p (r ∷ records) used shards l few h =
      by_found (shard_addresses net c r.hostname l).0 refl (probe_shards-Ends p records)
    where
      after : Events
      after = (shard_addresses net c r.hostname l).1

      resolved : After used after
      resolved = shard_addresses-Since used r.hostname l h

      Rest : Type 0
      Rest =
          (used' : ℕ) (shards' : List Shard) (l' : Events)
          → used' ≤ 6
          → After used' l'
          → Ends (probe_shards net c records used' shards' l')

      by_found :
          (t : Tried (List String))
          → (shard_addresses net c r.hostname l).0 ≡ t
          → Rest
          → Ends (probe_shards net c (r ∷ records) used shards l)
      by_found (refused (tool_error text error_code)) f rest =
          rw (probe_shards, f) (rest used _ after few resolved)
      by_found (refused timed_out) f rest = rw (probe_shards, f) (rest used _ after few resolved)
      by_found (refused other_failure) f rest =
          elim (shard_addresses-Explained r.hostname l other_failure f) [
            | inl caught ↦ absurd (cc)
            | inr (_, why) ↦
                rw (probe_shards, f)
                  (inr (after, refl, why, Since-wider net c l0 used after few resolved))
          ]
      by_found (gave addresses) f rest =
          let (under, safe) = shard_addresses-IsSafe r.hostname l addresses f in
          elim (probe_all-Probed net c l0 p r.hostname under (take 2 addresses) used [] after
            (all-take (safe_address net false false) 2 addresses safe) few resolved) [
              | inr (last, ran, why, counted) ↦
                  rw (probe_shards, f, ran, ran) (inr (last, refl, why, counted))
              | inl (b, last, ran, few', counted) ↦ elim (Bool-cases b.exhausted) [
                | inl e ↦
                    rw (probe_shards, f, ran, e, ran)
                      (inl (_, last, refl, Since-wider net c l0 b.used last few' counted))
                | inr e ↦ rw (probe_shards, f, ran, e, ran) (rest b.used _ last few' counted)
              ]
            ]

  seed_records-Since : (l : Events) → After 0 l → After 0 (seed_records net c l).1
  unfolding seed_records resolve_srv_records
  seed_records-Since l h = by_time (remaining (net.time_left l)) refl
    where
      by_time : (t : Tried ℕ) → remaining (net.time_left l) ≡ t → After 0 (seed_records net c l).1
      by_time (refused x) f = rw (seed_records, f) h
      by_time (gave t) f = elim (Bool-cases (net.resolver_ready l)) [
        | inl z ↦
            rw (seed_records, f, z)
              (Since-snoc net c l0 0 0 l (looked_up _ "SRV") tt (omega arith) h)
        | inr z ↦ rw (seed_records, f, z) h
      ]

  srv_result-Explained : (r : Reply (List SrvRecord)) → Explained (srv_result net r)
  unfolding srv_result
  srv_result-Explained nx_domain x h = inl (ground arith)
  srv_result-Explained no_answer x h = inl (ground arith)
  srv_result-Explained dns_timeout x h = inl (ground arith)
  srv_result-Explained no_nameservers x h = inl (ground arith)
  srv_result-Explained dns_exception x h = inl (ground arith)
  srv_result-Explained (answered records) x h = inl (ground arith)

  seed_records-Explained : (l : Events) → Explained (seed_records net c l).0
  unfolding seed_records resolve_srv_records
  seed_records-Explained l = by_time (remaining (net.time_left l)) refl
    where
      by_time : (t : Tried ℕ) → remaining (net.time_left l) ≡ t → Explained (seed_records net c l).0
      by_time (refused y) f =
          rw (seed_records, f)
            (λ x h.
              let same : y ≡ x = ground arith in
              inl (time_out-caught (net.time_left l) x (f ∙ ap refused same)))
      by_time (gave t) f = elim (Bool-cases (net.resolver_ready l)) [
        | inl z ↦ rw (seed_records, f, z) (srv_result-Explained _)
        | inr z ↦ rw (seed_records, f, z) (λ x h. inr (ground arith, inl (l, z)))
      ]

  pub check_seed-Ends : (c.port ≡ 27017) → (l : Events) → After 0 l → Ends (check_seed net c l)
  unfolding check_seed
  check_seed-Ends p l h = by_found (seed_records net c l).0 refl
    where
      after : Events
      after = (seed_records net c l).1

      found_first : After 0 after
      found_first = seed_records-Since l h

      counted_first : After 6 after
      counted_first = Since-wider net c l0 0 after (omega arith) found_first

      by_found :
          (t : Tried (List SrvRecord)) → (seed_records net c l).0 ≡ t → Ends (check_seed net c l)
      by_found (refused (tool_error text error_code)) f =
          rw (check_seed, f) (inl (_, after, refl, counted_first))
      by_found (refused timed_out) f = rw (check_seed, f) (inl (_, after, refl, counted_first))
      by_found (refused other_failure) f = elim (seed_records-Explained l other_failure f) [
        | inl caught ↦ absurd (cc)
        | inr (_, why) ↦ rw (check_seed, f) (inr (after, refl, why, counted_first))
      ]
      by_found (gave records) f =
          let tried = take max_atlas_srv_records (candidates net c [] records).0 in
          elim (probe_shards-Ends p tried 0 [] after (omega arith) found_first) [
            | inl (shards, last, ran, within) ↦
                rw (check_seed, f, ran, ran) (inl (_, last, refl, within))
            | inr (last, ran, why, within) ↦
                rw (check_seed, f, ran, ran) (inr (last, refl, why, within))
          ]

-- For a configured seed with port 27017 (the only port that the configuration admits) the Atlas diagnostic
-- returns a report, whatever DNS answers and however the connections end, or it raises an exception that
-- no handler takes; then the DNS configuration could not be read, or a socket or TLS failed with an
-- error that the probe does not catch. In both cases it makes at most six connections, each of them to
-- port 27017 of a public address and for a host under the suffix of that seed.
pub mongodb_atlas_connectivity-returns :
    (net : Network) (config : GatewayConfig) (seed : String) (l : Events) (c : AtlasSeed)
    → find_seed config.atlas_seeds seed ≡ some c
    → c.port ≡ 27017
    → (o : Tried Report) × (new : Events) × (mongodb_atlas_connectivity net config seed l
        ≡ (o, l ++ new))
      × (((r : Report) × (o ≡ gave r)) ⊎ ((o ≡ refused other_failure) × Fails net c l))
      × All (IsPermitted net c) new
      × (connects new ≤ 6)
unfolding mongodb_atlas_connectivity
mongodb_atlas_connectivity-returns net config seed l c found p =
    elim (check_seed-Ends net c l p l ([], sym (append-nil l), tt, omega arith)) [
      | inl (r, last, ran, (new, same, permitted, few)) ↦ (
        gave r,
        new,
        rw (mongodb_atlas_connectivity, found, ran, same) refl,
        inl (r, refl),
        permitted,
        few,
      )
      | inr (last, ran, why, (new, same, permitted, few)) ↦ (
        refused other_failure,
        new,
        rw (mongodb_atlas_connectivity, found, ran, same) refl,
        inr (refl, why),
        permitted,
        few,
      )
    ]
