-- ===== src/Host/Atlas/Permitted.antt =====
-- What the Atlas diagnostic of diagnostic_gateway/tools.py connects to.
use mathlib.Core.List.{append_assoc}
use home_ai_agent.Base.{
  ℕ, zero, suc, ◌+◌, ◌≤◌, ◌≡◌, refl, ap, ◌∙◌, Bool, true, false, List, [], ◌∷◌, ◌++◌, String,
  nat_eq, ◌==◌, min, All, all, take, arith, ◌⊎◌, inl, inr, Bool-cases, leb,
}
use home_ai_agent.Host.Server.{Failure, other_failure}
use home_ai_agent.Host.Config.{AtlasSeed}
use home_ai_agent.Host.Exec.{Tried, gave, refused}
use home_ai_agent.Host.Network.{
  Handshake, tcp_timeout, tcp_error, tls_timeout, certificate_error, ssl_error, tls_error, expired,
  uncaught, verified, Network, Event, looked_up, connected, Events, Probe, Reply, answered,
  nx_domain, no_answer, no_nameservers, dns_timeout, dns_exception, remaining,
  hostname_matches_suffix, safe_address, lookups, public_only, then_public,
  resolve_atlas_shard_addresses, atlas_tls_probe, handshake_result, lifetime,
}
use home_ai_agent.Host.Atlas.{Probing, probe_all}

-- the connections among the events
abbrev pub connects : Events → ℕ
connects [] = 0
connects (looked_up _ _ ∷ es) = connects es
connects (connected _ _ _ ∷ es) = suc (connects es)

pub all-take :
    {A : Type 0} (p : A → Bool) (n : ℕ) (xs : List A) → all p xs ≡ true → all p (take n xs) ≡ true
all-take p zero xs h = refl
all-take p (suc n) [] h = refl
all-take p (suc n) (x ∷ xs) h = let rest = all-take p n xs in ground arith

connects-append : (xs ys : Events) → connects (xs ++ ys) ≡ connects xs + connects ys
connects-append [] ys = omega arith
connects-append (looked_up _ _ ∷ es) ys = connects-append es ys
connects-append (connected _ _ _ ∷ es) ys = let rest = connects-append es ys in omega (arith, rest)

pub no_addresses : {x : Failure} {A : Type 0} {a : A} → refused x ≡ gave a → ⊥
no_addresses h = cc

module _ (net : Network) (c : AtlasSeed) where
  -- a connection goes to port 27017 of a public address, for a host under the suffix of the seed
  abbrev pub IsPermitted : Event → Type 0
  IsPermitted (looked_up _ _) = Unit
  IsPermitted (connected hostname address port) =
      (hostname_matches_suffix net hostname c.shard_hostname_suffix ≡ true)
      × (safe_address net false false address ≡ true)
      × (port ≡ 27017)

  All-snoc :
      (es : Events) (e : Event)
      → All IsPermitted es
      → IsPermitted e
      → All IsPermitted (es ++ (e ∷ []))
  All-snoc [] e h k = (k, tt)
  All-snoc (d ∷ ds) e (x, h) k = (x, All-snoc ds e h k)

  module _ (l0 : Events) where
    -- the events since `l0` are permitted, with at most n connections
    abbrev pub Since : ℕ → Events → Type 0
    Since n l = (new : Events) × (l ≡ l0 ++ new) × All IsPermitted new × (connects new ≤ n)

    pub Since-snoc :
        (n m : ℕ) (l : Events) (e : Event)
        → IsPermitted e
        → connects (e ∷ []) + n ≤ m
        → Since n l
        → Since m (l ++ (e ∷ []))
    Since-snoc n m l e k below (new, same, permitted, few) =
        let more = connects-append new (e ∷ []) in
        (
          new ++ (e ∷ []),
          ap (λ x. x ++ (e ∷ [])) same ∙ append_assoc l0 new (e ∷ []),
          All-snoc new e permitted k,
          omega (arith, few, more, below),
        )

    pub Since-wider : (n : ℕ) (l : Events) → n ≤ 6 → Since n l → Since 6 l
    Since-wider n l small (new, same, permitted, few) =
        (new, same, permitted, omega (arith, small, few))

    lookups-Since :
        (n : ℕ) (hostname : String) (kinds found : List String) (late : Bool) (l : Events)
        → Since n l
        → Since n (lookups net hostname kinds found late l).1
    unfolding lookups
    lookups-Since n hostname [] found late l h = h
    lookups-Since n hostname (kind ∷ kinds) found late l h =
        by_time (remaining (net.lookup_left l)) refl
          (λ found' late'. lookups-Since n hostname kinds found' late' after next)
      where
        after : Events
        after = l ++ (looked_up hostname kind ∷ [])

        next : Since n after
        next = Since-snoc n n l (looked_up hostname kind) tt (omega arith) h

        Rest : Type 0
        Rest =
            (found' : List String) (late' : Bool)
            → Since n (lookups net hostname kinds found' late' after).1

        by_reply :
            (r : Reply (List String))
            → net.resolve l hostname kind ≡ r
            → (t : ℕ) → remaining (net.lookup_left l) ≡ gave t
            → Rest
            → Since n (lookups net hostname (kind ∷ kinds) found late l).1
        by_reply (answered texts) e t f rest = rw (lookups, f, e) (rest (found ++ texts) late)
        by_reply dns_timeout e t f rest = rw (lookups, f, e) (rest found true)
        by_reply nx_domain e t f rest = rw (lookups, f, e) (rest found late)
        by_reply no_answer e t f rest = rw (lookups, f, e) (rest found late)
        by_reply no_nameservers e t f rest = rw (lookups, f, e) (rest found late)
        by_reply dns_exception e t f rest = rw (lookups, f, e) next

        by_time :
            (t : Tried ℕ)
            → remaining (net.lookup_left l) ≡ t
            → Rest
            → Since n (lookups net hostname (kind ∷ kinds) found late l).1
        by_time (refused x) f rest = rw (lookups, f) h
        by_time (gave t) f rest = by_reply (net.resolve l hostname kind) refl t f rest

    -- the addresses of a permitted host are public
    public_only-safe :
        (r : List String × Bool) (addresses : List String)
        → public_only net r ≡ gave addresses
        → all (safe_address net false false) addresses ≡ true
    unfolding public_only
    public_only-safe (found, late) addresses h = ground arith

    then_public-safe :
        (t : Tried (List String × Bool)) (addresses : List String)
        → then_public net t ≡ gave addresses
        → all (safe_address net false false) addresses ≡ true
    then_public-safe (gave r) addresses h = public_only-safe r addresses h
    then_public-safe (refused x) addresses h = absurd (cc)

    pub resolve-Since :
        (n : ℕ) (hostname : String) (l : Events)
        → Since n l
        → Since n (resolve_atlas_shard_addresses net hostname c.shard_hostname_suffix l).1
    unfolding resolve_atlas_shard_addresses
    resolve-Since n hostname l h =
        elim (Bool-cases (hostname_matches_suffix net hostname c.shard_hostname_suffix)) [
          | inl y ↦ elim (Bool-cases (net.resolver_ready l)) [
            | inl z ↦ rw (y, z) (lookups-Since n hostname ("A" ∷ "AAAA" ∷ []) [] false l h)
            | inr z ↦ rw (y, z) h
          ]
          | inr y ↦ rw y h
        ]

    pub resolve-IsSafe :
        (hostname : String) (l : Events) (addresses : List String)
        → (resolve_atlas_shard_addresses net hostname c.shard_hostname_suffix l).0 ≡ gave addresses
        → (hostname_matches_suffix net hostname c.shard_hostname_suffix ≡ true)
          × (all (safe_address net false false) addresses ≡ true)
    unfolding resolve_atlas_shard_addresses
    resolve-IsSafe hostname l addresses h =
        elim (Bool-cases (hostname_matches_suffix net hostname c.shard_hostname_suffix)) [
          | inl y ↦ elim (Bool-cases (net.resolver_ready l)) [
            | inl z ↦ (
              y,
              then_public-safe (lookups net hostname ("A" ∷ "AAAA" ∷ []) [] false l).0 addresses
                  (rw (y, z) at h),
            )
            | inr z ↦ absurd (no_addresses (rw (y, z) at h))
          ]
          | inr y ↦ absurd (no_addresses (rw y at h))
        ]

    -- what goes wrong outside every handler: the configuration of DNS, or a socket or TLS
    abbrev pub Fails : Type 0
    Fails =
        ((k : Events) × (net.resolver_ready k ≡ false))
        ⊎ ((k : Events) × (hostname : String) × (address : String) × (port : ℕ) × (t : ℕ)
            × (net.connect k hostname address port t ≡ uncaught))

    -- the error goes through to the caller, after at most six connections in all
    abbrev pub Raised : {A : Type 0} → Tried A × Events → Type 0
    Raised r = (last : Events) × (r ≡ (refused other_failure, last)) × Fails × Since 6 last

    handshake-told :
        (address : String) (port : ℕ) (h : Handshake)
        → ((r : Probe) × (handshake_result net address port h ≡ gave r))
          ⊎ ((handshake_result net address port h ≡ refused other_failure) × (h ≡ uncaught))
    unfolding handshake_result
    handshake-told address port (tcp_timeout x) = inl (_, refl)
    handshake-told address port (tcp_error x) = inl (_, refl)
    handshake-told address port (tls_timeout x) = inl (_, refl)
    handshake-told address port (certificate_error x) = inl (_, refl)
    handshake-told address port (ssl_error x) = inl (_, refl)
    handshake-told address port (tls_error x) = inl (_, refl)
    handshake-told address port (expired x) = inl (_, refl)
    handshake-told address port verified = inl (_, refl)
    handshake-told address port uncaught = inr (refl, refl)

    probe-runs :
        (c.port ≡ 27017)
        → (hostname address : String) (timeout : ℕ) (l : Events)
        → safe_address net false false address ≡ true
        → atlas_tls_probe net hostname address c.port timeout l ≡ (
          handshake_result net address c.port
              (net.connect l hostname address c.port (lifetime timeout)),
          l ++ (connected hostname address c.port ∷ []),
        )
    unfolding atlas_tls_probe
    probe-runs p hostname address timeout l safe =
        let open_port : (c.port == 27017) ≡ true = rw p refl in rw (open_port, safe) refl

    -- the inner loop ends with at most six connections in all
    abbrev pub Probed : Tried Probing × Events → Type 0
    Probed r =
        ((b : Probing) × (last : Events) × (r ≡ (gave b, last)) × (b.used ≤ 6) × Since b.used last)
        ⊎ Raised r

    pub probe_all-Probed :
        (c.port ≡ 27017)
        → (hostname : String) → hostname_matches_suffix net hostname c.shard_hostname_suffix ≡ true
        → (addresses : List String) (used : ℕ) (ps : List Probe) (l : Events)
        → all (safe_address net false false) addresses ≡ true
        → used ≤ 6
        → Since used l
        → Probed (probe_all net c hostname addresses used ps l)
    unfolding probe_all
    probe_all-Probed p hostname y [] used ps l safe few h = inl (_, l, refl, few, h)
    probe_all-Probed p hostname y (address ∷ addresses) used ps l safe few h =
        by_budget (Bool-cases (leb 6 used)) (λ ps' below h'.
          probe_all-Probed p hostname y addresses (suc used) ps' after (ground arith) below h')
      where
        after : Events
        after = l ++ (connected hostname address c.port ∷ [])

        this_safe : safe_address net false false address ≡ true
        this_safe = ground arith

        Rest : Type 0
        Rest =
            (ps' : List Probe)
            → suc used ≤ 6
            → Since (suc used) after
            → Probed (probe_all net c hostname addresses (suc used) ps' after)

        by_time :
            (t : Tried ℕ)
            → remaining (net.time_left l) ≡ t
            → leb 6 used ≡ false
            → Rest
            → Probed (probe_all net c hostname (address ∷ addresses) used ps l)
        by_time (refused x) f g rest = rw (probe_all, g, f) (inl (_, l, refl, few, h))
        by_time (gave t) f g rest =
            let ran = probe-runs p hostname address (min 3000 t) l this_safe in
            let below : suc used ≤ 6 = ground arith in
            let counted : Since (suc used) after =
              Since-snoc used (suc used) l _ (y, this_safe, p) (omega arith) h in
            elim (handshake-told address c.port
              (net.connect l hostname address c.port (lifetime (min 3000 t)))) [
                | inl (r, told) ↦
                    rw (probe_all, g, f, ran, told, ran) (rest (ps ++ (r ∷ [])) below counted)
                | inr (told, why) ↦
                    rw (probe_all, g, f, ran, told, ran)
                      (inr (
                        after,
                        refl,
                        inr (l, hostname, address, c.port, lifetime (min 3000 t), why),
                        Since-wider (suc used) after below counted,
                      ))
              ]

        by_budget :
            (leb 6 used ≡ true) ⊎ (leb 6 used ≡ false)
            → Rest
            → Probed (probe_all net c hostname (address ∷ addresses) used ps l)
        by_budget (inl g) rest = rw (probe_all, g) (inl (_, l, refl, few, h))
        by_budget (inr g) rest = by_time (remaining (net.time_left l)) refl g rest
