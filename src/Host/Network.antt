-- ===== src/Host/Network.antt =====
-- The network of the Atlas diagnostic in diagnostic_gateway/safety.py: the address policy, the two resolvers and
-- the TLS probe. DNS, the sockets, TLS, `ipaddress` and the clock are parameters. A function takes the events
-- so far and gives its result and the events after it; measured times are left out of the results.
use home_ai_agent.Base.{
  ℕ, Bool, true, false, not, ◌&&◌, ◌||◌, Option, none, some, List, [], ◌∷◌, ◌++◌, String, ◌==◌,
  string_eq, nat_eq, all, map, select, ends_with, is_empty, codes, ltb, min, max, take, take_chars,
  if◌then◌else◌,
}
use Prim.Native.String.{◌++◌ as ◌<>◌}
use home_ai_agent.Autonomy.Evidence.{distinct}
use home_ai_agent.Host.Server.{Failure, tool_error, timed_out, other_failure}
use home_ai_agent.Host.Exec.{Tried, gave, refused}

-- the properties of `ipaddress.ip_address`
pub record Ip : Type 0 where
  pub is_loopback : Bool
  pub is_link_local : Bool
  pub is_multicast : Bool
  pub is_unspecified : Bool
  pub is_reserved : Bool
  pub is_private : Bool
  pub is_global : Bool

pub record SrvRecord : Type 0 where
  pub hostname : String
  pub port : ℕ
  pub priority : ℕ
  pub weight : ℕ

-- what `resolver.resolve` returns or raises
pub data Reply (A : Type 0) : Type 0 where
  answered : A → Reply A
  nx_domain no_answer no_nameservers dns_timeout dns_exception : Reply A

-- How a connection and its handshake end, with the text of the exception. `uncaught` is an exception that no
-- handler of the probe takes: an `OSError` of `socket.socket`, or another error of TLS.
pub data Handshake : Type 0 where
  tcp_timeout tcp_error tls_timeout certificate_error ssl_error tls_error expired :
      String → Handshake
  uncaught verified : Handshake

-- a lookup, and a probe of an address that passed the tests
pub data Event : Type 0 where
  looked_up : String → String → Event
  connected : String → String → ℕ → Event

abbrev pub Events : Type 0
Events = List Event

pub record Network : Type 0 where
  -- `text.lower().rstrip('.')`
  pub normalized : String → String
  pub ip_address : String → Ip
  -- milliseconds until the deadline of the diagnostic, and of one lookup
  pub time_left : Events → ℕ
  pub lookup_left : Events → ℕ
  -- whether `dns.resolver.Resolver()` finds its configuration; else it raises
  pub resolver_ready : Events → Bool
  pub resolve_srv : Events → String → Reply (List SrvRecord)
  pub resolve : Events → String → String → Reply (List String)
  -- a connection to an address and port, with the name that TLS verifies and a timeout
  pub connect : Events → String → String → ℕ → ℕ → Handshake
  pub redact_text : String → String

-- `a <= b` on texts, by code points
unfoldable codes_le : List ℕ → List ℕ → Bool
codes_le [] ys = true
codes_le (x ∷ xs) [] = false
codes_le (x ∷ xs) (y ∷ ys) =
    let rest = codes_le xs ys in if ltb x y then true else if ltb y x then false else rest

unfoldable text_le : String → String → Bool
unfolding codes codes_le
text_le s t = codes_le (codes s) (codes t)

-- `sorted`, for an order
unfoldable insert_by {ℓ} : {A : Type ℓ} → (A → A → Bool) → A → List A → List A
insert_by le x [] = x ∷ []
insert_by le x (y ∷ ys) = let rest = insert_by le x ys in if le x y then x ∷ y ∷ ys else y ∷ rest

unfoldable sorted_by {ℓ} : {A : Type ℓ} → (A → A → Bool) → List A → List A
unfolding insert_by
sorted_by le [] = []
sorted_by le (x ∷ xs) = insert_by le x (sorted_by le xs)

-- the key (priority, hostname, port, weight)
unfoldable srv_le : SrvRecord → SrvRecord → Bool
unfolding string_eq nat_eq text_le
srv_le a b =
    ltb a.priority b.priority
    || (a.priority == b.priority
        && (if a.hostname == b.hostname
            then (ltb a.port b.port || (a.port == b.port && not (ltb b.weight a.weight)))
            else text_le a.hostname b.hostname))

unfoldable pub same_srv : SrvRecord → SrvRecord → Bool
unfolding string_eq nat_eq
same_srv a b =
    a.hostname == b.hostname && a.port == b.port && a.priority == b.priority && a.weight == b.weight

-- `remaining`: milliseconds, or a `TimeoutError`
abbrev pub remaining : ℕ → Tried ℕ
unfolding nat_eq
remaining left = if left == 0 then refused timed_out else gave left

-- the lifetime of one lookup, from 1 ms to 5 s
abbrev pub lifetime : ℕ → ℕ
lifetime t = min (max t 1) 5000

abbrev pub code : String → String → Failure
code text error_code = tool_error text (some error_code)

-- the envelope of one probe
pub record Probe : Type 0 where
  pub address : String
  pub port : ℕ
  pub tcp_reachable : Bool
  pub tls_reachable : Bool
  pub error_code : Option String
  pub error : Option String

abbrev probe : String → ℕ → Bool → Bool → String → String → Probe
probe address port tcp tls error_code text = record {
  address = address;
  port = port;
  tcp_reachable = tcp;
  tls_reachable = tls;
  error_code = some error_code;
  error = some text;
}

module _ (net : Network) where
  unfoldable pub hostname_matches_suffix : String → String → Bool
  unfolding string_eq ends_with
  hostname_matches_suffix hostname suffix =
      let target = net.normalized hostname in
      let boundary = net.normalized suffix in
      not (target == "")
      && not (boundary == "")
      && not (target == boundary)
      && ends_with target ("." <> boundary)

  unfoldable pub safe_address : Bool → Bool → String → Bool
  safe_address local_target container_target address =
      let ip = net.ip_address address in
      if local_target
      then ip.is_loopback
      else if ip.is_link_local || ip.is_multicast || ip.is_unspecified || ip.is_reserved
      then false
      else if container_target
      then ip.is_private && not ip.is_loopback
      else ip.is_global

  abbrev srv_name : String → String
  srv_name host = "_mongodb._tcp." <> host

  abbrev named : SrvRecord → SrvRecord
  named r = record r { hostname = net.normalized r.hostname }

  unfoldable unique_srv : List SrvRecord → List SrvRecord
  unfolding same_srv
  unique_srv [] = []
  unique_srv (r ∷ records) = r ∷ select (λ x. not (same_srv r x)) (unique_srv records)

  unfoldable pub srv_result : Reply (List SrvRecord) → Tried (List SrvRecord)
  unfolding sorted_by srv_le unique_srv
  srv_result nx_domain = refused (code "Atlas SRV record was not found" "ATLAS_SRV_NOT_FOUND")
  srv_result no_answer = refused (code "Atlas SRV record was not returned" "ATLAS_SRV_NOT_FOUND")
  srv_result dns_timeout = refused (code "Atlas SRV lookup timed out" "ATLAS_SRV_TIMEOUT")
  srv_result no_nameservers =
      refused (code "Atlas DNS servers were unavailable" "ATLAS_SRV_DNS_UNAVAILABLE")
  srv_result dns_exception = refused (code "Atlas SRV lookup failed" "ATLAS_SRV_DNS_FAILURE")
  srv_result (answered records) =
      if is_empty records
      then refused (code "Atlas SRV record was not returned" "ATLAS_SRV_NOT_FOUND")
      else gave (sorted_by srv_le (unique_srv (map named records)))

  unfoldable pub resolve_srv_records : String → Events → Tried (List SrvRecord) × Events
  unfolding srv_result
  resolve_srv_records host l =
      if net.resolver_ready l
      then (
        srv_result (net.resolve_srv l (srv_name host)),
        l ++ (looked_up (srv_name host) "SRV" ∷ []),
      )
      else (refused other_failure, l)

  -- the lookups of the records, with the addresses so far and whether one timed out
  unfoldable pub lookups :
      String → List String → List String → Bool → Events → Tried (List String × Bool) × Events
  unfolding nat_eq
  lookups hostname [] found late l = (gave (found, late), l)
  lookups hostname (kind ∷ kinds) found late l =
      let after = l ++ (looked_up hostname kind ∷ []) in
      elim (remaining (net.lookup_left l)) [
        | refused _ ↦ (gave (found, true), l)
        | gave _ ↦ elim (net.resolve l hostname kind) [
          | answered texts ↦ lookups hostname kinds (found ++ texts) late after
          | dns_timeout ↦ lookups hostname kinds found true after
          | nx_domain ↦ lookups hostname kinds found late after
          | no_answer ↦ lookups hostname kinds found late after
          | no_nameservers ↦ lookups hostname kinds found late after
          | dns_exception ↦
              (refused (code "Atlas shard hostname lookup failed" "ATLAS_SHARD_DNS_FAILURE"), after)
        ]
      ]

  -- the first four addresses, if all of them are public
  unfoldable pub public_only : List String × Bool → Tried (List String)
  unfolding sorted_by text_le distinct safe_address
  public_only (found, late) =
      let addresses = take 4 (sorted_by text_le (distinct found)) in
      if is_empty found
      then refused (
          code "Atlas shard hostname did not resolve to A/AAAA addresses"
            (if late then "ATLAS_SHARD_DNS_TIMEOUT" else "ATLAS_SHARD_DNS_NOT_FOUND"))
      else if all (safe_address false false) addresses
      then gave addresses
      else refused (
          code "Atlas shard hostname resolved outside the public network scope"
            "ATLAS_ADDRESS_NOT_ALLOWED")

  abbrev pub then_public : Tried (List String × Bool) → Tried (List String)
  then_public (gave r) = public_only r
  then_public (refused x) = refused x

  unfoldable pub resolve_atlas_shard_addresses :
      String → String → Events → Tried (List String) × Events
  unfolding hostname_matches_suffix lookups
  resolve_atlas_shard_addresses hostname suffix l =
      if not (hostname_matches_suffix hostname suffix)
      then (
        refused (
            code "Atlas SRV target is outside the configured shard hostname suffix"
              "ATLAS_SRV_TARGET_NOT_ALLOWED"),
        l,
      )
      else if not (net.resolver_ready l)
      then (refused other_failure, l)
      else (let (found, after) = lookups hostname ("A" ∷ "AAAA" ∷ []) [] false l in
          (then_public found, after))

  -- `str(redact(text))[:300] or other`
  unfoldable error_text : String → String → String
  unfolding string_eq
  error_text text other =
      let t = take_chars 300 (net.redact_text text) in if t == "" then other else t

  unfoldable pub handshake_result : String → ℕ → Handshake → Tried Probe
  unfolding error_text
  handshake_result address port (tcp_timeout x) =
      gave (
        probe address port false false "ATLAS_TCP_TIMEOUT"
          (error_text x "TCP connection timed out"))
  handshake_result address port (tcp_error x) = gave (
      probe address port false false "ATLAS_TCP_CONNECT_FAILED"
        (error_text x "TCP connection failed"))
  handshake_result address port (tls_timeout x) =
      gave
        (probe address port true false "ATLAS_TLS_TIMEOUT" (error_text x "TLS handshake timed out"))
  handshake_result address port (certificate_error x) = gave (
      probe address port true false "ATLAS_TLS_CERTIFICATE_FAILED"
        (error_text x "TLS certificate verification failed"))
  handshake_result address port (ssl_error x) = gave (
      probe address port true false "ATLAS_TLS_HANDSHAKE_FAILED"
        (error_text x "TLS handshake failed"))
  handshake_result address port (tls_error x) = gave (
      probe address port true false "ATLAS_TLS_HANDSHAKE_FAILED"
        (error_text x "TLS handshake failed"))
  handshake_result address port (expired x) =
      gave (probe address port false false "ATLAS_PROBE_TIMEOUT" (error_text x ""))
  handshake_result address port uncaught = refused other_failure
  handshake_result address port verified = gave (record {
    address = address;
    port = port;
    tcp_reachable = true;
    tls_reachable = true;
    error_code = none;
    error = none;
  })

  unfoldable pub atlas_tls_probe : String → String → ℕ → ℕ → Events → Tried Probe × Events
  unfolding nat_eq safe_address handshake_result
  atlas_tls_probe hostname address port timeout l =
      if not (port == 27017)
      then (refused (code "Atlas TCP port is not allowed" "ATLAS_PORT_NOT_ALLOWED"), l)
      else if not (safe_address false false address)
      then (
        refused (
            code "Atlas destination address is outside the public network scope"
              "ATLAS_ADDRESS_NOT_ALLOWED"),
        l,
      )
      else (
        handshake_result address port (net.connect l hostname address port (lifetime timeout)),
        l ++ (connected hostname address port ∷ []),
      )
