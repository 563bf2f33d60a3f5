-- ===== src/Tests/Atlas.antt =====
-- A seed with one shard, whose first address is reached (diagnostic_gateway/tools.py).
use home_ai_agent.Base.{
  ◌≡◌, ◌⊎◌, ◌≤◌, refl, true, false, some, [], ◌∷◌, ◌++◌, ◌==◌, string_eq, nat_eq, All,
  if◌then◌else◌,
}
use home_ai_agent.Host.Config.{GatewayConfig, AtlasSeed}
use home_ai_agent.Host.Exec.{Tried, gave, refused}
use home_ai_agent.Host.Server.{other_failure}
use home_ai_agent.Host.Network.{Network, Ip, SrvRecord, Events, answered, no_answer, verified}
use home_ai_agent.Host.Atlas.{Report, find_seed, mongodb_atlas_connectivity}
use home_ai_agent.Host.Atlas.Permitted.{IsPermitted, Fails, connects}
use home_ai_agent.Host.Atlas.Returned.{mongodb_atlas_connectivity-returns}

abbrev cluster : AtlasSeed
cluster = record { seed = "db.example.net"; shard_hostname_suffix = "example.net"; port = 27017 }

abbrev gateway : GatewayConfig
gateway = record {
  containers = [];
  services = [];
  hosts = [];
  http_urls = [];
  container_http = [];
  tcp_targets = [];
  atlas_seeds = cluster ∷ [];
  disk_paths = [];
  write_containers = [];
  write_services = [];
  allowed_actions = [];
  autonomous_actions = [];
  writes_enabled = false;
}

abbrev public_ip : Ip
public_ip = record {
  is_loopback = false;
  is_link_local = false;
  is_multicast = false;
  is_unspecified = false;
  is_reserved = false;
  is_private = false;
  is_global = true;
}

abbrev shard : SrvRecord
shard = record { hostname = "shard-0.example.net"; port = 27017; priority = 0; weight = 0 }

abbrev internet : Network
unfolding string_eq
internet = record {
  normalized = λ s. s;
  ip_address = λ s. public_ip;
  time_left = λ l. 8000;
  lookup_left = λ l. 3000;
  resolver_ready = λ l. true;
  resolve_srv = λ l host. answered (shard ∷ []);
  resolve = λ l host kind. if kind == "A" then answered ("203.0.113.7" ∷ []) else no_answer;
  connect = λ l host address port timeout. verified;
  redact_text = λ s. s;
}

mongodb_atlas_connectivity-returns_example :
    (o : Tried Report) × (new : Events) × (mongodb_atlas_connectivity internet gateway
        "db.example.net" []
      ≡ (o, [] ++ new))
    × (((r : Report) × (o ≡ gave r)) ⊎ ((o ≡ refused other_failure) × Fails internet cluster []))
    × All (IsPermitted internet cluster) new
    × (connects new ≤ 6)
unfolding find_seed
mongodb_atlas_connectivity-returns_example =
    mongodb_atlas_connectivity-returns internet gateway "db.example.net" [] cluster found refl
  where
    found : find_seed gateway.atlas_seeds "db.example.net" ≡ some cluster
    found = refl
