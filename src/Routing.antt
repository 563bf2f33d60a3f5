-- ===== src/Routing.antt =====
-- backend/app/routing.py: the first diagnostic of an incident, from the registry alone. A schema is the JSON
-- value of the gateway; `properties` and the properties are objects, `required` and `enum` lists.
pub mod Granted
use home_ai_agent.Base.{
  ℕ, ◌≡◌, Bool, true, false, not, ◌&&◌, ◌||◌, Option, none, some, List, [], ◌∷◌, String, ◌==◌,
  string_eq, contains, ltb, if◌then◌else◌, is_empty,
}
use home_ai_agent.Json.{
  Value, str, arr, obj, Items, nil, cons, Fields, end, field, lookup, insert, value_eq,
}
use home_ai_agent.Gateway.{Registry, ToolEntry, find_tool}

pub data Category : Type 0 where
  http_service container process systemd_service network disk database unknown : Category

-- the confidence is in thousandths
pub record IncidentSpec : Type 0 where
  pub category : Category
  pub target : String
  pub confidence : ℕ

abbrev pub routes : Category → List String
routes http_service = "http_check" ∷ []
routes container = "docker_inspect" ∷ "docker_list" ∷ []
routes process = "find_process" ∷ "process_list" ∷ []
routes systemd_service = "service_status" ∷ "journal_logs" ∷ []
routes network = "ping_host" ∷ "dns_lookup" ∷ "network_interfaces" ∷ []
routes disk = "disk_usage" ∷ []
routes database = "mongodb_atlas_connectivity" ∷ "port_check" ∷ "dns_lookup" ∷ []
routes unknown = []

-- `.get(key, {})` and `.get(key, [])`
abbrev pub get_object : String → Fields → Fields
get_object key fs = elim (lookup key fs) [ none ↦ end | some v ↦ elim v [ obj gs ↦ gs | _ ↦ end ] ]

abbrev pub get_items : String → Fields → Items
get_items key fs = elim (lookup key fs) [ none ↦ nil | some v ↦ elim v [ arr vs ↦ vs | _ ↦ nil ] ]

unfoldable pub item_in : Value → Items → Bool
item_in v nil = false
item_in v (cons w ws) = let rest = item_in v ws in value_eq v w || rest

-- `key in ('container', 'service', 'hostname', 'host', 'process')`
unfoldable pub names_target : String → Bool
unfolding string_eq
names_target = contains ("container" ∷ "service" ∷ "hostname" ∷ "host" ∷ "process" ∷ [])

-- `target`: the empty text is no target
unfoldable pub is_target : String → Bool
unfolding string_eq
is_target target = not (target == "")

-- the value for one required key, granted by its property
unfoldable pub constrained_value : String → String → Fields → Option Value
unfolding names_target is_target
constrained_value target key prop =
    let allowed = get_items "enum" prop in
    if names_target key && is_target target
    then (if item_in (str target) allowed then some (str target) else none)
    else (elim (lookup "const" prop) [
      | some v ↦ some v
      | none ↦ elim allowed [ cons v _ ↦ some v | nil ↦ lookup "default" prop ]
    ])

-- the loop over `required`, whose entries are texts
unfoldable pub constrained_values : String → Fields → Items → Fields → Option Fields
constrained_values target properties nil values = some values
constrained_values target properties (cons key keys) values = elim key [
  | str k ↦ elim (constrained_value target k (get_object k properties)) [
    | none ↦ none
    | some v ↦ constrained_values target properties keys (insert k v values)
  ]
  | _ ↦ none
]

unfoldable pub constrained_arguments : ToolEntry → String → Option Fields
constrained_arguments tool target =
    constrained_values target (get_object "properties" tool.parameters)
      (get_items "required" tool.parameters) end

abbrev pub is_read_only : Option String → Bool
is_read_only none = false
is_read_only (some risk) = risk == "READ_ONLY"

-- the first tool of the route that is read-only and whose arguments the schema settles
unfoldable pub first_usable : Registry → String → List String → Option (String × Fields)
unfolding string_eq
first_usable registry target [] = none
first_usable registry target (name ∷ names) =
    let rest = first_usable registry target names in
    elim (find_tool registry name) [
      | none ↦ rest
      | some tool ↦
          if is_read_only tool.risk_level
          then (elim (constrained_arguments tool target) [
            | some arguments ↦ some (name, arguments)
            | none ↦ rest
          ])
          else rest
    ]

abbrev pub is_unknown : Category → Bool
is_unknown unknown = true
is_unknown _ = false

unfoldable pub initial_diagnostic : IncidentSpec → Registry → Option (String × Fields)
initial_diagnostic spec registry =
    if is_unknown spec.category || ltb spec.confidence 500
    then none
    else first_usable registry spec.target (routes spec.category)
