-- ===== src/Agent/Budget/Compact.antt =====
-- `compact_context` of backend/app/context.py: tools, topology, hypotheses and history are abbreviated, and the
-- results of the observations share what is left of the budget.
pub mod Retained
use Prim.Native.Nat.{◌/◌}
use Prim.Native.String.{count}
use home_ai_agent.Base.{
  ℕ, zero, suc, ◌+◌, ◌-◌, ◌*◌, ◌≤◌, ◌≡◌, refl, ap, ◌∙◌, min, max, Bool, true, false, not, ◌&&◌,
  Option, none, some, List, [], ◌∷◌, ◌++◌, String, ◌==◌, string_eq, map, length, leb, ltb, Result,
  ok, err, value_error, lookup_error, type_error, attribute_error, ◌>>=◌, if◌then◌else◌, arith, inl,
  inr, Result-cases, Bool-cases,
}
use home_ai_agent.Json.{
  Value, null, str, arr, obj, Items, nil, cons, Fields, end, field, get, get_or, lookup, insert,
}
use home_ai_agent.Agent.Budget.{clipped, compact_schema, compact_result, sampled, Encoder}

-- `value[k] = f(value[k])`
unfoldable pub update_key : String → (Value → Result Value) → Fields → Result Fields
update_key k f fs = elim (lookup k fs) [
  | none ↦ err (lookup_error k)
  | some v ↦ f v >>= λ w. ok (insert k w fs)
]

-- `if isinstance(d.get(k), str): d[k] = clipped(d[k], limit)`
unfoldable pub clip_text : String → ℕ → Fields → Fields
clip_text k limit fs = elim (get k fs) [ str s ↦ insert k (str (clipped s limit)) fs | _ ↦ fs ]

unfoldable pub clipped_value : Value → ℕ → Result Value
clipped_value (str s) limit = ok (str (clipped s limit))
clipped_value _ limit = err (type_error "object has no len()")

-- `d[k] = clipped(d.get(k, ''), limit)`
unfoldable pub clip_or_empty : String → ℕ → Fields → Result Fields
clip_or_empty k limit fs = clipped_value (get_or k (str "") fs) limit >>= λ v. ok (insert k v fs)

-- `d.pop(k, None)`
unfoldable pub remove_key : String → Fields → Fields
unfolding string_eq
remove_key k end = end
remove_key k (field j v fs) = if k == j then fs else field j v (remove_key k fs)

abbrev remove_keys : List String → Fields → Fields
remove_keys [] fs = fs
remove_keys (k ∷ ks) fs = remove_keys ks (remove_key k fs)

-- a change of every object in a list
unfoldable pub each_object : (Fields → Result Fields) → Items → Result Items
each_object f nil = ok nil
each_object f (cons v vs) = elim v [
  | obj fs ↦ f fs >>= λ gs. each_object f vs >>= λ ws. ok (cons (obj gs) ws)
  | _ ↦ err (type_error "object is not subscriptable")
]

unfoldable pub in_list : (Items → Result Items) → Value → Result Value
in_list f (arr vs) = f vs >>= λ ws. ok (arr ws)
in_list f _ = err (type_error "object is not iterable")

unfoldable pub compact_tool : Fields → Result Fields
compact_tool tool =
    update_key "parameters" compact_schema tool >>= λ fs. ok (clip_text "description" 90 fs)

unfoldable pub compact_service : Fields → Fields
compact_service service =
    remove_keys ("name" ∷ "tags" ∷ "overview" ∷ "public_urls" ∷ "local_health_urls" ∷ [])
      (clip_text "description" 120 service)

unfoldable pub compact_services : Fields → Result Fields
compact_services end = ok end
compact_services (field name v rest) = elim v [
  | obj service ↦
      compact_services rest >>= λ others. ok (field name (obj (compact_service service)) others)
  | _ ↦ err (attribute_error "object has no attribute 'get'")
]

unfoldable pub set_services : Fields → Fields → Fields → Fields
set_services gs topology context = elim (lookup "services" topology) [
  | none ↦ context
  | some _ ↦ insert "topology" (obj (insert "services" (obj gs) topology)) context
]

-- `topology.get('services', {}).values()`
unfoldable pub services_of : Value → Result Fields
services_of (obj services) = ok services
services_of _ = err (attribute_error "object has no attribute 'values'")

unfoldable pub topology_of : Value → Result Fields
topology_of (obj topology) = ok topology
topology_of _ = err (attribute_error "object has no attribute 'get'")

unfoldable pub compact_topology : Fields → Result Fields
compact_topology context = topology_of (get_or "topology" (obj end) context) >>= λ topology.
    services_of (get_or "services" (obj end) topology) >>= λ services.
    compact_services services >>= λ gs. ok (set_services gs topology context)

unfoldable pub compact_hypothesis : Fields → Result Fields
compact_hypothesis h = elim (lookup "description" h) [
  | none ↦ err (lookup_error "description")
  | some _ ↦ clip_or_empty "description" 250 h
]

unfoldable pub compact_incident : Value → Result Value
compact_incident (obj fs) = clip_or_empty "description" 1200 fs >>= λ gs. ok (obj gs)
compact_incident _ = err (attribute_error "object has no attribute 'get'")

abbrev pub first_two : Value → Value
first_two (arr (cons v (cons w _))) = arr (cons v (cons w nil))
first_two v = v

unfoldable pub result_object : Option Value → Result Fields
result_object none = err (lookup_error "result")
result_object (some (obj result)) = ok result
result_object (some _) = err (attribute_error "object has no attribute 'get'")

-- an observation without its result, and the result
unfoldable pub take_result : Fields → Result (Fields × Fields)
take_result o = result_object (lookup "result" o) >>= λ result.
    clip_or_empty "interpretation" 180 (insert "result" (obj end) o) >>= λ rest. ok (rest, result)

unfoldable pub take_results : Items → Result (List (Fields × Fields))
take_results nil = ok []
take_results (cons v vs) = elim v [
  | obj o ↦ take_result o >>= λ p. take_results vs >>= λ ps. ok (p ∷ ps)
  | _ ↦ err (type_error "object is not subscriptable")
]

unfoldable pub listed : Option Value → Result (List (Fields × Fields))
listed none = err (lookup_error "observations")
listed (some (arr vs)) = take_results vs
listed (some _) = err (type_error "object is not iterable")

abbrev pub text_of : Value → String
text_of (str s) = s
text_of _ = ""

abbrev pub bare : List (Fields × Fields) → Items
bare [] = nil
bare (p ∷ ps) = cons (obj p.0) (bare ps)

abbrev pub total : List ℕ → ℕ
total [] = 0
total (n ∷ ns) = n + total ns

module _ (x : Encoder) where
  -- `sampled(value.get(key, [])[:2], 600, 3)`
  unfoldable pub compact_history : String → Fields → Result Fields
  compact_history k fs =
      sampled x 600 3 (first_two (get_or k (arr nil) fs)) 0 >>= λ v. ok (insert k v fs)

  -- everything but the observations
  unfoldable pub compact_frame : Fields → Result Fields
  compact_frame context = do
    let noted =
        insert "context_compacted"
          (str
            "Some bulky results are summarized; all observation IDs are retained. Full evidence remains persisted.")
          context
    a ← update_key "tools" (in_list (each_object compact_tool)) noted
    b ← compact_topology a
    c ← update_key "incident" compact_incident b
    d ← update_key "hypotheses" (in_list (each_object compact_hypothesis)) c
    f ← compact_history "retrieved_incidents" d
    compact_history "retrieved_runbooks" f

  abbrev pub with_observations : Items → Fields → Fields
  with_observations vs fs = insert "observations" (arr vs) fs

  abbrev without_history : Fields → Fields
  without_history fs =
      insert "retrieved_runbooks" (arr nil) (insert "retrieved_incidents" (arr nil) fs)

  abbrev pub weight : Fields → ℕ
  weight result = min 1800 (max 100 (x.size (obj result)))

  -- the results, each within its allocation
  unfoldable pub fill : (Fields → ℕ) → List (Fields × Fields) → Result Items
  fill allocation [] = ok nil
  fill allocation ((o, original) ∷ ps) =
      compact_result x original (allocation original) (text_of (get "interpretation" o)) >>= λ r.
      fill allocation ps >>= λ vs. ok (cons (obj (insert "result" (obj r) o)) vs)

  -- current observations take precedence over history
  unfoldable pub prefer_observations : ℕ → List (Fields × Fields) → Fields → Fields
  prefer_observations budget pairs frame =
      if ltb budget (x.size (obj (with_observations (bare pairs) frame)) + 128 * length pairs)
      then without_history frame
      else frame

  -- the weighted allocations, and equal ones if they overrun
  unfoldable pub share : ℕ → ℕ → List (Fields × Fields) → Fields → Result Fields
  share budget available pairs frame = do
    let sum = max 1 (total (map (λ p. weight p.1) pairs))
    vs ← fill (λ r. max 100 (available * weight r / sum)) pairs
    ws ←
        if leb (x.size (obj (with_observations vs frame))) budget
        then ok vs
        else fill (λ r. available / max 1 (length pairs)) pairs
    if leb (x.size (obj (with_observations ws frame))) budget
        then ok (with_observations ws frame)
        else err (value_error "Unable to compact context safely within AGENT_CONTEXT_CHARS")

  unfoldable pub distribute : ℕ → List (Fields × Fields) → Fields → Result Fields
  distribute budget pairs frame =
      let used = x.size (obj (with_observations (bare pairs) frame)) in
      if ltb budget (used + 32 + 100 * length pairs)
      then err (
          value_error
            "Context budget cannot retain tool constraints and current observation identities. Increase AGENT_CONTEXT_CHARS or begin a new incident.")
      else share budget (budget - used - 32) pairs frame

  unfoldable pub compact_context : Fields → ℕ → Result Fields
  compact_context context budget =
      if leb (x.size (obj context)) budget
      then ok context
      else (compact_frame context >>= λ frame. listed (lookup "observations" frame) >>= λ pairs.
          distribute budget pairs (prefer_observations budget pairs frame))
