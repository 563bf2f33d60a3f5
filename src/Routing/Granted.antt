-- ===== src/Routing/Granted.antt =====
-- What a first diagnostic is made of: a read-only tool of the route, with arguments that its schema grants.
use home_ai_agent.Base.{
  ◌≡◌, ◌≢◌, ◌∙◌, ◌==◌, refl, sym, ◌&&◌, true, false, Option, none, some, List, [], ◌∷◌, String,
  string_eq, In, head, tail, arith, ◌⊎◌, inl, inr, Bool-cases, Option-cases, ltb,
}
use home_ai_agent.Json.{Value, str, Items, nil, cons, Fields, end, field, lookup, insert}
use home_ai_agent.Gateway.{Registry, ToolEntry, find_tool}
use home_ai_agent.Routing.{
  IncidentSpec, routes, get_object, get_items, constrained_value, constrained_values,
  constrained_arguments, is_read_only, names_target, is_target, item_in, first_usable,
  initial_diagnostic,
}

lookup-insert :
    (k j : String) (v w : Value) (fs : Fields)
    → lookup k (insert j w fs) ≡ some v
    → (lookup k fs ≡ some v) ⊎ ((k ≡ j) × (v ≡ w))
lookup-insert k j v w end h = ground arith
lookup-insert k j v w (field i u fs) h = elim (string_eq.dec j i) [
  | yes same ↦ elim (string_eq.dec k j) [
    | yes e ↦ inr (e, ground arith)
    | no n ↦ inl (ground arith)
  ]
  | no other ↦ elim (string_eq.dec k i) [
    | yes e ↦ inl (ground arith)
    | no n ↦ elim (lookup-insert k j v w fs (ground arith)) [
      | inl l ↦ inl (ground arith)
      | inr r ↦ inr r
    ]
  ]
]

lookup-insert_same : (k : String) (w : Value) (fs : Fields) → lookup k (insert k w fs) ≡ some w
lookup-insert_same k w end = elim (string_eq.dec k k) [
  | yes e ↦ ground arith
  | no n ↦ absurd (n refl)
]
lookup-insert_same k w (field i u fs) =
    let rest = lookup-insert_same k w fs in
    elim (string_eq.dec k i) [ yes e ↦ ground arith | no n ↦ ground arith ]

lookup-insert_other :
    (k j : String) (w : Value) (fs : Fields) → k ≢ j → lookup k (insert j w fs) ≡ lookup k fs
lookup-insert_other k j w end n = elim (string_eq.dec k j) [
  | yes e ↦ absurd (n e)
  | no m ↦ ground arith
]
lookup-insert_other k j w (field i u fs) n = elim (string_eq.dec j i) [
  | yes e ↦ elim (string_eq.dec k j) [
    | yes f ↦ absurd (n f)
    | no m ↦ let o : (k == i) ≡ false = rw (sym e) (ground arith) in ground arith
  ]
  | no other ↦
      let rest = lookup-insert_other k j w fs n in
      elim (string_eq.dec k i) [ yes e ↦ ground arith | no m ↦ ground arith ]
]

-- a key of `required`
abbrev pub Requires : Items → String → Type 0
Requires nil k = ⊥
Requires (cons v vs) k = (v ≡ str k) ⊎ Requires vs k

module _ (target : String) (properties : Fields) where
  abbrev property : String → Fields
  property k = get_object k properties

  -- The value that the property of a key grants: the target of the incident, if the key names one and there is a
  -- target, and then it is in the `enum`; else the `const`, the first of the `enum` or the `default`.
  abbrev pub IsGrantedValue : String → Value → Type 0
  IsGrantedValue k v =
      (((names_target k && is_target target) ≡ true)
        × (v ≡ str target)
        × (item_in (str target) (get_items "enum" (property k)) ≡ true))
      ⊎ (((names_target k && is_target target) ≡ false)
          × ((lookup "const" (property k) ≡ some v)
              ⊎ ((lookup "const" (property k) ≡ none)
                  × (((vs : Items) × (get_items "enum" (property k) ≡ cons v vs))
                      ⊎ ((get_items "enum" (property k) ≡ nil)
                          × (lookup "default" (property k) ≡ some v))))))

  constrained_value-IsGrantedValue :
      (k : String) (v : Value)
      → constrained_value target k (property k) ≡ some v
      → IsGrantedValue k v
  unfolding constrained_value
  constrained_value-IsGrantedValue k v h = elim (Bool-cases (names_target k && is_target target)) [
    | inl y ↦ elim (Bool-cases (item_in (str target) (get_items "enum" (property k)))) [
      | inl i ↦ inl (y, ground arith, i)
      | inr o ↦ absurd (ground arith)
    ]
    | inr n ↦ elim (Option-cases (lookup "const" (property k))) [
      | inr (w, c) ↦ inr (n, inl (ground arith))
      | inl c ↦ inr (n, inr (c, of_enum (get_items "enum" (property k)) refl n c))
    ]
  ]
    where
      of_enum :
          (vs : Items)
          → get_items "enum" (property k) ≡ vs
          → (names_target k && is_target target) ≡ false
          → lookup "const" (property k) ≡ none
          → ((ws : Items) × (get_items "enum" (property k) ≡ cons v ws))
            ⊎ ((get_items "enum" (property k) ≡ nil) × (lookup "default" (property k) ≡ some v))
      of_enum nil e n c = inr (e, ground arith)
      of_enum (cons w ws) e n c = let same : w ≡ v = ground arith in inl (ws, rw same at e)

  constrained_values_steps :
      (k : String) (keys : Items) (values out : Fields)
      → constrained_values target properties (cons (str k) keys) values ≡ some out
      → (w : Value) × (constrained_value target k (property k) ≡ some w)
        × (constrained_values target properties keys (insert k w values) ≡ some out)
  unfolding constrained_values
  constrained_values_steps k keys values out h =
      elim (Option-cases (constrained_value target k (property k))) [
        | inl n ↦ absurd (ground arith)
        | inr (w, p) ↦ (w, p, ground arith)
      ]

  not_text :
      (key : Value) (keys : Items) (values out : Fields)
      → constrained_values target properties (cons key keys) values ≡ some out
      → (k : String) × (key ≡ str k)
  unfolding constrained_values
  not_text key keys values out h = ground arith

  -- an argument was there before, or it belongs to a required key and its property grants it
  constrained_values-granted :
      (keys : Items) (values out : Fields)
      → constrained_values target properties keys values ≡ some out
      → (k : String) (v : Value) → lookup k out ≡ some v
      → (lookup k values ≡ some v) ⊎ (Requires keys k × IsGrantedValue k v)
  unfolding constrained_values
  constrained_values-granted nil values out h k v l = inl (ground arith)
  constrained_values-granted (cons key keys) values out h k v l =
      let (j, e) = not_text key keys values out h in
      let (w, p, g) = constrained_values_steps j keys values out (rw e at h) in
      elim (constrained_values-granted keys (insert j w values) out g k v l) [
        | inr (r, fits) ↦ inr (inr r, fits)
        | inl i ↦ elim (lookup-insert k j v w values i) [
          | inl m ↦ inl m
          | inr (same, eq) ↦
              inr (inl (rw (e, same) refl), rw (same, eq) (constrained_value-IsGrantedValue j w p))
        ]
      ]

  -- a key that has a value keeps one
  Has : String → Fields → Type 0
  Has k fs = (v : Value) × (lookup k fs ≡ some v)

  insert-Has : (k j : String) (w : Value) (fs : Fields) → Has k fs → Has k (insert j w fs)
  unfolding Has
  insert-Has k j w fs (v, l) = elim (string_eq.dec k j) [
    | yes e ↦ (w, rw e (lookup-insert_same j w fs))
    | no n ↦ (v, lookup-insert_other k j w fs n ∙ l)
  ]

  constrained_values-Has :
      (keys : Items) (values out : Fields)
      → constrained_values target properties keys values ≡ some out
      → (k : String) → Has k values ⊎ Requires keys k
      → Has k out
  unfolding Has constrained_values
  constrained_values-Has nil values out h k (inl (v, l)) = (v, ground arith)
  constrained_values-Has nil values out h k (inr r) = absurd r
  constrained_values-Has (cons key keys) values out h k r =
      let (j, e) = not_text key keys values out h in
      let (w, p, g) = constrained_values_steps j keys values out (rw e at h) in
      constrained_values-Has keys (insert j w values) out g k (elim r [
        | inl l ↦ inl (insert-Has k j w values l)
        | inr (inl same) ↦
            let z : j ≡ k = ground arith in inl (w, rw z (lookup-insert_same k w values))
        | inr (inr later) ↦ inr later
      ])

-- A read-only tool of the registry; the arguments are those of its required keys, each granted by its property.
abbrev pub IsUsable : Registry → String → String → Fields → Type 0
IsUsable registry target name arguments =
    (entry : ToolEntry) × (find_tool registry name ≡ some entry)
    × (entry.risk_level ≡ some "READ_ONLY")
    × ((k : String)
        → Requires (get_items "required" entry.parameters) k
        → (v : Value) × (lookup k arguments ≡ some v))
    × ((k : String) (v : Value)
        → lookup k arguments ≡ some v
        → Requires (get_items "required" entry.parameters) k
          × IsGrantedValue target (get_object "properties" entry.parameters) k v)

constrained_arguments-granted :
    (entry : ToolEntry) (target : String) (out : Fields)
    → constrained_arguments entry target ≡ some out
    → ((k : String)
        → Requires (get_items "required" entry.parameters) k
        → (v : Value) × (lookup k out ≡ some v))
      × ((k : String) (v : Value)
          → lookup k out ≡ some v
          → Requires (get_items "required" entry.parameters) k
            × IsGrantedValue target (get_object "properties" entry.parameters) k v)
unfolding constrained_arguments Has
constrained_arguments-granted entry target out h =
    let properties = get_object "properties" entry.parameters in
    let keys = get_items "required" entry.parameters in
    (
      λ k r. constrained_values-Has target properties keys end out h k (inr r),
      λ k v l. elim (constrained_values-granted target properties keys end out h k v l) [
        | inl n ↦ absurd (cc)
        | inr r ↦ r
      ],
    )

read_only_risk : (risk : Option String) → is_read_only risk ≡ true → risk ≡ some "READ_ONLY"
unfolding string_eq
read_only_risk none h = cc
read_only_risk (some r) h = elim (string_eq.dec r "READ_ONLY") [
  | yes e ↦ rw e refl
  | no n ↦ absurd (ground arith)
]

first_usable-IsUsable :
    (registry : Registry) (target : String) (names : List String) (name : String)
    (arguments : Fields)
    → first_usable registry target names ≡ some (name, arguments)
    → In name names × IsUsable registry target name arguments
unfolding first_usable
first_usable-IsUsable registry target [] name arguments h = ground arith
first_usable-IsUsable registry target (n ∷ ns) name arguments h =
    let later : first_usable registry target ns ≡ some (name, arguments)
        → In name (n ∷ ns) × IsUsable registry target name arguments =
      λ g. let (i, u) = first_usable-IsUsable registry target ns name arguments g in (tail i, u) in
    elim (Option-cases (find_tool registry n)) [
      | inl missing ↦ later (ground arith)
      | inr (entry, found) ↦ elim (Bool-cases (is_read_only entry.risk_level)) [
        | inr other ↦ later (ground arith)
        | inl safe ↦ elim (Option-cases (constrained_arguments entry target)) [
          | inl refused ↦ later (ground arith)
          | inr (out, fits) ↦
              let e : n ≡ name = ground arith in
              let f : out ≡ arguments = ground arith in
              (
                head (sym e),
                (
                  entry,
                  rw e at found,
                  read_only_risk entry.risk_level safe,
                  (constrained_arguments-granted entry target arguments (rw f at fits)).0,
                  (constrained_arguments-granted entry target arguments (rw f at fits)).1,
                ),
              )
        ]
      ]
    ]

-- The first diagnostic is a tool of the category's route that the registry holds as read-only, and the
-- classification is at least even. Its arguments are exactly the required keys of the schema: a key
-- that names the target has the target of the incident, if there is one, and only if the `enum` of
-- the key lists it; any other key has its `const`, or else the first of its `enum`, or else its
-- `default`.
pub initial_diagnostic-IsUsable :
    (spec : IncidentSpec) (registry : Registry) (name : String) (arguments : Fields)
    → initial_diagnostic spec registry ≡ some (name, arguments)
    → In name (routes spec.category)
      × IsUsable registry spec.target name arguments
      × (ltb spec.confidence 500 ≡ false)
unfolding initial_diagnostic
initial_diagnostic-IsUsable spec registry name arguments h =
    let (i, u) =
      first_usable-IsUsable registry spec.target (routes spec.category) name arguments
        (ground arith) in
    (i, u, ground arith)
