-- ===== src/Agent/Budget/Compact/Retained.antt =====
-- What the compaction of a context guarantees (`compact_context` of backend/app/context.py).
use Prim.Native.Nat.{◌/◌}
use home_ai_agent.Base.{
  ℕ, ◌≤◌, ◌≡◌, refl, ap, sym, ◌∙◌, true, false, Option, none, some, List, [], ◌∷◌, String, ◌==◌,
  string_eq, map, leb, Result, ok, arith, inl, inr, Result-cases, then_ok, ◌>>=◌, Option-cases,
  Bool-cases, if◌then◌else◌, max, length, ltb, ◌*◌, ◌+◌, ◌-◌,
}
use home_ai_agent.Json.{
  Value, null, int, float, bool, obj, arr, str, Items, nil, cons, Fields, end, field, get, get_or,
  lookup, insert,
}
use home_ai_agent.Agent.Budget.{Encoder, compact_result, sampled}
use home_ai_agent.Agent.Budget.Compact.{
  update_key, in_list, each_object, compact_tool, compact_incident, compact_hypothesis, listed,
  clip_or_empty, clipped_value, result_object, topology_of, services_of, set_services,
  compact_services, compact_topology, compact_history, compact_frame, take_result, take_results,
  with_observations, bare, fill, total, weight, text_of, first_two, prefer_observations, share,
  distribute, compact_context,
}

same_key : (k : String) → (k == k) ≡ true
same_key k = elim (string_eq.dec k k) [ yes y ↦ ground arith | no n ↦ absurd (n refl) ]

lookup-insert : (k : String) (v : Value) (fs : Fields) → lookup k (insert k v fs) ≡ some v
lookup-insert k v end = let s = same_key k in ground arith
lookup-insert k v (field j w fs) =
    let s = same_key k in
    elim (Bool-cases (k == j)) [ inl y ↦ rw (y, s) refl | inr n ↦ rw (n, n) (lookup-insert k v fs) ]

lookup-insert_other :
    (j k : String) (v : Value) (fs : Fields)
    → (j == k) ≡ false
    → lookup j (insert k v fs) ≡ lookup j fs
lookup-insert_other j k v end h = rw h refl
lookup-insert_other j k v (field i w fs) h = elim (string_eq.dec k i) [
  | yes y ↦
      let a : (k == i) ≡ true = ground arith in
      let b : (j == i) ≡ false = rw (sym y) h in rw (a, h, b) refl
  | no n ↦
      let a : (k == i) ≡ false = ground arith in
      let rest = lookup-insert_other j k v fs h in
      rw (a) (ap (λ o. if j == i then some w else o) rest)
]

-- what identifies the observations of a context
abbrev id_of : Value → Value
id_of (obj o) = get "id" o
id_of _ = null

abbrev ids_of : Items → List Value
ids_of nil = []
ids_of (cons v vs) = id_of v ∷ ids_of vs

abbrev listed_ids : Option Value → List Value
listed_ids (some (arr vs)) = ids_of vs
listed_ids _ = []

abbrev pub observation_ids : Fields → List Value
observation_ids fs = listed_ids (lookup "observations" fs)

abbrev pair_ids : List (Fields × Fields) → List Value
pair_ids [] = []
pair_ids (p ∷ ps) = get "id" p.0 ∷ pair_ids ps

get-insert_other : (r o : Fields) → get "id" (insert "result" (obj r) o) ≡ get "id" o
unfolding string_eq
get-insert_other r o =
    ap (λ m. elim m [ none ↦ null | some v ↦ v ]) (lookup-insert_other "id" "result" (obj r) o refl)

module _ (x : Encoder) where
  fill-ids :
      (allocation : Fields → ℕ) (ps : List (Fields × Fields)) {ws : Items}
      → fill x allocation ps ≡ ok ws
      → ids_of ws ≡ pair_ids ps
  unfolding fill
  fill-ids allocation [] {ws} h = let z : nil ≡ ws = ground arith in ap ids_of (sym z)
  fill-ids allocation ((o, original) ∷ ps) {ws} h =
      elim (Result-cases
        (compact_result x original (allocation original) (text_of (get "interpretation" o)))) [
          | inl (y, p) ↦ absurd (ground arith)
          | inr (r, p) ↦ elim (Result-cases (fill x allocation ps)) [
            | inl (y, q) ↦ absurd (ground arith)
            | inr (vs, q) ↦
                let z : cons (obj (insert "result" (obj r) o)) vs ≡ ws = ground arith in
                let kept : get "id" (insert "result" (obj r) o) ≡ get "id" o =
                  get-insert_other r o in
                ap ids_of (sym z)
                ∙ ap (λ v. v ∷ ids_of vs) kept
                ∙ ap (λ l. get "id" o ∷ l) (fill-ids allocation ps q)
          ]
        ]

  share-steps :
      (budget available : ℕ) (ps : List (Fields × Fields)) (frame : Fields) {w : Fields}
      → share x budget available ps frame ≡ ok w
      → (x.size (obj w) ≤ budget)
        × ((ws : Items) × (w ≡ with_observations x ws frame) × (ids_of ws ≡ pair_ids ps))
  unfolding share
  share-steps budget available ps frame {w} h =
      let sum = max 1 (total (map (λ p. weight x p.1) ps)) in
      let weighted = λ (r : Fields). max 100 (available * weight x r / sum) in
      let equal = λ (r : Fields). available / max 1 (length ps) in
      elim (Result-cases (fill x weighted ps)) [
        | inl (y, p) ↦ absurd (ground arith)
        | inr (vs, p) ↦
            elim (Bool-cases (leb (x.size (obj (with_observations x vs frame))) budget)) [
              | inl fits ↦
                  let z : with_observations x vs frame ≡ w = ground arith in
                  (rw (sym z) (ground arith), (vs, sym z, fill-ids weighted ps p))
              | inr over ↦ elim (Result-cases (fill x equal ps)) [
                | inl (y, q) ↦ absurd (ground arith)
                | inr (ws, q) ↦
                    elim (Bool-cases (leb (x.size (obj (with_observations x ws frame))) budget)) [
                      | inl fits ↦
                          let z : with_observations x ws frame ≡ w = ground arith in
                          (rw (sym z) (ground arith), (ws, sym z, fill-ids equal ps q))
                      | inr still ↦ absurd (ground arith)
                    ]
              ]
            ]
      ]

-- a change of another key leaves the observations
abbrev Same : Fields → Fields → Type 0
Same gs fs = lookup "observations" gs ≡ lookup "observations" fs

insert-Same :
    (k : String) (v : Value) (fs : Fields) → ("observations" == k) ≡ false → Same (insert k v fs) fs
insert-Same k v fs = lookup-insert_other "observations" k v fs

update_key-Same :
    (k : String) (f : Value → Result Value) (fs : Fields) {gs : Fields}
    → ("observations" == k) ≡ false
    → update_key k f fs ≡ ok gs
    → Same gs fs
unfolding update_key
update_key-Same k f fs {gs} other h = elim (Option-cases (lookup k fs)) [
  | inl p ↦ absurd (ground arith)
  | inr (v, p) ↦ elim (Result-cases (f v)) [
    | inl (y, q) ↦ absurd (ground arith)
    | inr (w, q) ↦
        let z : insert k w fs ≡ gs = ground arith in rw (sym z) (insert-Same k w fs other)
  ]
]

set_services-Same : (ts topology fs : Fields) → Same (set_services ts topology fs) fs
unfolding set_services string_eq
set_services-Same ts topology fs = elim (Option-cases (lookup "services" topology)) [
  | inl n ↦ rw (set_services, n) refl
  | inr (v, y) ↦
      rw (set_services, y)
        (insert-Same "topology" (obj (insert "services" (obj ts) topology)) fs refl)
]

compact_topology-Same : (fs : Fields) {gs : Fields} → compact_topology fs ≡ ok gs → Same gs fs
unfolding compact_topology
compact_topology-Same fs {gs} h =
    elim (Result-cases (topology_of (get_or "topology" (obj end) fs))) [
      | inl (y, p) ↦ absurd (ground arith)
      | inr (topology, p) ↦
          elim (Result-cases (services_of (get_or "services" (obj end) topology))) [
            | inl (y, q) ↦ absurd (ground arith)
            | inr (services, q) ↦ elim (Result-cases (compact_services services)) [
              | inl (y, r) ↦ absurd (ground arith)
              | inr (ts, r) ↦
                  let z : set_services ts topology fs ≡ gs = ground arith in
                  rw (sym z) (set_services-Same ts topology fs)
            ]
          ]
    ]

module _ (x : Encoder) where
  compact_history-Same :
      (k : String) (fs : Fields) {gs : Fields}
      → ("observations" == k) ≡ false
      → compact_history x k fs ≡ ok gs
      → Same gs fs
  unfolding compact_history
  compact_history-Same k fs {gs} other h =
      elim (Result-cases (sampled x 600 3 (first_two (get_or k (arr nil) fs)) 0)) [
        | inl (y, p) ↦ absurd (ground arith)
        | inr (v, p) ↦
            let z : insert k v fs ≡ gs = ground arith in rw (sym z) (insert-Same k v fs other)
      ]

take_result-id :
    (o : Fields) {p : Fields × Fields} → take_result o ≡ ok p → get "id" p.0 ≡ get "id" o
unfolding take_result clip_or_empty string_eq
take_result-id o {p} h = elim (Result-cases (result_object (lookup "result" o))) [
  | inl (y, q) ↦ absurd (ground arith)
  | inr (result, q) ↦
      elim (Result-cases
        (clipped_value (get_or "interpretation" (str "") (insert "result" (obj end) o)) 180)) [
          | inl (y, r) ↦ absurd (ground arith)
          | inr (v, r) ↦
              let z : insert "interpretation" v (insert "result" (obj end) o) ≡ p.0 =
                ground arith in
              rw (sym z) (
                ap (λ m. elim m [ none ↦ null | some v ↦ v ])
                  (lookup-insert_other "id" "interpretation" v (insert "result" (obj end) o) refl)
                ∙ get-insert_other end o)
        ]
]

take_results-ids :
    (vs : Items) {ps : List (Fields × Fields)} → take_results vs ≡ ok ps → pair_ids ps ≡ ids_of vs
unfolding take_results
take_results-ids nil {ps} h = let z : [] ≡ ps = ground arith in ap pair_ids (sym z)
take_results-ids (cons (obj o) vs) {ps} h =
    let (p, taken, k) = then_ok (take_result o) _ h in
    let (qs, others, j) = then_ok (take_results vs) _ k in
    let z : p ∷ qs ≡ ps = ground arith in
    ap pair_ids (sym z)
    ∙ ap (λ v. v ∷ pair_ids qs) (take_result-id o taken)
    ∙ ap (λ l. get "id" o ∷ l) (take_results-ids vs others)
take_results-ids (cons (arr ws) vs) h = absurd (ground arith)
take_results-ids (cons (str s) vs) h = absurd (ground arith)
take_results-ids (cons (int i) vs) h = absurd (ground arith)
take_results-ids (cons (float i) vs) h = absurd (ground arith)
take_results-ids (cons (bool b) vs) h = absurd (ground arith)
take_results-ids (cons null vs) h = absurd (ground arith)

listed-ids :
    (o : Option Value) {ps : List (Fields × Fields)}
    → listed o ≡ ok ps
    → (vs : Items) × (o ≡ some (arr vs)) × (pair_ids ps ≡ ids_of vs)
unfolding listed
listed-ids none h = absurd (ground arith)
listed-ids (some (arr vs)) h = (vs, refl, take_results-ids vs h)
listed-ids (some (obj o)) h = absurd (ground arith)
listed-ids (some (str s)) h = absurd (ground arith)
listed-ids (some (int i)) h = absurd (ground arith)
listed-ids (some (float i)) h = absurd (ground arith)
listed-ids (some (bool b)) h = absurd (ground arith)
listed-ids (some null) h = absurd (ground arith)

module _ (x : Encoder) where
  compact_frame-Same : (fs : Fields) {gs : Fields} → compact_frame x fs ≡ ok gs → Same gs fs
  unfolding compact_frame string_eq
  compact_frame-Same fs h =
      let (a, pa, ka) = then_ok (update_key "tools" (in_list (each_object compact_tool)) _) _ h in
      let (b, pb, kb) = then_ok (compact_topology a) _ ka in
      let (c, pc, kc) = then_ok (update_key "incident" compact_incident b) _ kb in
      let (d, pd, kd) =
        then_ok (update_key "hypotheses" (in_list (each_object compact_hypothesis)) c) _ kc in
      let (f, pf, kf) = then_ok (compact_history x "retrieved_incidents" d) _ kd in
      compact_history-Same x "retrieved_runbooks" f refl kf
      ∙ compact_history-Same x "retrieved_incidents" d refl pf
      ∙ update_key-Same "hypotheses" _ c refl pd
      ∙ update_key-Same "incident" compact_incident b refl pc
      ∙ compact_topology-Same a pb
      ∙ update_key-Same "tools" _ _ refl pa
      ∙ insert-Same "context_compacted" _ fs refl

  distribute-steps :
      (budget : ℕ) (ps : List (Fields × Fields)) (frame : Fields) {w : Fields}
      → distribute x budget ps frame ≡ ok w
      → (x.size (obj w) ≤ budget)
        × ((ws : Items) × (w ≡ with_observations x ws frame) × (ids_of ws ≡ pair_ids ps))
  unfolding distribute
  distribute-steps budget ps frame h =
      let used = x.size (obj (with_observations x (bare ps) frame)) in
      elim (Bool-cases (ltb budget (used + 32 + 100 * length ps))) [
        | inl short ↦ absurd (ground arith)
        | inr room ↦ share-steps x budget (budget - used - 32) ps frame (ground arith)
      ]

  -- A compacted context fits its budget, and it shows exactly the observations of the context, in their order, by
  -- their identifiers.
  pub compact_context-retains :
      (context : Fields) (budget : ℕ) (compacted : Fields)
      → compact_context x context budget ≡ ok compacted
      → (x.size (obj compacted) ≤ budget) × (observation_ids compacted ≡ observation_ids context)
  unfolding compact_context
  compact_context-retains context budget compacted h =
      elim (Bool-cases (leb (x.size (obj context)) budget)) [
        | inl fits ↦
            let z : context ≡ compacted = ground arith in
            (rw (sym z) (ground arith), ap observation_ids (sym z))
        | inr over ↦
            let h' : (compact_frame x context >>= λ frame.
            listed (lookup "observations" frame) >>= λ pairs.
            distribute x budget pairs (prefer_observations x budget pairs frame))
                ≡ ok compacted =
              ground arith in
            let (frame, framed, k) = then_ok (compact_frame x context) _ h' in
            let (pairs, taken, j) = then_ok (listed (lookup "observations" frame)) _ k in
            let (fits, (ws, same, kept)) =
              distribute-steps budget pairs (prefer_observations x budget pairs frame) j in
            let (vs, found, told) = listed-ids (lookup "observations" frame) taken in
            (
              fits,
              ap observation_ids same
                  ∙ ap listed_ids (lookup-insert "observations" (arr ws) _)
                  ∙ kept
                  ∙ told
                  ∙ ap listed_ids (sym found ∙ compact_frame-Same context framed),
            )
      ]
