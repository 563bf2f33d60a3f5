-- ===== src/Observations.antt =====
-- `record_observation` of backend/app/agent.py. The interpretation text and the duration are left out.
use home_ai_agent.Base.{
  ℕ, suc, ◌+◌, none, some, [], ◌∷◌, ◌++◌, String, ◌==◌, string_eq, length, Result, ok, err,
  attribute_error, type_error, if◌then◌else◌,
}
use home_ai_agent.Json.{
  Value, str, arr, obj, Items, nil, cons, Fields, end, field, lookup, get, get_or, insert, truthy,
  number?,
}
use home_ai_agent.Model.{Settings, Observation, Phase, Incident}
use home_ai_agent.Failures.{envelope_failure_kind, kind_text}
use home_ai_agent.Safety.{disk_severity, severity_text, redact_fields}
use home_ai_agent.Store.{Env, M, ◌>>=◌, gets, lift, or_raise, find_incident, observations_of}

module _ (s : Settings) where
  -- `normalized['severity'] = disk_severity(…)` if the percentage is a number
  graded : Value → Fields → Fields
  graded percent fs = elim (number? percent) [
    | none ↦ fs
    | some p ↦
        insert "severity"
          (str (
            severity_text
              (disk_severity p s.disk_warning_percent s.disk_high_percent s.disk_critical_percent)))
          fs
  ]

  grade_entries : Items → Result Items
  grade_entries nil = ok nil
  grade_entries (cons v vs) = elim v [
    | obj fs ↦ elim (grade_entries vs) [
      | ok ws ↦ ok (cons (obj (graded (get_or "percent" (get "used_percent" fs) fs) fs)) ws)
      | err e ↦ err e
    ]
    | _ ↦ err (attribute_error "object has no attribute 'get'")
  ]

  -- `normalized.get('filesystems', normalized.get('disks', []))`, under the key that has it
  entries_key : Fields → String
  entries_key fs = elim (lookup "filesystems" fs) [ none ↦ "disks" | some _ ↦ "filesystems" ]

  -- The raw result and the normalized one. The entries are shared, so both show their severities.
  grade_disks : Fields → Fields → Result (Fields × Fields)
  unfolding entries_key
  grade_disks result fs =
      let key = entries_key fs in
      let top = graded (get_or "used_percent" (get "percent" fs) fs) fs in
      elim (lookup key fs) [
        | none ↦ ok (result, top)
        | some v ↦ elim v [
          | arr vs ↦ elim (grade_entries vs) [
            | err e ↦ err e
            | ok ws ↦
                ok (insert "result" (obj (insert key (arr ws) fs)) result, insert key (arr ws) top)
          ]
          | _ ↦ err (type_error "object is not iterable")
        ]
      ]

  unfoldable pub normalize : String → Fields → Result (Fields × Fields)
  unfolding grade_disks grade_entries graded string_eq
  normalize tool result = elim (get_or "result" (obj end) result) [
    | obj fs ↦ if tool == "disk_usage" then grade_disks result fs else ok (result, fs)
    | v ↦
        let fs = field "data" v end in
        if tool == "disk_usage" then grade_disks result fs else ok (result, fs)
  ]

module _ (e : Env) where
  abbrev pub redact_all : ℕ → Fields → Fields
  redact_all = redact_fields e.secret_key e.scrub

  -- `result = dict(redact(result))`, and a failure kind for a result that is not ok
  unfoldable pub stored_result : Fields → Fields
  stored_result result =
      let r = redact_all 16000 result in
      if truthy (get "ok" r) then r else (elim (lookup "failure_kind" r) [
        | some _ ↦ r
        | none ↦
            insert "failure_kind" (str (kind_text (envelope_failure_kind e.str_of (get "error" r))))
              r
      ])

  add_observation : ℕ → String → String → Fields → Phase → Fields × Fields → Incident → M String
  add_observation now incident_id tool arguments phase (raw, normalized) incident s =
      let id = e.uuid s.issued in
      let o : Observation = record {
        id = id;
        incident_id = incident_id;
        step_number = length (observations_of incident_id s) + 1;
        tool_name = tool;
        tool_arguments = redact_all 16000 arguments;
        raw_result = raw;
        normalized_result = normalized;
        phase = phase;
        created_at = now;
      } in
      (ok id, record s { observations = s.observations ++ (o ∷ []); issued = suc s.issued })

  unfoldable pub record_observation : ℕ → String → String → Fields → Fields → Phase → M String
  unfolding add_observation
  record_observation now incident_id tool arguments result phase = do
    parts ← lift (normalize e.settings tool (stored_result result))
    incident ← or_raise (← gets (find_incident incident_id)) (attribute_error "no such incident")
    add_observation now incident_id tool arguments phase parts incident
