-- ===== src/Store.antt =====
-- The database of the backend as one record, and what the operations take from outside: the settings,
-- the registry, the host's answers and the libraries. An operation is a state action that may raise;
-- what was committed before a raise stays. Audit entries keep the incident and the event.
pub mod Keeps
use home_ai_agent.Base.{
  ◌≡◌, refl, arith, ℕ, Bool, Option, none, some, List, [], ◌∷◌, ◌++◌, String, ◌==◌, string_eq,
  select, find, Result, ok, err, Error, if◌then◌else◌,
}
use home_ai_agent.Json.{Value, Fields, insert}
use home_ai_agent.Model.{Settings, Incident, Observation, Action, Hypothesis}
use home_ai_agent.Gateway.{Registry}

-- one request to the host gateway, with the action that a write is authorized by
pub record Call : Type 0 where
  pub tool : String
  pub arguments : Fields
  pub approval : Option String

pub record Store : Type 0 where
  pub incidents : List Incident
  pub observations : List Observation
  pub hypotheses : List Hypothesis
  pub actions : List Action
  pub audits : List (String × String)
  pub calls : List Call
  pub issued : ℕ
  -- the local `calls` of the running `_run`, and how often it asked the model for a decision
  pub seen : List String
  pub asked : ℕ

pub record Env : Type 0 where
  pub settings : Settings
  pub registry : Result Registry
  -- `Draft202012Validator(schema).validate(arguments)`
  pub schema_valid : Fields → Fields → Bool
  -- `str(value)` of a value that is no text
  pub str_of : Value → String
  -- the n-th identifier that `uuid4` yields
  pub uuid : ℕ → String
  -- what the host answers to a request after the earlier ones
  pub host : List Call → Call → Result Fields
  pub signing_secret : Bool
  -- the secret keys and the substitutions of the redaction patterns
  pub secret_key : String → Bool
  pub scrub : String → String
  -- indexing of a resolved incident, if retrieval is enabled
  pub history : Option (Result (Unit {0}))

abbrev pub M : Type 0 → Type 0
M A = Store → Result A × Store

infixl 5 ◌>>=◌ ◌>>◌
abbrev pub ◌>>=◌ : {A B : Type 0} → M A → (A → M B) → M B
◌>>=◌ m f s = let (r, t) = m s in elim r [ ok a ↦ f a t | err e ↦ (err e, t) ]

abbrev pub ◌>>◌ : {A B : Type 0} → M A → M B → M B
m >> k = m >>= λ _. k

module _ {A : Type 0} where
  abbrev pub pure : A → M A
  pure a s = (ok a, s)

  abbrev pub raise : Error → M A
  raise e s = (err e, s)

  abbrev pub lift : Result A → M A
  lift r s = (r, s)

  abbrev pub gets : (Store → A) → M A
  gets f s = (ok (f s), s)

  -- `try: … except Exception as exc: …`
  abbrev pub catch : M A → (Error → A) → M A
  catch m handler s = let (r, t) = m s in elim r [ ok a ↦ (ok a, t) | err e ↦ (ok (handler e), t) ]

  -- how a call ended, for an `except` that inspects the exception
  abbrev pub result_of : M A → M (Result A)
  result_of m s = let (r, t) = m s in (ok r, t)

  -- a session that is left by an exception before its commit changes nothing
  abbrev pub transaction : M A → M A
  transaction m s = let (r, t) = m s in elim r [ ok a ↦ (ok a, t) | err e ↦ (err e, s) ]

  -- `session.get(…)`, raising if there is no such row
  abbrev pub or_raise : Option A → Error → M A
  or_raise o e s = (elim o [ none ↦ err e | some a ↦ ok a ], s)

abbrev pub modify : (Store → Store) → M (Unit {0})
modify f s = (ok tt, f s)

-- `if not condition: raise …`
abbrev pub require : Bool → Error → M (Unit {0})
require c e s = (if c then ok tt else err e, s)

abbrev pub when : Bool → M (Unit {0}) → M (Unit {0})
when c m s = if c then m s else (ok tt, s)

abbrev pub find_incident : String → Store → Option Incident
find_incident id s = find (λ i. i.id == id) s.incidents

abbrev pub find_action : String → Store → Option Action
find_action id s = find (λ a. a.id == id) s.actions

-- `incident.observations` and `incident.actions`, oldest first
abbrev pub observations_of : String → Store → List Observation
observations_of id s = select (λ o. o.incident_id == id) s.observations

abbrev pub actions_of : String → Store → List Action
actions_of id s = select (λ a. a.incident_id == id) s.actions

unfoldable pub change_incident : String → (Incident → Incident) → List Incident → List Incident
change_incident id f [] = []
change_incident id f (i ∷ is) = (if i.id == id then f i else i) ∷ change_incident id f is

unfoldable pub change_action : String → (Action → Action) → List Action → List Action
change_action id f [] = []
change_action id f (a ∷ as_) = (if a.id == id then f a else a) ∷ change_action id f as_

abbrev pub set_incident : String → (Incident → Incident) → M (Unit {0})
set_incident id f = modify (λ s. record s { incidents = change_incident id f s.incidents })

abbrev pub set_action : String → (Action → Action) → M (Unit {0})
set_action id f = modify (λ s. record s { actions = change_action id f s.actions })

-- `update_state` with one key, and `audit`
abbrev pub note_state : String → String → Value → M (Unit {0})
note_state id key value =
    set_incident id (λ i. record i { agent_state = insert key value i.agent_state })

abbrev pub audit : String → String → M (Unit {0})
audit id event = modify (λ s. record s { audits = s.audits ++ ((id, event) ∷ []) })

module _ {A B : Type 0} (m : M A) (f : A → M B) where
  -- a result of a sequence comes from a result of its first part
  pub bind-ok :
      (s t : Store) (b : B)
      → (m >>= f) s ≡ (ok b, t)
      → (a : A) × (u : Store) × (m s ≡ (ok a, u)) × (f a u ≡ (ok b, t))
  bind-ok s t b h = go (m s) refl h
    where
      continue : Result A × Store → Result B × Store
      continue x = elim x.0 [ ok a ↦ f a x.1 | err e ↦ (err e, x.1) ]

      go :
          (x : Result A × Store)
          → m s ≡ x
          → continue x ≡ (ok b, t)
          → (a : A) × (u : Store) × (m s ≡ (ok a, u)) × (f a u ≡ (ok b, t))
      go (ok a, u) e g = (a, u, e, g)
      go (err x, u) e g = ground arith
