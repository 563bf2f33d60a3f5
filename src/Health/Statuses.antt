-- ===== src/Health/Statuses.antt =====
-- What the status of an application says of its checks (backend/app/application_health.py).
use home_ai_agent.Base.{
  ◌≡◌, refl, sym, ◌∙◌, Bool, true, List, [], ◌∷◌, String, ◌==◌, string_eq, any, map, In, head, tail,
  In-select, select-In, any-In, arith, ◌↔◌,
}
use home_ai_agent.Health.{is_unhealthy, CheckStatus, component_status, own_of, application_status}

-- a member that passes the test
In-any : {A : Type 0} (p : A → Bool) (xs : List A) {a : A} → In a xs → p a ≡ true → any p xs ≡ true
In-any p [] i h = elim i [ ]
In-any p (x ∷ xs) (head same) h = let k : p x ≡ true = rw (← same) h in ground arith
In-any p (x ∷ xs) (tail i) h = let r = In-any p xs i h in ground arith

In-map : {A B : Type 0} (f : A → B) {a : A} {xs : List A} → In a xs → In (f a) (map f xs)
In-map f (head same) = head (rw same refl)
In-map f (tail i) = tail (In-map f i)

map-In :
    {A B : Type 0} (f : A → B) {b : B} (xs : List A)
    → In b (map f xs)
    → (a : A) × In a xs × (b ≡ f a)
map-In f [] i = elim i [ ]
map-In f (x ∷ xs) (head same) = (x, head refl, same)
map-In f (x ∷ xs) (tail i) = let (a, j, e) = map-In f xs i in (a, tail j, e)

component_unhealthy :
    (own : List CheckStatus)
    → is_unhealthy (component_status own) ≡ any (λ c. is_unhealthy c.status) own
unfolding component_status
component_unhealthy [] = refl
component_unhealthy (c ∷ cs) = ground arith

application_unhealthy :
    (names : List String) (checks : List CheckStatus)
    → is_unhealthy (application_status names checks)
      ≡ any is_unhealthy (map (λ name. component_status (own_of name checks)) names)
unfolding application_status
application_unhealthy names checks = ground arith

-- the check that makes an application unhealthy
unhealthy-check :
    (names : List String) (checks : List CheckStatus)
    → is_unhealthy (application_status names checks) ≡ true
    → (c : CheckStatus) × In c checks × In c.component names × (is_unhealthy c.status ≡ true)
unfolding own_of
unhealthy-check names checks h =
    let f = λ (name : String). component_status (own_of name checks) in
    let g : any is_unhealthy (map f names) ≡ true = rw (application_unhealthy names checks) at h in
    let (s, i, u) = any-In is_unhealthy (map f names) g in
    let (name, j, same) = map-In f names i in
    let v : any (λ c. is_unhealthy c.status) (own_of name checks) ≡ true =
      sym (component_unhealthy (own_of name checks)) ∙ (rw same at u) in
    let (c, k, w) = any-In (λ c. is_unhealthy c.status) (own_of name checks) v in
    let (l, m) = select-In (λ c. c.component == name) checks k in (c, l, member name c j m, w)
  where
    member :
        (name : String) (c : CheckStatus)
        → In name names
        → (c.component == name) ≡ true
        → In c.component names
    member name c j m = elim (string_eq.dec c.component name) [
      | yes e ↦ rw e j
      | no n ↦ absurd (ground arith)
    ]

same_name : (s : String) → (s == s) ≡ true
same_name s = elim (string_eq.dec s s) [ yes e ↦ ground arith | no n ↦ absurd (n refl) ]

check-unhealthy :
    (names : List String) (checks : List CheckStatus) (c : CheckStatus)
    → In c checks
    → In c.component names
    → is_unhealthy c.status ≡ true
    → is_unhealthy (application_status names checks) ≡ true
unfolding own_of
check-unhealthy names checks c i j u =
    let f = λ (name : String). component_status (own_of name checks) in
    let own = In-select (λ d. d.component == c.component) i (same_name c.component) in
    let bad = In-any (λ d. is_unhealthy d.status) (own_of c.component checks) own u in
    let worse : is_unhealthy (f c.component) ≡ true =
      component_unhealthy (own_of c.component checks) ∙ bad in
    application_unhealthy names checks ∙ In-any is_unhealthy (map f names) (In-map f j) worse

-- An application is unhealthy exactly if one of the checks of its components is.
pub application_status_iff :
    (names : List String) (checks : List CheckStatus)
    → (is_unhealthy (application_status names checks) ≡ true)
      ↔ ((c : CheckStatus) × In c checks × In c.component names × (is_unhealthy c.status ≡ true))
application_status_iff names checks =
    (unhealthy-check names checks, λ (c, i, j, u). check-unhealthy names checks c i j u)
