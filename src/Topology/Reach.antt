-- ===== src/Topology/Reach.antt =====
-- What the walk of `Visit` collects: exactly the entries of the names that can be reached.
use home_ai_agent.Base.{
  ℕ, zero, suc, ◌≤◌, ◌<◌, ◌≡◌, refl, ap, Bool, true, false, ◌||◌, List, [], ◌∷◌, ◌++◌, String,
  contains, In, head, tail, string_eq, if◌then◌else◌, length, ◌⊎◌, inl, inr, arith, Bool-cases,
  In-contains, contains-In, In-append, In-left, In-right, In-cases, not_In-nil,
}
use home_ai_agent.Topology.Visit.{visit_each, visit}

-- the names that `depends_on` leads to, over any number of steps
pub data Reaches (deps : String → List String) (a : String) : String → Type 0 where
  here : Reaches deps a a
  step : {x y : String} → Reaches deps a x → In y (deps x) → Reaches deps a y

-- how many of the known names have not been seen
abbrev pub unseen : List String → List String → ℕ
unseen [] seen = 0
unseen (k ∷ ks) seen = let rest = unseen ks seen in if contains seen k then rest else suc rest

unseen_mono :
    (ks seen later : List String)
    → ((x : String) → In x seen → In x later)
    → unseen ks later ≤ unseen ks seen
unseen_mono [] seen later h = omega arith
unseen_mono (k ∷ ks) seen later h = elim (Bool-cases (contains seen k)) [
  | inl old ↦ rw (old, In-contains (h k (contains-In seen k old))) (unseen_mono ks seen later h)
  | inr new ↦ rw new (ground (arith, unseen_mono ks seen later h))
]

unseen-cons :
    (name : String) {ks : List String} (seen : List String)
    → In name ks
    → contains seen name ≡ false
    → unseen ks (name ∷ seen) < unseen ks seen
unseen-cons name seen (head {x = x} {xs = rest} e) new =
    ground (arith, unseen_mono rest seen (name ∷ seen) (λ y i. tail i))
unseen-cons name seen (tail {x = k} {xs = rest} i) new = ground (arith, unseen-cons name seen i new)

module _ {ℓ} {A : Type ℓ} (deps : String → List String) (skip : String → Bool)
    (pre post : String → List A) where
  -- what a walk from `t` to `u` has done
  record Extends (t u : List String × List A) : Type ℓ where
    grow : (x : String) → In x t.0 → In x u.0
    keep : (a : A) → In a t.1 → In a u.1
    shut :
        (x : String)
        → In x u.0
        → In x t.0 ⊎ ((d : String) → In d (deps x) → In d u.0 ⊎ (skip d ≡ true))
    got : (x : String) → In x u.0 → In x t.0 ⊎ ((a : A) → In a (pre x ++ post x) → In a u.1)

  Extends-refl : (t : List String × List A) → Extends t t
  Extends-refl t = record {
    grow = λ x i. i;
    keep = λ a i. i;
    shut = λ x i. inl i;
    got = λ x i. inl i;
  }

  Extends-trans : {t u v : List String × List A} → Extends t u → Extends u v → Extends t v
  Extends-trans {t} {u} {v} p q = record {
    grow = λ x i. q.grow x (p.grow x i);
    keep = λ a i. q.keep a (p.keep a i);
    shut = λ x i. elim (q.shut x i) [
      | inl j ↦ elim (p.shut x j) [
        | inl k ↦ inl k
        | inr f ↦ inr (λ d m. elim (f d m) [ inl k ↦ inl (q.grow d k) | inr skipped ↦ inr skipped ])
      ]
      | inr f ↦ inr f
    ];
    got = λ x i. elim (q.got x i) [
      | inl j ↦ elim (p.got x j) [ inl k ↦ inl k | inr f ↦ inr (λ a m. q.keep a (f a m)) ]
      | inr f ↦ inr f
    ];
  }

  -- a walk from `t` extends it and has dealt with the name `d`
  abbrev Deals : String → List String × List A → List String × List A → Type ℓ
  Deals d t u = Extends t u × (In d u.0 ⊎ (skip d ≡ true))

  -- the walk of the dependencies, with the entries of the name around it
  around :
      (name : String) (seen : List String) (found : List A) (u : List String × List A)
      → Extends (name ∷ seen, found ++ pre name) u
      → ((d : String) → In d (deps name) → In d u.0 ⊎ (skip d ≡ true))
      → Extends (seen, found) (u.0, u.1 ++ post name) × In name u.0
  around name seen found u e dealt = (
    record {
      grow = λ x i. e.grow x (tail i);
      keep = λ a i. In-left (post name) (e.keep a (In-left (pre name) i));
      shut = λ x i. elim (e.shut x i) [
        | inl j ↦ elim (In-cases j) [ inl same ↦ inr (rw same dealt) | inr k ↦ inl k ]
        | inr f ↦ inr f
      ];
      got = λ x i. elim (e.got x i) [
        | inl j ↦ elim (In-cases j) [ inl same ↦ inr (rw same own) | inr k ↦ inl k ]
        | inr f ↦ inr (λ a k. In-left (post name) (f a k))
      ];
    },
    e.grow name (head refl),
  )
    where
      own : (a : A) → In a (pre name ++ post name) → In a (u.1 ++ post name)
      own a i = elim (In-append (pre name) i) [
        | inl j ↦ In-left (post name) (e.keep a (In-right found j))
        | inr j ↦ In-right u.1 j
      ]

  module _ (known : List String) where
    visit_each-Extends :
        (n : ℕ) (go : String → List String × List A → List String × List A)
        → ((d : String) (t : List String × List A) → unseen known t.0 < n → Deals d t (go d t))
        → (ds : List String) (t : List String × List A) → unseen known t.0 < n
        → Extends t (visit_each deps skip pre post go ds t)
          × ((d : String)
              → In d ds
              → In d (visit_each deps skip pre post go ds t).0 ⊎ (skip d ≡ true))
    visit_each-Extends n go h [] t m = (Extends-refl t, λ d i. elim i [ ])
    visit_each-Extends n go h (d ∷ ds) t m =
        let (e, dealt) = h d t m in
        let fewer = unseen_mono known t.0 (go d t).0 e.grow in
        let (f, rest) = visit_each-Extends n go h ds (go d t) (omega arith) in
        (
          Extends-trans e f,
          λ c i. elim (In-cases i) [
            | inl same ↦ elim dealt [ inl j ↦ inl (f.grow c (rw same j)) | inr s ↦ inr (rw same s) ]
            | inr j ↦ rest c j
          ],
        )

    -- a name that is not known is skipped or has no dependencies
    module _ (leaf : (x : String) → In x known ⊎ (skip x ≡ true) ⊎ (deps x ≡ [])) where
      dependencies :
          (n : ℕ) (go : String → List String × List A → List String × List A)
          → ((d : String) (t : List String × List A) → unseen known t.0 < n → Deals d t (go d t))
          → (name : String) (seen : List String) (found : List A) → unseen known seen < suc n
          → contains seen name ≡ false
          → skip name ≡ false
          → let u = visit_each deps skip pre post go (deps name) (name ∷ seen, found) in
            Extends (name ∷ seen, found) u
            × ((d : String) → In d (deps name) → In d u.0 ⊎ (skip d ≡ true))
      dependencies n go h name seen found m new entered = elim (leaf name) [
        | inl k ↦
            visit_each-Extends n go h (deps name) (name ∷ seen, found)
              (omega (arith, unseen-cons name seen k new))
        | inr (inl skipped) ↦ cc
        | inr (inr none) ↦ rw none (Extends-refl (name ∷ seen, found), λ d i. elim i [ ])
      ]

      visit-Deals :
          (n : ℕ) (name : String) (t : List String × List A)
          → unseen known t.0 < n
          → Deals name t (visit deps skip pre post n name t)
      unfolding visit
      visit-Deals zero name t m = absurd (omega arith)
      visit-Deals (suc n) name (seen, found) m = elim (Bool-cases (contains seen name)) [
        | inl old ↦ rw old (Extends-refl (seen, found), inl (contains-In seen name old))
        | inr new ↦ elim (Bool-cases (skip name)) [
          | inl skipped ↦ rw (new, skipped) (Extends-refl (seen, found), inr refl)
          | inr entered ↦
              let (e, dealt) =
                dependencies n (visit deps skip pre post n) (visit-Deals n) name seen
                  (found ++ pre name) m new entered in
              let (f, i) = around name seen found _ e dealt in rw (new, entered) (f, inl i)
        ]
      ]

  -- names that a test holds of along the dependencies
  module _ (root : String) where
    abbrev Sound : List A → Type ℓ
    Sound found =
        (a : A)
        → In a found
        → (x : String) × Reaches deps root x × (skip x ≡ false) × In a (pre x ++ post x)

    visit_each-Sound :
        (go : String → List String × List A → List String × List A)
        → ((d : String) (t : List String × List A)
            → Reaches deps root d
            → Sound t.1
            → Sound (go d t).1)
        → (ds : List String) (t : List String × List A)
        → ((d : String) → In d ds → Reaches deps root d)
        → Sound t.1
        → Sound (visit_each deps skip pre post go ds t).1
    visit_each-Sound go h [] t r s = s
    visit_each-Sound go h (d ∷ ds) t r s =
        visit_each-Sound go h ds (go d t) (λ c i. r c (tail i)) (h d t (r d (head refl)) s)

    visit-Sound :
        (n : ℕ) (name : String) (t : List String × List A)
        → Reaches deps root name
        → Sound t.1
        → Sound (visit deps skip pre post n name t).1
    unfolding visit
    visit-Sound zero name t r s = s
    visit-Sound (suc n) name (seen, found) r s =
        elim (Bool-cases (contains seen name || skip name)) [
          | inl stop ↦ rw stop s
          | inr go_on ↦
              let entered : skip name ≡ false = ground arith in
              let start : Sound (found ++ pre name) = λ a i. elim (In-append found i) [
                | inl j ↦ s a j
                | inr j ↦ (name, r, entered, In-left (post name) j)
              ] in
              let inner =
                visit_each-Sound (visit deps skip pre post n) (visit-Sound n) (deps name)
                  (name ∷ seen, found ++ pre name) (λ d i. Reaches.step r i) start in
              rw go_on λ a i. elim (In-append _ i) [
                | inl j ↦ inner a j
                | inr j ↦ (name, r, entered, In-right (pre name) j)
              ]
        ]

  -- what a whole walk collects belongs to a name that can be reached
  pub collected-Reaches :
      (n : ℕ) (name : String) (a : A)
      → In a (visit deps skip pre post n name ([], [])).1
      → (x : String) × Reaches deps name x × (skip x ≡ false) × In a (pre x ++ post x)
  collected-Reaches n name = visit-Sound name n name ([], []) here (λ a i. elim i [ ])

  -- with fuel above the number of known names, all that can be reached is collected
  module _ (known : List String)
      (leaf : (x : String) → In x known ⊎ (skip x ≡ true) ⊎ (deps x ≡ []))
      (skipped : (x : String) → skip x ≡ true → deps x ≡ []) where
    seen_all :
        (name : String) (u : List String × List A)
        → Deals name ([], []) u
        → {x : String} → Reaches deps name x
        → In x u.0 ⊎ (skip x ≡ true)
    seen_all name u (e, dealt) here = dealt
    seen_all name u (e, dealt) (step {x = x} {y = y} r i) = elim (seen_all name u (e, dealt) r) [
      | inl j ↦ elim (e.shut x j) [ inl k ↦ absurd (not_In-nil k) | inr f ↦ f y i ]
      | inr s ↦ absurd (not_In-nil (rw (skipped x s) at i))
    ]

    pub Reaches-collected :
        (n : ℕ) (name : String)
        → unseen known [] < n
        → {x : String} → Reaches deps name x
        → skip x ≡ false
        → (a : A) → In a (pre x ++ post x)
        → In a (visit deps skip pre post n name ([], [])).1
    Reaches-collected n name m {x} r entered a i =
        let d = visit-Deals known leaf n name ([], []) m in
        elim (seen_all name (visit deps skip pre post n name ([], [])) d r) [
          | inl j ↦ elim (d.0.got x j) [ inl k ↦ absurd (not_In-nil k) | inr f ↦ f a i ]
          | inr s ↦ cc
        ]

-- no name has been seen at the start
pub unseen-nil : (ks : List String) → unseen ks [] ≡ length ks
unseen-nil [] = refl
unseen-nil (k ∷ ks) = ap suc (unseen-nil ks)
