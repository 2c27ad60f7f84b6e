-- ===== src/Prelude/Sorting.antt =====
-- Sorting by a Boolean comparison: `ORDER BY` and `sort.Slice`.
use mathlib.Core.Path.{◌≡◌, refl, subst, ◌∙◌}
use mathlib.Core.Logic.{inl, inr, ◌⊎◌}
use mathlib.Core.Bool.{Bool, true}
use mathlib.Core.List.{List, [], ◌∷◌}
use plexplore.Prelude.Tests.{if◌then◌else◌, Bool-cases}
use plexplore.Prelude.Lists.{All, All-map, All-kept, keep}

module _ {ℓ} {A : Type ℓ} (le : A → A → Bool) where
  unfoldable pub insert_by : A → List A → List A
  insert_by x [] = x ∷ []
  insert_by x (y ∷ ys) = if le x y then x ∷ y ∷ ys else y ∷ insert_by x ys

  unfoldable pub sort_by : List A → List A
  sort_by [] = []
  sort_by (x ∷ xs) = insert_by x (sort_by xs)

  -- Each element is at most all later ones.
  abbrev pub Ordered : List A → Type ℓ
  Ordered [] = Unit
  Ordered (x ∷ xs) = All (λ y. le x y ≡ true) xs × Ordered xs

  pub All-insert_by :
      (P : A → Type 0) (x : A) (ys : List A) → P x → All P ys → All P (insert_by x ys)
  unfolding insert_by
  All-insert_by P x [] h k = (h, tt)
  All-insert_by P x (y ∷ ys) h k = elim (Bool-cases (le x y)) [
    | inl e ↦ rw e (h, k)
    | inr e ↦ rw e (k.0, All-insert_by P x ys h k.1)
  ]

  pub All-sort_by : (P : A → Type 0) (xs : List A) → All P xs → All P (sort_by xs)
  unfolding sort_by
  All-sort_by P [] h = tt
  All-sort_by P (x ∷ xs) h = All-insert_by P x (sort_by xs) h.0 (All-sort_by P xs h.1)

  All-from_insert_by :
      (P : A → Type 0) (x : A) (ys : List A) → All P (insert_by x ys) → P x × All P ys
  unfolding insert_by
  All-from_insert_by P x [] h = (h.0, tt)
  All-from_insert_by P x (y ∷ ys) h = elim (Bool-cases (le x y)) [
    | inl e ↦
        let k : All P (x ∷ y ∷ ys) =
          subst (λ b. All P (if b then x ∷ y ∷ ys else y ∷ insert_by x ys)) e h in
        k
    | inr e ↦
        let k : All P (y ∷ insert_by x ys) =
          subst (λ b. All P (if b then x ∷ y ∷ ys else y ∷ insert_by x ys)) e h in
        let (hx, rest) = All-from_insert_by P x ys k.1 in (hx, (k.0, rest))
  ]

  -- Sorting loses no element.
  pub All-from_sort_by : (P : A → Type 0) (xs : List A) → All P (sort_by xs) → All P xs
  unfolding sort_by
  All-from_sort_by P [] h = tt
  All-from_sort_by P (x ∷ xs) h =
      let (hx, rest) = All-from_insert_by P x (sort_by xs) h in (hx, All-from_sort_by P xs rest)

  module _ (total : (x y : A) → (le x y ≡ true) ⊎ (le y x ≡ true))
      (trans : (x y z : A) → le x y ≡ true → le y z ≡ true → le x z ≡ true) where
    insert_by-Ordered : (x : A) (ys : List A) → Ordered ys → Ordered (insert_by x ys)
    unfolding insert_by
    insert_by-Ordered x [] h = (tt, tt)
    insert_by-Ordered x (y ∷ ys) h = elim (Bool-cases (le x y)) [
      | inl e ↦ rw e ((e, All-map _ (λ z k. trans x y z e k) ys h.0), h)
      | inr e ↦
          let other : le y x ≡ true = elim (total x y) [ inl t ↦ absurd (cc) | inr t ↦ t ] in
          rw e (All-insert_by (λ z. le y z ≡ true) x ys other h.0, insert_by-Ordered x ys h.1)
    ]

    -- By a total and transitive comparison, sorting orders.
    pub sort_by-Ordered : (xs : List A) → Ordered (sort_by xs)
    unfolding sort_by
    sort_by-Ordered [] = tt
    sort_by-Ordered (x ∷ xs) = insert_by-Ordered x (sort_by xs) (sort_by-Ordered xs)

    insert-first : (x : A) (zs : List A) → All (λ z. le x z ≡ true) zs → insert_by x zs ≡ x ∷ zs
    unfolding insert_by
    insert-first x [] h = refl
    insert-first x (z ∷ zs) h = rw h.0 refl

    keep-insert_by :
        (p : A → Bool) (x : A) (ys : List A)
        → Ordered ys
        → keep p (insert_by x ys) ≡ (if p x then insert_by x (keep p ys) else keep p ys)
    unfolding insert_by
    keep-insert_by p x [] h = refl
    keep-insert_by p x (y ∷ ys) h = elim (Bool-cases (le x y)) [
      | inl e ↦
          let above = All-map _ (λ z k. trans x y z e k) ys h.0 in
          let first =
            insert-first x (keep p (y ∷ ys))
              (All-kept (λ z. le x z ≡ true) p (y ∷ ys) (e, above)) in
          rw (e, first) refl
      | inr e ↦ elim (Bool-cases (p y)) [
        | inl q ↦
            rw (e, q, keep-insert_by p x ys h.1)
              (elim (Bool-cases (p x)) [ inl b ↦ rw (b, e) refl | inr b ↦ rw b refl ])
        | inr q ↦ rw (e, q, keep-insert_by p x ys h.1) refl
      ]
    ]

    -- Sorting by a total and transitive comparison, before or after a filter.
    pub keep-sort_by : (p : A → Bool) (xs : List A) → keep p (sort_by xs) ≡ sort_by (keep p xs)
    unfolding sort_by
    keep-sort_by p [] = refl
    keep-sort_by p (x ∷ xs) =
        keep-insert_by p x (sort_by xs) (sort_by-Ordered xs) ∙ elim (Bool-cases (p x)) [
          | inl b ↦ rw (b, keep-sort_by p xs) refl
          | inr b ↦ rw (b, keep-sort_by p xs) refl
        ]
