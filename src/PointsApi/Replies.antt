-- ===== src/PointsApi/Replies.antt =====
-- What holds of all points of a store's answer holds of all points of the reply.
use plexplore.Prelude.{
  ℕ, zero, suc, ◌+◌, ◌≡◌, refl, subst, inl, inr, Bool, Option, none, some, List, [], ◌∷◌, map,
  Outcome, ok, err, length, take, ltb, leb, ◌==◌, ◌||◌, if◌then◌else◌, All, All-take, arith,
  Bool-cases, Outcome-cases, Option-cases,
}
use plexplore.Prelude.Actions.{◌>>=◌}
use plexplore.Float64.{Float64, FloatOps}
use plexplore.Store.{RawPoint}
use plexplore.VisitStore.{VisitDb, Sql}
use plexplore.Points.{RecentPoint, recent_point}
use plexplore.PointsApi.{Api, store_call}
use plexplore.PointsApi.Handlers.{
  point_at, last_point, cons_at, sample_loop, downsample_recent_points, page_of,
}

-- The value that an action returns, if it returns one.
abbrev pub Holds : {S E A : Type 0} → (A → Type 0) → Outcome E A × S → Type 0
Holds P (ok a, s) = P a
Holds P (err e, s) = Unit

pub value :
    {S E A : Type 0} (P : A → Type 0) (r : Outcome E A × S) (a : A) → r.0 ≡ ok a → Holds P r → P a
value P (ok b, s) a e h = let same : b ≡ a = ground arith in subst P same h
value P (err x, s) a e h = absurd (cc)

pub bind-Holds :
    {A B : Type 0} (P : A → Type 0) (Q : B → Type 0) (a : Api A) (f : A → Api B) (s : VisitDb)
    → Holds P (a s)
    → ((x : A) (s' : VisitDb) → P x → Holds Q (f x s'))
    → Holds Q ((a >>= f) s)
bind-Holds P Q a f s h next = elim (Outcome-cases (a s).0) [
  | inl (x, e) ↦ rw e (next x (a s).1 (value P (a s) x e h))
  | inr (x, e) ↦ rw e tt
]

pub after-Holds :
    {A B : Type 0} (Q : B → Type 0) (a : Api A) (f : A → Api B) (s : VisitDb)
    → ((x : A) (s' : VisitDb) → Holds Q (f x s'))
    → Holds Q ((a >>= f) s)
after-Holds Q a f s next = elim (Outcome-cases (a s).0) [
  | inl (x, e) ↦ rw e (next x (a s).1)
  | inr (x, e) ↦ rw e tt
]

pub All-mapped :
    (P : RecentPoint → Type 0) (rs : List RawPoint)
    → All (λ r. P (recent_point r)) rs
    → All P (map recent_point rs)
All-mapped P [] h = tt
All-mapped P (r ∷ rs) h = (h.0, All-mapped P rs h.1)

module _ (P : RecentPoint → Type 0) where
  All-point_at :
      (i : ℕ) (points : List RecentPoint) (p : RecentPoint)
      → All P points
      → point_at i points ≡ some p
      → P p
  unfolding point_at
  All-point_at i [] p h e = absurd (ground arith)
  All-point_at zero (q ∷ qs) p h e = let same : q ≡ p = ground arith in subst P same h.0
  All-point_at (suc i) (q ∷ qs) p h e = All-point_at i qs p h.1 e

  All-last_point :
      (points : List RecentPoint) (p : RecentPoint)
      → All P points
      → last_point points ≡ some p
      → P p
  unfolding last_point
  All-last_point [] p h e = absurd (ground arith)
  All-last_point (q ∷ qs) p h e = elim (Option-cases (last_point qs)) [
    | inl none_left ↦ let same : q ≡ p = ground arith in subst P same h.0
    | inr (l, found) ↦
        let same : l ≡ p = ground arith in subst P same (All-last_point qs l h.1 found)
  ]

  All-cons_at :
      (i : ℕ) (points rest : List RecentPoint)
      → All P points
      → All P rest
      → All P (cons_at i points rest)
  unfolding cons_at
  All-cons_at i points rest h k = elim (Option-cases (point_at i points)) [
    | inl e ↦ rw (e, cons_at) k
    | inr (p, e) ↦ rw (e, cons_at) (All-point_at i points p h e, k)
  ]

  module _ (fl : FloatOps) (to_int : Float64 → ℕ) where
    All-sample_loop :
        (k i : ℕ) (step : Float64) (prev : Option ℕ) (points : List RecentPoint)
        → All P points
        → All P (sample_loop fl to_int k i step prev points)
    unfolding sample_loop
    All-sample_loop zero i step prev points h = tt
    All-sample_loop (suc k) i step prev points h =
        All-cons_at _ points _ h (All-sample_loop k (i + 1) step _ points h)

    All-last_alone :
        (points : List RecentPoint) (l : Option RecentPoint)
        → last_point points ≡ l
        → All P points
        → All P (elim l as (λ _. List RecentPoint) [ none ↦ [] | some p ↦ p ∷ [] ])
    All-last_alone points none e h = tt
    All-last_alone points (some p) e h = (All-last_point points p h e, tt)

    All-downsample :
        (points : List RecentPoint) (n : ℕ)
        → All P points
        → All P (downsample_recent_points fl to_int points n)
    unfolding downsample_recent_points
    All-downsample points n h = elim (Bool-cases (leb (length points) n || (n == 0))) [
      | inl e ↦ rw (e, downsample_recent_points) h
      | inr e ↦ elim (Bool-cases (n == 1)) [
        | inl f ↦ rw (e, f) (All-last_alone points (last_point points) refl h)
        | inr f ↦ rw (e, f) (All-sample_loop n 0 _ none points h)
      ]
    ]

    pub All-page_of :
        (simplify : Bool) (limit n : ℕ) (found : List RecentPoint)
        → All P found
        → All P (page_of fl to_int simplify limit n found).points
    unfolding page_of
    All-page_of simplify limit n found h =
        let page = if ltb limit (length found) then take limit found else found in
        let own : All P page = elim (Bool-cases (ltb limit (length found))) [
          | inl e ↦ rw e (All-take P limit found h)
          | inr e ↦ rw e h
        ] in
        elim (Bool-cases simplify) [ inl e ↦ rw e (All-downsample page n own) | inr e ↦ rw e own ]

pub store_call-Holds :
    {A : Type 0} (P : A → Type 0) (q : Sql A) (s : VisitDb)
    → Holds P (q s)
    → Holds P (store_call q s)
unfolding store_call
store_call-Holds P q s h = elim (Outcome-cases (q s).0) [
  | inl (x, e) ↦ rw (e, store_call) (value P (q s) x e h)
  | inr (x, e) ↦ rw (e, store_call) tt
]
