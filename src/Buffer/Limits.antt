-- ===== src/Buffer/Limits.antt =====
-- The hard limits of the buffer on the number of points and on their bytes.
use mathlib.Core.List.{foldl}
use mathlib.Core.Option.{get_or}
use plexplore.Prelude.{
  ℕ, suc, ◌+◌, ◌≤◌, ◌≡◌, refl, sym, ap, subst, ◌∙◌, ◌⊎◌, some, List, [], ◌∷◌, arith, inl, inr,
  length, Option-cases,
}
use plexplore.GoTime.{Time}
use plexplore.Float64.{FloatOps}
use plexplore.Ingest.Models.{SpoolRecord}
use plexplore.Ingest.Json.{Json}
use plexplore.Buffer.{
  Manager, estimate_record_bytes, incoming_bytes, push_back, enqueue, filter_near_duplicates,
}
use plexplore.Buffer.Branches.{Fits, enqueue_cases}

pub record WithinLimits (m : Manager) : Type 0 where
  pub points : m.total_points ≤ m.max_points
  pub bytes : m.total_bytes ≤ m.max_bytes

-- The totals after the appending loop, for records whose sizes add up to `incoming`.
record Grown (m n : Manager) (count incoming : ℕ) : Type 0 where
  points : n.total_points ≡ m.total_points + count
  bytes : n.total_bytes ≡ m.total_bytes + incoming
  same_points : n.max_points ≡ m.max_points
  same_bytes : n.max_bytes ≡ m.max_bytes

push_back-Grown :
    (j : Json) (now : Time) (m : Manager) (r : SpoolRecord) (size : ℕ)
    → estimate_record_bytes j r ≡ some size
    → Grown m (push_back j now m r) 1 size
unfolding push_back
push_back-Grown j now m r size e = record {
  points = refl;
  bytes = ap (λ o. m.total_bytes + get_or o 0) e;
  same_points = refl;
  same_bytes = refl;
}

Grown-trans :
    {m n p : Manager} {a b x y : ℕ} (c z : ℕ)
    → a + b ≡ c
    → x + y ≡ z
    → Grown m n a x
    → Grown n p b y
    → Grown m p c z
Grown-trans c z count incoming first rest = record {
  points = omega (arith, first.points, rest.points);
  bytes = omega (arith, first.bytes, rest.bytes);
  same_points = rest.same_points ∙ first.same_points;
  same_bytes = rest.same_bytes ∙ first.same_bytes;
}

push_all-Grown :
    (j : Json) (now : Time) (m : Manager) (rs : List SpoolRecord) (incoming : ℕ)
    → incoming_bytes j rs ≡ some incoming
    → Grown m (foldl (push_back j now) m rs) (length rs) incoming
unfolding incoming_bytes
push_all-Grown j now m [] incoming h = ground arith
push_all-Grown j now m (r ∷ rs) incoming h = elim (Option-cases (estimate_record_bytes j r)) [
  | inl e ↦ absurd (ground arith)
  | inr (size, e) ↦ elim (Option-cases (incoming_bytes j rs)) [
    | inl f ↦ absurd (ground arith)
    | inr (rest, f) ↦
        Grown-trans (suc (length rs)) incoming (omega arith) (ground arith)
          (push_back-Grown j now m r size e) (push_all-Grown j now (push_back j now m r) rs rest f)
  ]
]

-- The appending loop from within the limits, on records that fit.
push_all-WithinLimits :
    (j : Json) (now : Time) (m : Manager) (rs : List SpoolRecord)
    → WithinLimits m
    → (rs ≡ []) ⊎ Fits j m rs
    → WithinLimits (foldl (push_back j now) m rs)
push_all-WithinLimits j now m rs v (inl e) =
    subst (λ xs. WithinLimits (foldl (push_back j now) m xs)) (sym e) v
push_all-WithinLimits j now m rs v (inr (incoming, sum, points, bytes)) =
    let grown = push_all-Grown j now m rs incoming sum in
    record {
      points = omega (arith, grown.points, grown.same_points);
      bytes = omega (arith, grown.bytes, grown.same_bytes);
    }

-- `Enqueue` never takes a buffer that is within its limits of points and bytes over them.
pub enqueue-WithinLimits :
    (fl : FloatOps) (j : Json) (now : Time) (m : Manager) (rs : List SpoolRecord)
    → WithinLimits m
    → WithinLimits (enqueue fl j now m rs).1
enqueue-WithinLimits fl j now m rs v = elim (enqueue_cases fl j now m rs) [
  | inl (e, eq) ↦ subst (λ r. WithinLimits r.1) (sym eq) v
  | inr (last, eq, fits) ↦
      let w = push_all-WithinLimits j now m (filter_near_duplicates fl m rs).0 v fits in
      subst (λ r. WithinLimits r.1) (sym eq) (record { points = w.points; bytes = w.bytes })
]
