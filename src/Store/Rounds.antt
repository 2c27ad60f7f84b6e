-- ===== src/Store/Rounds.antt =====
-- One round of the loop of `InsertSpoolBatch`: the row it adds, or finds.
use plexplore.Prelude.{
  ℕ, ◌≤◌, ◌≡◌, refl, sym, ap, subst, ◌∙◌, inl, inr, String, true, false, List, [], ◌∷◌, ◌++◌, map,
  Outcome, ok, err, Outcome-cases, Bool-cases, Option-cases, ◌||◌, str_eq, append-nil, map-append,
  arith, string_eq,
}
use plexplore.GoTime.{Time}
use plexplore.Ingest.Models.{SpoolRecord, Bytes}
use plexplore.Store.{
  Db, RawPoint, StoreError, Progress, seq_taken, ensure_default_user, ensure_device, insert_device,
  has_hash, has_seq, has_id, row_of, insert_raw, with_device, advance_maps, insert_one, user_of,
  normalized_device_name, normalized_source_type, find_device,
}

pub same_ok {ℓ κ} :
    {E : Type ℓ} {A : Type κ} (a : A) {b : A} → let x : Outcome E A = ok a in x ≡ ok b → a ≡ b
same_ok a e = cc

pub not_both {ℓ κ} :
    {E : Type ℓ} {A : Type κ} (x : Outcome E A) {y : E} {a : A} → x ≡ err y → x ≡ ok a → ⊥
not_both x e f = cc

-- The rows of the points are the same.
pub record SameRows (db db' : Db) : Type 0 where
  pub raw : db'.raw_points ≡ db.raw_points
  pub ids : db'.points ≡ db.points
  pub next : db'.next_raw_point_id ≡ db.next_raw_point_id

pub ensure_default_user-SameRows : (db : Db) → SameRows db (ensure_default_user db)
unfolding ensure_default_user
ensure_default_user-SameRows db = elim (Bool-cases (has_id 1 db.users)) [
  | inl e ↦ rw (e, ensure_default_user) (record { raw = refl; ids = refl; next = refl })
  | inr e ↦ rw (e, ensure_default_user) (record { raw = refl; ids = refl; next = refl })
]

pub SameRows-trans : (db db' db'' : Db) → SameRows db db' → SameRows db' db'' → SameRows db db''
SameRows-trans db db' db'' a b = record {
  raw = b.raw ∙ a.raw;
  ids = b.ids ∙ a.ids;
  next = b.next ∙ a.next;
}

Found : Db → Outcome StoreError (ℕ × Db) → Type 0
Found db (ok (_, db')) = SameRows db db'
Found db (err _) = Unit

ensure_device-Found :
    (user : ℕ) (name source : Bytes) (db : Db) → Found db (ensure_device user name source db)
unfolding Found ensure_device insert_device
ensure_device-Found user name source db = elim (Option-cases (find_device user name db.devices)) [
  | inl e ↦ elim (Bool-cases (has_id user db.users)) [
    | inl known ↦
        rw (e, ensure_device, known, insert_device) (record { raw = refl; ids = refl; next = refl })
    | inr unknown ↦ rw (e, ensure_device, unknown, insert_device) tt
  ]
  | inr (id, e) ↦ rw (e, ensure_device) (record { raw = refl; ids = refl; next = refl })
]

-- A table of points in which hashes and sequence numbers are unique.
abbrev pub Distinct : List RawPoint → Type 0
Distinct [] = Unit
Distinct (r ∷ rs) = (has_hash r.ingest_hash rs ≡ false) × (has_seq r.seq rs ≡ false) × Distinct rs

-- What the schema promises of the tables: unique hashes and sequence numbers, and a row of
-- `points` for each raw point, in the same order.
pub record Consistent (db : Db) : Type 0 where
  pub distinct : Distinct db.raw_points
  pub linked : db.points ≡ map (λ r. r.id) db.raw_points

-- One record: the tables that a round of the loop leaves.
pub record Grown (db db' : Db) (r : SpoolRecord) : Type 0 where
  pub added : List RawPoint
  pub rows : db'.raw_points ≡ db.raw_points ++ added
  pub stored : has_hash r.point.ingest_hash db'.raw_points ≡ true
  pub consistent : Consistent db → Consistent db'
  -- A record whose hash is there adds no row.
  pub known : has_hash r.point.ingest_hash db.raw_points ≡ true → SameRows db db'
  pub others :
      (h : String)
      → str_eq r.point.ingest_hash h ≡ false
      → has_hash h db.raw_points ≡ false
      → has_hash h db'.raw_points ≡ false
  pub fits :
      has_hash r.point.ingest_hash db.raw_points ≡ false → has_seq r.seq db.raw_points ≡ true → ⊥

pub has_hash-append :
    (h : String) (rs ss : List RawPoint) → has_hash h (rs ++ ss) ≡ (has_hash h rs || has_hash h ss)
unfolding has_hash
has_hash-append h [] ss = refl
has_hash-append h (r ∷ rs) ss = ground (arith, has_hash-append h rs ss)

pub has_seq-append :
    (n : ℕ) (rs ss : List RawPoint) → has_seq n (rs ++ ss) ≡ (has_seq n rs || has_seq n ss)
unfolding has_seq
has_seq-append n [] ss = refl
has_seq-append n (r ∷ rs) ss = ground (arith, has_seq-append n rs ss)

has_hash-last : (rs : List RawPoint) (r : RawPoint) → has_hash r.ingest_hash (rs ++ r ∷ []) ≡ true
unfolding has_hash
has_hash-last rs r = ground (
  arith,
  has_hash-append r.ingest_hash rs (r ∷ []),
  string_eq.beq_iff r.ingest_hash r.ingest_hash,
)

Distinct-append :
    (rs : List RawPoint) (r : RawPoint)
    → Distinct rs
    → has_hash r.ingest_hash rs ≡ false
    → has_seq r.seq rs ≡ false
    → Distinct (rs ++ r ∷ [])
unfolding has_hash has_seq
Distinct-append [] r d h s = (refl, refl, tt)
Distinct-append (q ∷ rs) r (dh, ds, d) h s = (
  ground (
    arith,
    has_hash-append q.ingest_hash rs (r ∷ []),
    string_eq.beq_iff q.ingest_hash r.ingest_hash,
    string_eq.beq_iff r.ingest_hash q.ingest_hash,
  ),
  ground (arith, has_seq-append q.seq rs (r ∷ [])),
  Distinct-append rs r d (ground arith) (ground arith),
)

insert_raw-Grown :
    (now : Time) (user device : ℕ) (r : SpoolRecord) (db db' : Db)
    → insert_raw now user device r db ≡ ok db'
    → Grown db db' r
unfolding insert_raw has_hash
insert_raw-Grown now user device r db db' e =
    let result = insert_raw now user device r db in
    elim (Bool-cases (has_hash r.point.ingest_hash db.raw_points)) [
      | inl dup ↦
          subst (λ x. Grown db x r) (same_ok db (rw dup at e))
            (record {
              added = [];
              rows = sym (append-nil db.raw_points);
              stored = dup;
              consistent = λ c. c;
              known = λ _. record { raw = refl; ids = refl; next = refl };
              others = λ _ _ k. k;
              fits = λ k _. cc;
            })
      | inr fresh ↦ elim (Bool-cases (has_seq r.seq db.raw_points)) [
        | inl taken ↦ absurd (not_both result {y = seq_taken} (rw (fresh, taken) refl) e)
        | inr free ↦
            let row = row_of now db.next_raw_point_id user device r in
            subst (λ x. Grown db x r) (same_ok _ (rw (fresh, free) at e))
              (record {
                added = row ∷ [];
                rows = refl;
                stored = has_hash-last db.raw_points row;
                consistent = λ c. record {
                  distinct = Distinct-append db.raw_points row c.distinct fresh free;
                  linked =
                      ap (λ ids. ids ++ db.next_raw_point_id ∷ []) c.linked
                      ∙ sym (map-append (λ q. q.id) db.raw_points (row ∷ []));
                };
                known = λ k. cc;
                others = λ h ne k. ground (arith, has_hash-append h db.raw_points (row ∷ []));
                fits = λ _ k. cc;
              })
      ]
    ]

pub with_rows :
    (db db' db'' : Db) (r : SpoolRecord) → SameRows db db' → Grown db' db'' r → Grown db db'' r
with_rows db db' db'' r same g = record {
  added = g.added;
  rows = g.rows ∙ ap (λ rows. rows ++ g.added) same.raw;
  stored = g.stored;
  consistent = λ c. g.consistent (record {
    distinct = subst Distinct (sym same.raw) c.distinct;
    linked = same.ids ∙ c.linked ∙ ap (map (λ q. q.id)) (sym same.raw);
  });
  known = λ k.
      SameRows-trans db db' db'' same (g.known (ap (has_hash r.point.ingest_hash) same.raw ∙ k));
  others = λ h ne k. g.others h ne (ap (has_hash h) same.raw ∙ k);
  fits = λ k l.
      g.fits (ap (has_hash r.point.ingest_hash) same.raw ∙ k) (ap (has_seq r.seq) same.raw ∙ l);
}

-- A round of the loop: the row is there, and the highest sequence number covers it.
pub record Round (p p' : Progress) (r : SpoolRecord) : Type 0 where
  pub grown : Grown p.db p'.db r
  pub above : p.max_seq ≤ p'.max_seq
  pub covers : r.seq ≤ p'.max_seq
  pub top : (bound : ℕ) → p.max_seq ≤ bound → r.seq ≤ bound → p'.max_seq ≤ bound

with_device-Round :
    (now : Time) (r : SpoolRecord) (p p' : Progress) (device : ℕ) (db : Db)
    → SameRows p.db db
    → with_device now r p (device, db) ≡ ok p'
    → Round p p' r
unfolding with_device advance_maps
with_device-Round now r p p' device db same e =
    elim (Outcome-cases (insert_raw now (user_of r) device r db)) [
      | inl (db', f) ↦
          subst (λ x. Round p x r)
            (same_ok (advance_maps now device r db' p) (rw (f, with_device) at e))
            (record {
              grown =
                  with_rows p.db db db' r same (insert_raw-Grown now (user_of r) device r db db' f);
              above = ground arith;
              covers = ground arith;
              top = λ b h k. ground arith;
            })
      | inr (x, f) ↦
          absurd (not_both (with_device now r p (device, db)) {y = x} (rw (f, with_device) refl) e)
    ]

pub insert_one-Round :
    (now : Time) (r : SpoolRecord) (p p' : Progress) → insert_one now r p ≡ ok p' → Round p p' r
unfolding insert_one Found
insert_one-Round now r p p' e =
    let name = normalized_device_name r.device_id in
    let source = normalized_source_type r.point.source_type in
    let same = ensure_device-Found (user_of r) name source p.db in
    elim (Outcome-cases (ensure_device (user_of r) name source p.db)) [
      | inl ((device, db), f) ↦
          with_device-Round now r p p' device db (subst (Found p.db) f same)
            (sym (rw (f, insert_one) refl) ∙ e)
      | inr (x, f) ↦ absurd (not_both (insert_one now r p) {y = x} (rw (f, insert_one) refl) e)
    ]
