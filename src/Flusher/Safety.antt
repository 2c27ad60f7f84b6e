-- ===== src/Flusher/Safety.antt =====
-- No record is lost between the buffer and the store: a record that is tracked is in the store, or a
-- marker, or waits in the buffer past the checkpoint, where a replay finds it.
use plexplore.Prelude.{
  ◌-◌, ◌<◌, ◌≡◌, sym, ap, subst, ◌∙◌, ◌⊎◌, inl, inr, String, true, List, [], ◌∷◌, ◌++◌, Outcome,
  All, All-map, All-Memᴰ, All-append, Memᴰ, arith,
}
use plexplore.Prelude.Memᴰ
use plexplore.GoTime.{Time}
use plexplore.Ingest.Models.{SpoolRecord}
use plexplore.Ingest.Json.{Json}
use plexplore.Buffer.{items, drain_batch}
use plexplore.Buffer.Fifo.{CanEncode, drain_batch-append, requeue-drain}
use plexplore.Flusher.{Backend, Config, State, commit_batch, flush_one_batch}
use plexplore.Flusher.Batch.{flush_one_batch-cases, encodable_batch}
use plexplore.Flusher.Durable.{View, Durable}
use plexplore.Flusher.Commit.{Committed, commit_batch-Committed}

-- The sequence numbers rise strictly.
abbrev pub Rising : List SpoolRecord → Type 0
Rising [] = Unit
Rising (r ∷ rs) = All (λ q. r.seq < q.seq) rs × Rising rs

pub Rising-append_right : (xs ys : List SpoolRecord) → Rising (xs ++ ys) → Rising ys
Rising-append_right [] ys h = h
Rising-append_right (x ∷ xs) ys h = Rising-append_right xs ys h.1

pub Rising-append :
    (xs ys : List SpoolRecord)
    → Rising xs
    → Rising ys
    → All (λ x. All (λ y. x.seq < y.seq) ys) xs
    → Rising (xs ++ ys)
Rising-append [] ys h k l = k
Rising-append (x ∷ xs) ys h k l =
    (All-append (λ q. x.seq < q.seq) xs ys h.0 l.0, Rising-append xs ys h.1 k l.1)

pub Rising-before :
    (xs ys : List SpoolRecord) (y : SpoolRecord)
    → Rising (xs ++ ys)
    → Memᴰ y ys
    → All (λ x. x.seq < y.seq) xs
Rising-before [] ys y h m = tt
Rising-before (x ∷ xs) ys y (first, h) m = (
  All-Memᴰ (λ q. x.seq < q.seq) (xs ++ ys) first (Memᴰ.append_right xs m),
  Rising-before xs ys y h m,
)

module _ {S : Type 0} (be : Backend S) (v : View S) (laws : Durable be v) where
  open v use {Good, Stored, checkpoint, Spooled}

  -- The record is stored, or a marker, or in the list, past the checkpoint and in the spool.
  abbrev pub Held : SpoolRecord → S → List SpoolRecord → Type 0
  Held r s waiting =
      Stored r s
      ⊎ (r.checkpoint_only ≡ true)
      ⊎ (Memᴰ r waiting × (checkpoint s < r.seq) × Spooled r.seq s)

  -- What a flush keeps, of the records that are tracked.
  pub record Safe (tracked : List SpoolRecord) (st : State S) : Type 0 where
    pub good : Good st.world
    pub rising : Rising (items st.buffer)
    pub held : All (λ r. Held r st.world (items st.buffer)) tracked

module _ {S : Type 0} (be : Backend S) (v : View S) (laws : Durable be v) (j : Json) (now : Time)
    (cfg : Config) where
  open v use {Good, Stored, checkpoint, Spooled}

  -- A record of a batch that is through, or of the rest.
  after_success :
      (batch rest : List SpoolRecord) (s : S) (c : Outcome String (Unit {0}) × S)
      → Committed be v laws j now cfg batch s c
      → All (λ r. Stored r c.1 ⊎ (r.checkpoint_only ≡ true)) batch
      → Rising (batch ++ rest)
      → (r : SpoolRecord) → Held be v laws r s (batch ++ rest)
      → Held be v laws r c.1 rest
  after_success batch rest s c done through rising r (inl stored) = inl (done.later.keeps r stored)
  after_success batch rest s c done through rising r (inr (inl marker)) = inr (inl marker)
  after_success batch rest s c done through rising r (inr (inr (waits, past, spooled))) =
      elim (Memᴰ.append_cases batch waits) [
        | inl taken ↦
            elim (All-Memᴰ (λ r. Stored r c.1 ⊎ (r.checkpoint_only ≡ true)) batch through taken) [
              | inl stored ↦ inl stored
              | inr marker ↦ inr (inl marker)
            ]
        | inr left ↦
            let lower =
              done.bound (r.seq - 1)
                (All-map (λ b. b.seq < r.seq) (λ b (h : b.seq < r.seq). omega arith) batch
                  (Rising-before batch rest r rising left))
                (omega arith) in
            let beyond : checkpoint c.1 < r.seq = omega arith in
            inr (inr (left, beyond, done.later.spooled r.seq beyond spooled))
      ]

  after_error :
      (batch rest : List SpoolRecord) (s : S) (c : Outcome String (Unit {0}) × S)
      → Committed be v laws j now cfg batch s c
      → Rising (batch ++ rest)
      → (r : SpoolRecord) → Held be v laws r s (batch ++ rest)
      → Held be v laws r c.1 (batch ++ rest)
  after_error batch rest s c done rising r held = elim done.outcome [
    | inl through ↦ elim (after_success batch rest s c done through rising r held) [
      | inl stored ↦ inl stored
      | inr (inl marker) ↦ inr (inl marker)
      | inr (inr (left, past, spooled)) ↦ inr (inr (Memᴰ.append_right batch left, past, spooled))
    ]
    | inr (failed, same) ↦ elim held [
      | inl stored ↦ inl (done.later.keeps r stored)
      | inr (inl marker) ↦ inr (inl marker)
      | inr (inr (waits, past, spooled)) ↦
          let beyond : checkpoint c.1 < r.seq = omega (arith, same) in
          inr (inr (waits, beyond, done.later.spooled r.seq beyond spooled))
    ]
  ]

  -- `flushOneBatch` over a store and a checkpoint that keep their laws, on a buffer whose records
  -- have JSON texts and rise in their sequence numbers: whatever it returns, each tracked record is
  -- in the store or a marker, or it is in the buffer, past the checkpoint still and in the spool.
  pub flush_one_batch-Safe :
      (tracked : List SpoolRecord) (st : State S)
      → All (CanEncode j) (items st.buffer)
      → Safe be v laws tracked st
      → Safe be v laws tracked (flush_one_batch be j now cfg st).1
  flush_one_batch-Safe tracked st can safe =
      let n = cfg.flush_batch_size in
      let batch = (drain_batch n st.buffer).0 in
      let m = (drain_batch n st.buffer).1 in
      let whole = drain_batch-append n st.buffer in
      let done = commit_batch-Committed be v laws j now cfg batch st.world safe.good in
      let c = commit_batch be j now cfg batch st.world in
      let rising = subst Rising (sym whole) safe.rising in
      let held : All (λ r. Held be v laws r st.world (batch ++ items m)) tracked =
        subst (λ xs. All (λ r. Held be v laws r st.world xs) tracked) (sym whole) safe.held in
      elim (flush_one_batch-cases be j now cfg st) [
        | inl (nothing, eq) ↦
            let same = ap (λ b. b ++ items m) (sym nothing) ∙ whole in
            subst (λ r. Safe be v laws tracked r.1) (sym eq)
              (record {
                good = safe.good;
                rising = subst Rising (sym same) safe.rising;
                held =
                    subst (λ xs. All (λ r. Held be v laws r st.world xs) tracked) (sym same)
                      safe.held;
              })
        | inr (inl (some_batch, success, eq)) ↦ elim done.outcome [
          | inl through ↦
              subst (λ r. Safe be v laws tracked r.1) (sym eq)
                (record {
                  good = done.later.good;
                  rising = Rising-append_right batch (items m) rising;
                  held =
                      All-map _ (after_success batch (items m) st.world c done through rising)
                        tracked held;
                })
          | inr ((e, failed), same) ↦ absurd (cc)
        ]
        | inr (inr (e, failed, eq)) ↦
            let back = requeue-drain j now n st.buffer (encodable_batch be j now cfg st can) in
            subst (λ r. Safe be v laws tracked r.1) (sym eq)
              (record {
                good = done.later.good;
                rising = subst Rising (sym back) safe.rising;
                held =
                    subst (λ xs. All (λ r. Held be v laws r c.1 xs) tracked) (whole ∙ sym back)
                      (All-map _ (after_error batch (items m) st.world c done rising) tracked held);
              })
      ]
