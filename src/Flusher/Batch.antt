-- ===== src/Flusher/Batch.antt =====
-- `flushOneBatch` by its branches, and what each leaves in the buffer.
use plexplore.Prelude.{
  ◌≡◌, ◌≢◌, refl, sym, ap, subst, ◌∙◌, ◌⊎◌, inl, inr, String, Bool, true, false, List, [], ◌∷◌,
  ◌++◌, Outcome, ok, err, take, drop, All, All-take, Outcome-cases,
}
use plexplore.GoTime.{Time}
use plexplore.Ingest.Models.{SpoolRecord}
use plexplore.Ingest.Json.{Json}
use plexplore.Buffer.{Manager, items, drain_batch, requeue_front}
use plexplore.Buffer.Accounts.{Accounts, drain_batch-Accounts, requeue_front-Accounts}
use plexplore.Buffer.Fifo.{
  CanEncode, drain_batch-items, drain_batch-append, requeue-drain, requeue_front-items,
}
use plexplore.Flusher.{
  Backend, Config, State, commit_batch, after_drain, finish_batch, flush_one_batch,
}

module _ {S : Type 0} (be : Backend S) (j : Json) (now : Time) (cfg : Config) where
  -- What a batch and the rest of the buffer come to.
  abbrev pub Flushed : List SpoolRecord → Manager → S → Outcome String Bool × State S → Type 0
  Flushed batch m s r =
      let c = commit_batch be j now cfg batch s in
      ((batch ≡ []) × (r ≡ (ok false, record { buffer = m; world = s })))
      ⊎ ((batch ≢ []) × (c.0 ≡ ok tt) × (r ≡ (ok true, record { buffer = m; world = c.1 })))
      ⊎ ((e : String) × (c.0 ≡ err e)
          × (r ≡ (err e, record { buffer = (requeue_front j now m batch).1; world = c.1 })))

  after_drain_cases :
      (batch : List SpoolRecord) (m : Manager) (s : S)
      → Flushed batch m s (after_drain be j now cfg batch m s)
  unfolding after_drain finish_batch
  after_drain_cases [] m s = inl (refl, refl)
  after_drain_cases (r ∷ rs) m s = elim (Outcome-cases (commit_batch be j now cfg (r ∷ rs) s).0) [
    | inl (u, e) ↦ inr (inl ((λ p. cc), e, rw (e, finish_batch)))
    | inr (x, e) ↦ inr (inr (x, e, rw (e, finish_batch)))
  ]

  pub flush_one_batch-cases :
      (st : State S)
      → Flushed
          (drain_batch cfg.flush_batch_size st.buffer).0
          (drain_batch cfg.flush_batch_size st.buffer).1
          st.world
          (flush_one_batch be j now cfg st)
  unfolding flush_one_batch
  flush_one_batch-cases st =
      after_drain_cases (drain_batch cfg.flush_batch_size st.buffer).0
        (drain_batch cfg.flush_batch_size st.buffer).1 st.world

  -- What the records in the buffer come to, by the result: a success took the oldest batch, a stop
  -- found nothing, and an error changed nothing.
  abbrev pub Took : State S → Outcome String Bool × State S → Type 0
  Took st (ok true, st') =
      (take cfg.flush_batch_size (items st.buffer) ≢ [])
      × (items st'.buffer ≡ drop cfg.flush_batch_size (items st.buffer))
  Took st (ok false, st') =
      (take cfg.flush_batch_size (items st.buffer) ≡ []) × (items st'.buffer ≡ items st.buffer)
  Took st (err e, st') = items st'.buffer ≡ items st.buffer

  pub encodable_batch :
      (st : State S)
      → All (CanEncode j) (items st.buffer)
      → All (CanEncode j) (drain_batch cfg.flush_batch_size st.buffer).0
  encodable_batch st h =
      subst (All (CanEncode j)) (sym (drain_batch-items cfg.flush_batch_size st.buffer).0)
        (All-take (CanEncode j) cfg.flush_batch_size (items st.buffer) h)

  -- `flushOneBatch`, on a buffer whose records have JSON texts: it returns true and has taken the
  -- oldest records, up to the batch size; or false, as there were none to take; or an error, of the
  -- insert or of the checkpoint, and the buffer holds the same records in the same order.
  pub flush_one_batch-items :
      (st : State S)
      → All (CanEncode j) (items st.buffer)
      → Took st (flush_one_batch be j now cfg st)
  flush_one_batch-items st h =
      let n = cfg.flush_batch_size in
      let taken = drain_batch-items n st.buffer in
      elim (flush_one_batch-cases st) [
        | inl (nothing, eq) ↦ subst (Took st) (sym eq) (
          sym taken.0 ∙ nothing,
          ap (λ b. b ++ items (drain_batch n st.buffer).1) (sym nothing)
              ∙ drain_batch-append n st.buffer,
        )
        | inr (inl (some_batch, done, eq)) ↦
            subst (Took st) (sym eq) ((λ p. some_batch (taken.0 ∙ p)), taken.1)
        | inr (inr (e, failed, eq)) ↦
            subst (Took st) (sym eq) (requeue-drain j now n st.buffer (encodable_batch st h))
      ]

  -- `flushOneBatch` keeps the buffer's counters true, also where it fails and puts the batch back,
  -- if the records in the buffer have JSON texts.
  pub flush_one_batch-Accounts :
      (st : State S)
      → All (CanEncode j) (items st.buffer)
      → Accounts st.buffer st.buffer.queue
      → let st' = (flush_one_batch be j now cfg st).1 in Accounts st'.buffer st'.buffer.queue
  flush_one_batch-Accounts st h a =
      let n = cfg.flush_batch_size in
      let drained = drain_batch-Accounts n st.buffer a in
      let Good = λ (r : Outcome String Bool × State S). Accounts r.1.buffer r.1.buffer.queue in
      elim (flush_one_batch-cases st) [
        | inl (_, eq) ↦ subst Good (sym eq) drained
        | inr (inl (_, _, eq)) ↦ subst Good (sym eq) drained
        | inr (inr (_, _, eq)) ↦ subst Good (sym eq) (
            requeue_front-Accounts j now (drain_batch n st.buffer).1 (drain_batch n st.buffer).0
              drained (requeue_front-items j now _ _ (encodable_batch st h)).0)
      ]
