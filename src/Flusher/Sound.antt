-- ===== src/Flusher/Sound.antt =====
-- What a flush, a call of the handlers and a harmless change of the world keep of a flusher.
use plexplore.Prelude.{
  ℕ, ◌≤◌, ◌<◌, ◌≡◌, sym, subst, inl, inr, String, Bool, List, ◌++◌, Outcome, ok, All, All-map,
  All-append, All-drop, All-take, All-Memᴰ, Memᴰ-All, Memᴰ, arith,
}
use plexplore.Prelude.Memᴰ
use plexplore.GoTime.{Time}
use plexplore.Float64.{FloatOps}
use plexplore.Ingest.Models.{SpoolRecord}
use plexplore.Ingest.Json.{Json}
use plexplore.Buffer.{items, enqueue, filter_near_duplicates, drain_batch}
use plexplore.Buffer.Fifo.{CanEncode, enqueue_all_or_nothing, drain_batch-items}
use plexplore.Flusher.Passes.{Took-cases}
use plexplore.Flusher.{Backend, Config, State, Flusher, flush_one_batch}
use plexplore.Flusher.Batch.{flush_one_batch-items, flush_one_batch-cases}
use plexplore.Flusher.Durable.{View, Durable}
use plexplore.Flusher.Commit.{commit_batch-Committed}
use plexplore.Flusher.Safety.{Rising, Rising-append, Held, Safe, flush_one_batch-Safe}

All-drop-either :
    (P : SpoolRecord → Type 0) {S : Type 0} (be : Backend S) (j : Json) (now : Time) (cfg : Config)
    (st : State S)
    → All (CanEncode j) (items st.buffer)
    → All P (items st.buffer)
    → All P (items (flush_one_batch be j now cfg st).1.buffer)
All-drop-either P be j now cfg st can h =
    let n = cfg.flush_batch_size in
    elim (Took-cases be j now cfg st _ (flush_one_batch-items be j now cfg st can)) [
      | inl (e, some_batch, left) ↦ subst (All P) (sym left) (All-drop P n (items st.buffer) h)
      | inr (inl (e, nothing, same)) ↦ subst (All P) (sym same) h
      | inr (inr (x, e, same)) ↦ subst (All P) (sym same) h
    ]

module _ {S : Type 0} (be : Backend S) (v : View S) (laws : Durable be v) (j : Json) where
  open v use {checkpoint, Spooled}

  -- What a run keeps: `top` is the highest sequence number that the buffer was given.
  pub record Sound (tracked : List SpoolRecord) (top : ℕ) (st : State S) : Type 0 where
    pub safe : Safe be v laws tracked st
    pub encodable : All (CanEncode j) (items st.buffer)
    pub below : All (λ r. r.seq ≤ top) (items st.buffer)
    pub bounded : checkpoint st.world ≤ top

  Held-longer :
      (r : SpoolRecord) (s : S) (xs ys : List SpoolRecord)
      → Held be v laws r s xs
      → Held be v laws r s (xs ++ ys)
  Held-longer r s xs ys (inl stored) = inl stored
  Held-longer r s xs ys (inr (inl marker)) = inr (inl marker)
  Held-longer r s xs ys (inr (inr (waits, past, spooled))) =
      inr (inr (Memᴰ.append_left ys waits, past, spooled))

  flush_one_batch-checkpoint :
      (now : Time) (cfg : Config) (top : ℕ) (st : State S)
      → v.Good st.world
      → All (λ r. r.seq ≤ top) (items st.buffer)
      → checkpoint st.world ≤ top
      → checkpoint (flush_one_batch be j now cfg st).1.world ≤ top
  flush_one_batch-checkpoint now cfg top st good below bounded =
      let n = cfg.flush_batch_size in
      let batch = (drain_batch n st.buffer).0 in
      let low =
        subst (All (λ r. r.seq ≤ top)) (sym (drain_batch-items n st.buffer).0)
          (All-take (λ r. r.seq ≤ top) n (items st.buffer) below) in
      let done =
        (commit_batch-Committed be v laws j now cfg batch st.world good).bound top low bounded in
      let Low = λ (r : Outcome String Bool × State S). checkpoint r.1.world ≤ top in
      elim (flush_one_batch-cases be j now cfg st) [
        | inl (_, eq) ↦ subst Low (sym eq) bounded
        | inr (inl (_, _, eq)) ↦ subst Low (sym eq) done
        | inr (inr (_, _, eq)) ↦ subst Low (sym eq) done
      ]

  pub flush_one_batch-Sound :
      (now : Time) (cfg : Config) (tracked : List SpoolRecord) (top : ℕ) (st : State S)
      → Sound tracked top st
      → Sound tracked top (flush_one_batch be j now cfg st).1
  flush_one_batch-Sound now cfg tracked top st h = record {
    safe = flush_one_batch-Safe be v laws j now cfg tracked st h.encodable h.safe;
    encodable = All-drop-either (CanEncode j) be j now cfg st h.encodable h.encodable;
    below = All-drop-either (λ r. r.seq ≤ top) be j now cfg st h.encodable h.below;
    bounded = flush_one_batch-checkpoint now cfg top st h.safe.good h.below h.bounded;
  }

  -- What is asked of records that go into the buffer: they have JSON texts, and their sequence
  -- numbers rise, past a bound of the earlier ones, up to a new bound.
  pub record Fresh (top top' : ℕ) (new : List SpoolRecord) : Type 0 where
    pub wider : top ≤ top'
    pub rising : Rising new
    pub above : All (λ r. top < r.seq) new
    pub below : All (λ r. r.seq ≤ top') new
    pub encodable : All (CanEncode j) new

  -- The records that `Enqueue` puts into the queue, near duplicates as markers.
  abbrev pub taken : FloatOps → State S → List SpoolRecord → List SpoolRecord
  taken fl st rs = (filter_near_duplicates fl st.buffer rs).0

  abbrev pub filled : FloatOps → Time → List SpoolRecord → Flusher S → Flusher S
  filled fl now rs f = record f {
    state = record (f.state) { buffer = (enqueue fl j now f.state.buffer rs).1 };
  }

  pub enqueue-Sound :
      (fl : FloatOps) (now : Time) (tracked : List SpoolRecord) (top top' : ℕ) (st : State S)
      (rs : List SpoolRecord)
      → let new = (filter_near_duplicates fl st.buffer rs).0 in
        let (result, m) = enqueue fl j now st.buffer rs in
        result ≡ ok tt
        → Fresh top top' new
        → All (λ r. Spooled r.seq st.world) new
        → Sound tracked top st
        → Sound (tracked ++ new) top' (record st { buffer = m })
  enqueue-Sound fl now tracked top top' st rs done fresh spooled h =
      let new = (filter_near_duplicates fl st.buffer rs).0 in
      let m = (enqueue fl j now st.buffer rs).1 in
      elim (enqueue_all_or_nothing fl j now st.buffer rs) [
        | inl ((e, failed), same) ↦ absurd (cc)
        | inr (result, added, _) ↦
            let later = λ (r : SpoolRecord) (k : Held be v laws r st.world (items st.buffer)).
              subst (Held be v laws r st.world) (sym added)
                (Held-longer r st.world (items st.buffer) new k) in
            let waits = λ (r : SpoolRecord) (k : Memᴰ r new). inr (
              inr (
                subst (Memᴰ r) (sym added) (Memᴰ.append_right (items st.buffer) k),
                omega (arith, h.bounded, All-Memᴰ (λ r. top < r.seq) new fresh.above k),
                All-Memᴰ (λ r. Spooled r.seq st.world) new spooled k,
              )) in
            record {
              safe = record {
                good = h.safe.good;
                rising = subst Rising (sym added) (
                    Rising-append (items st.buffer) new h.safe.rising fresh.rising (
                      All-map _
                        (λ r (k : r.seq ≤ top).
                          All-map _ (λ q (l : top < q.seq). omega arith) new fresh.above)
                        (items st.buffer) h.below));
                held =
                    All-append _ tracked new (All-map _ later tracked h.safe.held)
                      (Memᴰ-All _ new waits);
              };
              encodable =
                  subst (All (CanEncode j)) (sym added)
                    (All-append _ (items st.buffer) new h.encodable fresh.encodable);
              below = subst (All (λ r. r.seq ≤ top')) (sym added) (
                  All-append _ (items st.buffer) new
                    (All-map _ (λ r (k : r.seq ≤ top). omega (arith, fresh.wider)) (items st.buffer)
                      h.below)
                    fresh.below);
              bounded = omega (arith, h.bounded, fresh.wider);
            }
      ]

  -- A change of the world by others than the flusher, such as the handlers' appends to the spool:
  -- nothing that is stored is lost, the checkpoint stays, and so does what is in the spool past it.
  pub record Harmless (s s' : S) : Type 0 where
    pub good : v.Good s'
    pub keeps : (r : SpoolRecord) → v.Stored r s → v.Stored r s'
    pub checkpoint_kept : checkpoint s' ≡ checkpoint s
    pub spooled : (n : ℕ) → checkpoint s < n → Spooled n s → Spooled n s'

  Harmless-Held :
      (s s' : S) (xs : List SpoolRecord)
      → Harmless s s'
      → (r : SpoolRecord) → Held be v laws r s xs
      → Held be v laws r s' xs
  Harmless-Held s s' xs same r (inl stored) = inl (same.keeps r stored)
  Harmless-Held s s' xs same r (inr (inl marker)) = inr (inl marker)
  Harmless-Held s s' xs same r (inr (inr (waits, past, spooled))) = inr (
      inr (
        waits,
        subst (λ n. n < r.seq) (sym same.checkpoint_kept) past,
        same.spooled r.seq past spooled,
      ))

  pub Harmless-Sound :
      (tracked : List SpoolRecord) (top : ℕ) (st : State S) (s' : S)
      → Harmless st.world s'
      → Sound tracked top st
      → Sound tracked top (record st { world = s' })
  Harmless-Sound tracked top st s' same h = record {
    safe = record {
      good = same.good;
      rising = h.safe.rising;
      held = All-map _ (Harmless-Held st.world s' (items st.buffer) same) tracked h.safe.held;
    };
    encodable = h.encodable;
    below = h.below;
    bounded = subst (λ n. n ≤ top) (sym same.checkpoint_kept) h.bounded;
  }
