-- ===== src/Flusher/Runs.antt =====
-- The runs of a flusher whose buffer the handlers fill: a relation of the states that it reaches
-- with the records that were taken into the buffer on the way.
use plexplore.Prelude.{ℕ, ◌≤◌, ◌≡◌, sym, subst, List, [], ◌++◌, ok, All, arith}
use plexplore.GoTime.{Time}
use plexplore.Float64.{FloatOps}
use plexplore.Ingest.Models.{SpoolRecord}
use plexplore.Ingest.Json.{Json}
use plexplore.Buffer.{items, enqueue}
use plexplore.Buffer.Fifo.{CanEncode}
use plexplore.Flusher.{Backend, Config, Flusher, Event, flush_one_batch, handle, trigger_flush}
use plexplore.Flusher.Durable.{View, Durable}
use plexplore.Flusher.Events.{handle-Kept}
use plexplore.Flusher.Safety.{Rising}
use plexplore.Flusher.Sound.{
  Sound, Fresh, taken, filled, Harmless, enqueue-Sound, Harmless-Sound, flush_one_batch-Sound,
}

module _ {S : Type 0} (be : Backend S) (v : View S) (laws : Durable be v) (j : Json) where
  open v use {checkpoint, Spooled}

  -- The states that a flusher reaches from an empty buffer on: the handlers put records into the
  -- buffer that are in the spool and whose sequence numbers are past all earlier ones, others change
  -- the world harmlessly, and batches are flushed, one by one or by the events of the flusher's
  -- goroutine, with any fuel and at any time. The handlers' calls come between the flushes of batches: no record is put into
  -- the buffer between the drain of a batch and its commit or requeue. The indices are the records
  -- that the buffer took, near duplicates as markers, and a bound of their numbers.
  pub data Reaches (cfg : Config) : List SpoolRecord → ℕ → Flusher S → Type 0 where
    start :
        (f : Flusher S)
        → v.Good f.state.world
        → items f.state.buffer ≡ []
        → Reaches cfg [] (checkpoint f.state.world) f
    accepted :
        {tracked : List SpoolRecord} {top : ℕ} {f : Flusher S}
        → (fl : FloatOps) (now : Time) (top' : ℕ) (rs : List SpoolRecord)
        → (enqueue fl j now f.state.buffer rs).0 ≡ ok tt
        → Fresh be v laws j top top' (taken be v laws j fl f.state rs)
        → All (λ r. Spooled r.seq f.state.world) (taken be v laws j fl f.state rs)
        → Reaches cfg tracked top f
        → Reaches cfg
            (tracked ++ taken be v laws j fl f.state rs)
            top'
            (filled be v laws j fl now rs f)
    changed :
        {tracked : List SpoolRecord} {top : ℕ} {f : Flusher S}
        → (s' : S) → Harmless be v laws j f.state.world s'
        → Reaches cfg tracked top f
        → Reaches cfg tracked top (record f { state = record (f.state) { world = s' } })
    flushed :
        {tracked : List SpoolRecord} {top : ℕ} {f : Flusher S}
        → (now : Time) → Reaches cfg tracked top f
        → Reaches cfg tracked top (record f { state = (flush_one_batch be j now cfg f.state).1 })
    requested :
        {tracked : List SpoolRecord} {top : ℕ} {f : Flusher S}
        → Reaches cfg tracked top f
        → Reaches cfg tracked top (trigger_flush f)
    handled :
        {tracked : List SpoolRecord} {top : ℕ} {f : Flusher S}
        → (now : Time) (fuel : ℕ) (e : Event) → Reaches cfg tracked top f
        → Reaches cfg tracked top (handle be j now cfg fuel e f)

  -- A flusher runs from an empty buffer on, over a store, a checkpoint and a spool that keep the
  -- laws of `Durable`. The records of each call that is accepted are in the spool by then, have JSON
  -- texts, and have rising sequence numbers, past those of all earlier calls and past the
  -- checkpoint of the start; calls come between the flushes of batches, not within one. What others
  -- change loses no record of the store, none of the spool past the checkpoint, and leaves the
  -- checkpoint, the world still being one that the laws are about, as it is at the start. Then in
  -- every state that it reaches, a record that the buffer took, a near duplicate as a marker, is in
  -- the store or is a marker, or it is in the buffer, its sequence number is past the checkpoint,
  -- and the spool, compacted or not, still has a record with that number; and the checkpoint has
  -- not passed the highest sequence number that the buffer was given.
  pub Reaches-Sound :
      (cfg : Config) (tracked : List SpoolRecord) (top : ℕ) (f : Flusher S)
      → Reaches cfg tracked top f
      → Sound be v laws j tracked top f.state
  unfolding trigger_flush
  Reaches-Sound cfg _ _ _ (start f good none_yet) =
      let nothing = λ (P : SpoolRecord → Type 0). subst (All P) (sym none_yet) tt in
      record {
        safe = record { good = good; rising = subst Rising (sym none_yet) tt; held = tt };
        encodable = nothing (CanEncode j);
        below = nothing λ r. r.seq ≤ checkpoint f.state.world;
        bounded = omega arith;
      }
  Reaches-Sound cfg _ _ _
        (accepted {tracked = t} {top = n} {f = f} fl now top' rs done fresh spooled h) =
      enqueue-Sound be v laws j fl now t n top' f.state rs done fresh spooled
        (Reaches-Sound cfg t n f h)
  Reaches-Sound cfg _ _ _ (changed {tracked = t} {top = n} {f = f} s' harmless h) =
      Harmless-Sound be v laws j t n f.state s' harmless (Reaches-Sound cfg t n f h)
  Reaches-Sound cfg _ _ _ (flushed {tracked = t} {top = n} {f = f} now h) =
      flush_one_batch-Sound be v laws j now cfg t n f.state (Reaches-Sound cfg t n f h)
  Reaches-Sound cfg _ _ _ (requested {tracked = t} {top = n} {f = f} h) = Reaches-Sound cfg t n f h
  Reaches-Sound cfg _ _ _ (handled {tracked = t} {top = n} {f = f} now fuel e h) =
      handle-Kept be j now cfg (Sound be v laws j t n)
        (flush_one_batch-Sound be v laws j now cfg t n) fuel e f (Reaches-Sound cfg t n f h)
