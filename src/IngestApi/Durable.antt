-- ===== src/IngestApi/Durable.antt =====
-- A reply of success means that the points are in the spool and in the buffer.
use plexplore.Prelude.{
  ◌+◌, ◌<◌, ◌≡◌, refl, sym, ap, subst, ◌∙◌, inl, inr, String, Bool, Option, some, List, ◌++◌,
  Outcome, ok, err, arith, length, All, ◌||◌,
}
use plexplore.Prelude.Dict.{Dict}
use plexplore.GoTime.{Time}
use plexplore.Float64.{FloatOps}
use plexplore.Ingest.Models.{CanonicalPoint, SpoolRecord, Bytes}
use plexplore.Ingest.Json.{Json}
use plexplore.Ingest.Hash.{Formats}
use plexplore.Text.{u64_mod}
use plexplore.Spool.World.{FileSpoolManager, FsyncMode, Node}
use plexplore.Spool.Log.{Segment, contents, calm, IsLog}
use plexplore.Spool.Log.Laws.{CanSpool, records_of, append_canonical_points-calm}
use plexplore.Buffer.{Error, Manager, items, enqueue, filter_near_duplicates}
use plexplore.Buffer.Marking.{Filtered, filter_near_duplicates-Filtered}
use plexplore.Buffer.Fifo.{seqs, enqueue_all_or_nothing}
use plexplore.IngestApi.{
  Dependencies, Pipeline, IngestSuccessResponse, IngestError, buffer_failed,
  maybe_trigger_pressure_flush, enqueue_records, after_append, append_and_enqueue,
}

maybe_trigger-buffer :
    (deps : Dependencies) (now : Time) (st : Pipeline)
    → ((maybe_trigger_pressure_flush deps now st).buffer ≡ st.buffer)
      × ((maybe_trigger_pressure_flush deps now st).world ≡ st.world)
unfolding maybe_trigger_pressure_flush
maybe_trigger-buffer deps now st = (ground arith, ground arith)

module _ (fl : FloatOps) (fmt : Formats) (j : Json) (now : Time) (deps : Dependencies) where
  -- What the second half of the call comes to: a success has put the records behind those of the
  -- buffer, near duplicates as markers, an error has left the buffer alone and asked for a flush.
  abbrev pub Answered :
      List SpoolRecord → Pipeline → Outcome IngestError IngestSuccessResponse × Pipeline → Type 0
  Answered records st (ok r, st') =
      (r.spooled ≡ length records)
      × (st'.world ≡ st.world)
      × (seqs (items st'.buffer) ≡ seqs (items st.buffer) ++ seqs records)
      × ((taken : List SpoolRecord) × (items st'.buffer ≡ items st.buffer ++ taken)
          × Filtered fl st.buffer records taken)
  Answered records st (err e, st') =
      ((x : Error) × (e ≡ buffer_failed x))
      × (st'.world ≡ st.world)
      × (st'.buffer ≡ st.buffer)
      × (st'.triggered ≡ (deps.has_flusher || st.triggered))

  enqueue_records-Answered :
      (points : List CanonicalPoint) (source : String) (records : List SpoolRecord) (st : Pipeline)
      → Answered records st (enqueue_records fl fmt j now deps points source records st)
  unfolding enqueue_records
  enqueue_records-Answered points source records st =
      let m = (enqueue fl j now st.buffer records).1 in
      let kept = maybe_trigger-buffer deps now (record st { buffer = m }) in
      elim (enqueue_all_or_nothing fl j now st.buffer records) [
        | inl ((x, failed), same) ↦ rw (failed, enqueue_records) ((x, refl), refl, same, refl)
        | inr (done, put, added) ↦
            rw (done, enqueue_records)
              (
                refl,
                kept.1,
                ap (λ b. seqs (items b)) kept.0 ∙ added,
                (
                  (filter_near_duplicates fl st.buffer records).0,
                  ap items kept.0 ∙ put,
                  filter_near_duplicates-Filtered fl st.buffer records,
                ),
              )
      ]

  -- What a call comes to, in a world in which no call of `os` fails: the log has the records of the
  -- points at its end, and they are answered for.
  pub record Accepted (cp : Option Bytes) (ps : List CanonicalPoint) (segs : List Segment)
      (m : FileSpoolManager) (st : Pipeline)
      (r : Outcome IngestError IngestSuccessResponse × Pipeline) : Type 0 where
    pub manager : FileSpoolManager
    pub disk : Dict Bytes Node
    pub log : List Segment
    pub is_log : IsLog j log manager disk
    pub at_end : contents log ≡ contents segs ++ records_of fl fmt j now cp m.next_seq ps
    pub answered :
        Answered
          (records_of fl fmt j now cp m.next_seq ps)
          (record st { world = calm manager disk cp })
          r

  -- `appendAndEnqueue`, when no call of `os` fails, the fsync mode is known, the points have JSON
  -- texts and the sequence numbers do not reach 2^64: the records of all points stand at the end of
  -- the log, numbered from the next sequence number on. A success has behind the records that were
  -- in the buffer one for each of these, in order: the record as it is, or a marker with its
  -- sequence number exactly where it is a near duplicate of the last point kept of its device; no
  -- markers where both thresholds are 0. An error is one of the buffer, which is left as it was, and
  -- asks the flusher, if there is one, for a flush.
  pub append_and_enqueue-Accepted :
      (cp : Option Bytes) (ps : List CanonicalPoint) (source : String) (segs : List Segment)
      (m : FileSpoolManager) (d : Dict Bytes Node) (mode : FsyncMode) (b : Manager)
      (triggered : Bool)
      → IsLog j segs m d
      → m.fsync_mode ≡ some mode
      → m.next_seq + length ps < u64_mod
      → All (CanSpool fl fmt j now cp) ps
      → let st : Pipeline = record { world = calm m d cp; buffer = b; triggered = triggered } in
        Accepted cp ps segs m st (append_and_enqueue fl fmt j now deps ps source st)
  unfolding append_and_enqueue after_append
  append_and_enqueue-Accepted cp ps source segs m d mode b triggered log known small can =
      let done =
        append_canonical_points-calm fl fmt j now cp ps segs m d mode log known small can in
      let w = calm done.manager done.disk cp in
      let st : Pipeline = record { world = w; buffer = b; triggered = triggered } in
      let records = records_of fl fmt j now cp m.next_seq ps in
      record {
        manager = done.manager;
        disk = done.disk;
        log = done.log;
        is_log = done.is_log;
        at_end = done.at_end;
        answered =
            subst
              (λ r. Answered records st (
                after_append fl fmt j now deps ps source
                  (record { world = calm m d cp; buffer = b; triggered = triggered }) r))
              (sym done.result) (enqueue_records-Answered ps source records st);
      }
