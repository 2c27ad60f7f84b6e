-- ===== src/Flusher/Events.antt =====
-- The loops and events of the flusher keep what each batch keeps.
use plexplore.Prelude.{
  ℕ, zero, suc, String, Bool, true, false, Outcome, ok, err, Option, none, some, Bool-cases,
  Outcome-cases, if◌then◌else◌, ltb, ◌==◌, not, ◌||◌, ◌&&◌, inl, inr,
}
use plexplore.GoTime.{Time}
use plexplore.Ingest.Json.{Json}
use plexplore.Flusher.{
  Backend, Config, State, Flusher, Event, tick, trigger, stop, flush_one_batch, flush_loop,
  flush_pass, flush_until_empty, handle, recorded, finish, record_flush_result,
}

-- A property of the state that each batch keeps is kept by all loops and events.
module _ {S : Type 0} (be : Backend S) (j : Json) (now : Time) (cfg : Config) (P : State S → Type 0)
    (keeps : (st : State S) → P st → P (flush_one_batch be j now cfg st).1) where
  abbrev Kept : Option (Outcome String (Unit {0}) × State S) → Type 0
  Kept none = Unit
  Kept (some r) = P r.1

  flush_loop-Kept : (fuel : ℕ) (st : State S) → P st → Kept (flush_loop be j now cfg fuel st)
  unfolding flush_loop
  flush_loop-Kept zero st h = tt
  flush_loop-Kept (suc fuel) st h =
      let r = flush_one_batch be j now cfg st in
      let next = keeps st h in
      let rest = flush_loop-Kept fuel r.1 next in
      elim (Outcome-cases r.0) [
        | inl (more, e) ↦
            elim (Bool-cases (
              not more
              || r.1.buffer.total_points == 0
              || ltb r.1.buffer.total_points cfg.flush_batch_size)) [
                | inl done ↦ rw (e, flush_loop, done) next
                | inr again ↦ rw (e, flush_loop, again) rest
              ]
        | inr (x, e) ↦ rw (e, flush_loop) next
      ]

  flush_pass-Kept :
      (fuel : ℕ) (timer_mode : Bool) (st : State S)
      → P st
      → Kept (flush_pass be j now cfg fuel timer_mode st)
  unfolding flush_pass
  flush_pass-Kept fuel timer_mode st h = elim (Bool-cases (st.buffer.total_points == 0)) [
    | inl e ↦ rw (e, flush_pass) h
    | inr e ↦
        elim (Bool-cases (not timer_mode && ltb st.buffer.total_points cfg.flush_batch_size)) [
          | inl f ↦ rw (e, f) h
          | inr f ↦ rw (e, f) (flush_loop-Kept fuel st h)
        ]
  ]

  flush_until_empty-Kept :
      (fuel : ℕ) (st : State S) → P st → Kept (flush_until_empty be j now cfg fuel st)
  unfolding flush_until_empty
  flush_until_empty-Kept zero st h = tt
  flush_until_empty-Kept (suc fuel) st h =
      let r = flush_one_batch be j now cfg st in
      let next = keeps st h in
      let rest = flush_until_empty-Kept fuel r.1 next in
      elim (Outcome-cases r.0) [
        | inl (true, e) ↦ rw (e, flush_until_empty) rest
        | inl (false, e) ↦ rw (e, flush_until_empty) next
        | inr (x, e) ↦ rw (e, flush_until_empty) next
      ]

  recorded-Kept :
      (r : Option (Outcome String (Unit {0}) × State S)) (f g : Flusher S)
      → P g.state
      → Kept r
      → P (finish be j now cfg (recorded be j now cfg f r) g).state
  unfolding recorded finish record_flush_result
  recorded-Kept none f g h k = h
  recorded-Kept (some (ok _, st)) f g h k = k
  recorded-Kept (some (err _, st)) f g h k = k

  if-Kept : (b : Bool) (f g : Flusher S) → P f.state → P g.state → P (if b then f else g).state
  if-Kept true f g h k = h
  if-Kept false f g h k = k

  pub handle-Kept :
      (fuel : ℕ) (e : Event) (f : Flusher S) → P f.state → P (handle be j now cfg fuel e f).state
  unfolding handle
  handle-Kept fuel tick f h =
      if-Kept f.done f _ h (recorded-Kept _ f f h (flush_pass-Kept fuel true f.state h))
  handle-Kept fuel trigger f h =
      let f' = record f { triggered = false } in
      if-Kept (f.done || not f.triggered) f _ h
        (recorded-Kept _ f' f' h (flush_pass-Kept fuel false f.state h))
  handle-Kept fuel stop f h = if-Kept f.done f _ h (
      recorded-Kept _ (record f { stopped = true; done = true }) f h
        (flush_until_empty-Kept fuel f.state h))
