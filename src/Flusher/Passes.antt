-- ===== src/Flusher/Passes.antt =====
-- The loops of the flusher end, and what they leave in the buffer when they do.
use plexplore.Prelude.{
  ℕ, zero, suc, ◌+◌, ◌<◌, ◌≡◌, ◌≢◌, refl, sym, ap, subst, ◌∙◌, ◌⊎◌, inl, inr, String, Bool, true,
  false, Option, none, some, List, [], ◌∷◌, Outcome, ok, err, arith, length, take, drop, All,
  All-drop, ltb, ◌==◌, not, ◌||◌, ◌&&◌, length-map, length-drop, Bool-cases,
}
use plexplore.GoTime.{Time}
use plexplore.Ingest.Json.{Json}
use plexplore.Buffer.{Manager, items}
use plexplore.Buffer.Accounts.{Accounts}
use plexplore.Buffer.Fifo.{CanEncode}
use plexplore.Flusher.{
  Backend, Config, State, flush_one_batch, flush_loop, flush_pass, flush_until_empty,
}
use plexplore.Flusher.Batch.{Took, flush_one_batch-items, flush_one_batch-Accounts}

drop-drop {ℓ} : {A : Type ℓ} (m n : ℕ) (xs : List A) → drop m (drop n xs) ≡ drop (n + m) xs
drop-drop m zero xs = let e : 0 + m ≡ m = omega arith in rw e refl
drop-drop zero (suc n) [] = let e : suc n + 0 ≡ suc n = omega arith in rw e refl
drop-drop (suc m) (suc n) [] = let e : suc n + suc m ≡ suc (n + suc m) = omega arith in rw e refl
drop-drop m (suc n) (x ∷ xs) =
    let e : suc n + m ≡ suc (n + m) = omega arith in rw e (drop-drop m n xs)

take-nil {ℓ} : {A : Type ℓ} (n : ℕ) (xs : List A) → 0 < n → take n xs ≡ [] → xs ≡ []
take-nil zero xs h e = absurd (omega arith)
take-nil (suc n) [] h e = refl
take-nil (suc n) (x ∷ xs) h e = absurd (ground arith)

length-drop_lt {ℓ} :
    {A : Type ℓ} (n : ℕ) (xs : List A) → 0 < n → take n xs ≢ [] → length (drop n xs) < length xs
length-drop_lt zero xs h ne = absurd (omega arith)
length-drop_lt (suc n) [] h ne = absurd (ne refl)
length-drop_lt (suc n) (x ∷ xs) h ne = omega (arith, length-drop n xs)

module _ {S : Type 0} (be : Backend S) (j : Json) (now : Time) (cfg : Config) where
  -- `Took` with the result as an equation.
  pub Took-cases :
      (st : State S) (r : Outcome String Bool × State S)
      → Took be j now cfg st r
      → ((r.0 ≡ ok true)
          × (take cfg.flush_batch_size (items st.buffer) ≢ [])
          × (items r.1.buffer ≡ drop cfg.flush_batch_size (items st.buffer)))
        ⊎ ((r.0 ≡ ok false)
            × (take cfg.flush_batch_size (items st.buffer) ≡ [])
            × (items r.1.buffer ≡ items st.buffer))
        ⊎ ((e : String) × (r.0 ≡ err e) × (items r.1.buffer ≡ items st.buffer))
  Took-cases st (ok true, st') h = inl (refl, h.0, h.1)
  Took-cases st (ok false, st') h = inr (inl (refl, h.0, h.1))
  Took-cases st (err e, st') h = inr (inr (e, refl, h))

  -- How a drain of the whole buffer ends: with nil and an empty buffer, or with an error and the
  -- newest records still there. It does end.
  abbrev pub Ended : State S → Option (Outcome String (Unit {0}) × State S) → Type 0
  Ended st none = ⊥
  Ended st (some (ok _, st')) = items st'.buffer ≡ []
  Ended st (some (err e, st')) = (k : ℕ) × (items st'.buffer ≡ drop k (items st.buffer))

  Ended-later :
      (st st' : State S) (r : Option (Outcome String (Unit {0}) × State S)) (n : ℕ)
      → items st'.buffer ≡ drop n (items st.buffer)
      → Ended st' r
      → Ended st r
  Ended-later st st' none n same e = e
  Ended-later st st' (some (ok u, st'')) n same e = e
  Ended-later st st' (some (err x, st'')) n same (k, e) =
      (n + k, e ∙ ap (drop k) same ∙ drop-drop k n (items st.buffer))

  -- `flushUntilEmpty`, with a positive batch size and records that have JSON texts, returns within
  -- one more round than there are records: nil with an empty buffer, or an error with the newest
  -- records still in the buffer, in order.
  pub flush_until_empty-Ended :
      (fuel : ℕ) (st : State S)
      → 0 < cfg.flush_batch_size
      → length (items st.buffer) < fuel
      → All (CanEncode j) (items st.buffer)
      → Ended st (flush_until_empty be j now cfg fuel st)
  unfolding flush_until_empty
  flush_until_empty-Ended zero st b f h = absurd (omega arith)
  flush_until_empty-Ended (suc fuel) st b f h =
      let n = cfg.flush_batch_size in
      let r = flush_one_batch be j now cfg st in
      elim (Took-cases st r (flush_one_batch-items be j now cfg st h)) [
        | inl (e, some_batch, left) ↦
            rw (e, flush_until_empty)
              (Ended-later st r.1 _ n left (
                flush_until_empty-Ended fuel r.1 b
                  (omega (arith, ap length left, length-drop_lt n (items st.buffer) b some_batch))
                  (subst (All (CanEncode j)) (sym left)
                    (All-drop (CanEncode j) n (items st.buffer) h))))
        | inr (inl (e, nothing, same)) ↦
            rw (e, flush_until_empty) (same ∙ take-nil n (items st.buffer) b nothing)
        | inr (inr (x, e, same)) ↦ rw (e, flush_until_empty) (0, same)
      ]

  -- How a flush pass ends: with nil and less than a batch in the buffer, or with an error; what is
  -- left is the newest records. It does end.
  abbrev pub Passed : State S → Option (Outcome String (Unit {0}) × State S) → Type 0
  Passed st none = ⊥
  Passed st (some (ok _, st')) =
      (st'.buffer.total_points < cfg.flush_batch_size)
      × ((k : ℕ) × (items st'.buffer ≡ drop k (items st.buffer)))
  Passed st (some (err e, st')) = (k : ℕ) × (items st'.buffer ≡ drop k (items st.buffer))

  Passed-later :
      (st st' : State S) (r : Option (Outcome String (Unit {0}) × State S)) (n : ℕ)
      → items st'.buffer ≡ drop n (items st.buffer)
      → Passed st' r
      → Passed st r
  Passed-later st st' none n same e = e
  Passed-later st st' (some (ok u, st'')) n same (few, (k, e)) =
      (few, (n + k, e ∙ ap (drop k) same ∙ drop-drop k n (items st.buffer)))
  Passed-later st st' (some (err x, st'')) n same (k, e) =
      (n + k, e ∙ ap (drop k) same ∙ drop-drop k n (items st.buffer))

  -- What a round of the loop needs of the buffer.
  record Ready (st : State S) : Type 0 where
    encodable : All (CanEncode j) (items st.buffer)
    accounts : Accounts st.buffer st.buffer.queue

  total-length : (m : Manager) → Accounts m m.queue → m.total_points ≡ length (items m)
  total-length m a = a.points ∙ sym (length-map m.queue (λ e. e.item))

  flush_loop-Passed :
      (fuel : ℕ) (st : State S)
      → 0 < cfg.flush_batch_size
      → length (items st.buffer) < fuel
      → Ready st
      → Passed st (flush_loop be j now cfg fuel st)
  unfolding flush_loop
  flush_loop-Passed zero st b f h = absurd (omega arith)
  flush_loop-Passed (suc fuel) st b f h =
      let n = cfg.flush_batch_size in
      let r = flush_one_batch be j now cfg st in
      let kept = flush_one_batch-Accounts be j now cfg st h.encodable h.accounts in
      elim (Took-cases st r (flush_one_batch-items be j now cfg st h.encodable)) [
        | inl (e, some_batch, left) ↦
            let rest =
              flush_loop-Passed fuel r.1 b
                (omega (arith, ap length left, length-drop_lt n (items st.buffer) b some_batch))
                (record {
                  encodable =
                      subst (All (CanEncode j)) (sym left)
                        (All-drop (CanEncode j) n (items st.buffer) h.encodable);
                  accounts = kept;
                }) in
            elim (Bool-cases (r.1.buffer.total_points == 0 || ltb r.1.buffer.total_points n)) [
              | inl few ↦ rw (e, flush_loop, few) (ground arith, (n, left))
              | inr many ↦ rw (e, flush_loop, many) (Passed-later st r.1 _ n left rest)
            ]
        | inr (inl (e, nothing, same)) ↦
            rw (e, flush_loop)
              (
                omega (
                  arith,
                  total-length r.1.buffer kept,
                  ap length (same ∙ take-nil n (items st.buffer) b nothing),
                ),
                (0, same),
              )
        | inr (inr (x, e, same)) ↦ rw (e, flush_loop) (0, same)
      ]

  -- `flushPass`, by the timer or by a trigger, with a positive batch size, records that have JSON
  -- texts and true counters, returns within one more round than there are records: nil with less
  -- than a batch in the buffer, or an error; what is left is the newest records, in order.
  pub flush_pass-Passed :
      (fuel : ℕ) (timer_mode : Bool) (st : State S)
      → 0 < cfg.flush_batch_size
      → length (items st.buffer) < fuel
      → All (CanEncode j) (items st.buffer)
      → Accounts st.buffer st.buffer.queue
      → Passed st (flush_pass be j now cfg fuel timer_mode st)
  unfolding flush_pass
  flush_pass-Passed fuel timer_mode st b f h a =
      let loop = flush_loop-Passed fuel st b f (record { encodable = h; accounts = a }) in
      elim (Bool-cases (st.buffer.total_points == 0)) [
        | inl e ↦ rw (e, flush_pass) (ground arith, (0, refl))
        | inr e ↦
            elim (Bool-cases (not timer_mode && ltb st.buffer.total_points cfg.flush_batch_size)) [
              | inl f ↦ rw (e, f) (ground arith, (0, refl))
              | inr f ↦ rw (e, f) loop
            ]
      ]
