-- ===== src/Points/Pages.antt =====
-- Pages by cursor put together give the whole list.
use plexplore.Prelude.{
  ◌<◌, ◌≡◌, refl, sym, ap, subst, ◌∙◌, ◌⊎◌, inl, inr, true, false, List, [], ◌∷◌, ◌++◌, ◌&&◌, keep,
  All, All-map, All-append_right, All-keep, keep-append, keep-none, keep-whole, keep_both,
  keep_same, arith,
}
use plexplore.Prelude.Sorting.{All-sort_by, sort_by, keep-sort_by}
use plexplore.GoTime.{Time}
use plexplore.Ingest.Models.{Bytes}
use plexplore.Store.{RawPoint}
use plexplore.VisitStore.{bytes_le, row_le}
use plexplore.Points.{ExportPointFilter, is_wanted, after_cursor, selected}

bytes_le-total : (a b : Bytes) → (bytes_le a b ≡ true) ⊎ (bytes_le b a ≡ true)
unfolding bytes_le
bytes_le-total [] b = inl refl
bytes_le-total (x ∷ xs) [] = inr refl
bytes_le-total (x ∷ xs) (y ∷ ys) = ground (arith, bytes_le-total xs ys)

bytes_le_trans : (a b c : Bytes) → bytes_le a b ≡ true → bytes_le b c ≡ true → bytes_le a c ≡ true
unfolding bytes_le
bytes_le_trans [] b c h k = refl
bytes_le_trans (x ∷ xs) [] c h k = absurd (ground arith)
bytes_le_trans (x ∷ xs) (y ∷ ys) [] h k = absurd (ground arith)
bytes_le_trans (x ∷ xs) (y ∷ ys) (z ∷ zs) h k = ground (arith, bytes_le_trans xs ys zs)

-- The sequence numbers rise along the rows.
abbrev pub Rising : List RawPoint → Type 0
Rising [] = Unit
Rising (r ∷ rs) = All (λ q. r.seq < q.seq) rs × Rising rs

below :
    (pre : List RawPoint) (r : RawPoint) (post : List RawPoint)
    → Rising (pre ++ r ∷ post)
    → All (λ q. q.seq < r.seq) pre
below [] r post h = tt
below (q ∷ pre) r post h =
    ((All-append_right (λ x. q.seq < x.seq) pre (r ∷ post) h.0).0, below pre r post h.1)

above :
    (pre : List RawPoint) (r : RawPoint) (post : List RawPoint)
    → Rising (pre ++ r ∷ post)
    → All (λ q. r.seq < q.seq) post
above [] r post h = h.0
above (q ∷ pre) r post h = above pre r post h.1

past_cursor :
    (pre : List RawPoint) (r : RawPoint) (post : List RawPoint)
    → 0 < r.seq
    → Rising (pre ++ r ∷ post)
    → keep (after_cursor r.seq) (pre ++ r ∷ post) ≡ post
unfolding after_cursor
past_cursor pre r post positive h =
    let self : after_cursor r.seq r ≡ false = ground arith in
    keep-append (after_cursor r.seq) pre (r ∷ post)
    ∙ ap (λ xs. xs ++ keep (after_cursor r.seq) (r ∷ post))
        (keep-none (after_cursor r.seq) pre
          (All-map _ (λ q (k : q.seq < r.seq). ground arith) pre (below pre r post h)))
    ∙ rw (self, after_cursor)
        (keep-whole (after_cursor r.seq) post
          (All-map _ (λ q (k : r.seq < q.seq). ground arith) post (above pre r post h)))

module _ (text : Time → Bytes) where
  pub row_le-total : (r q : RawPoint) → (row_le text r q ≡ true) ⊎ (row_le text q r ≡ true)
  unfolding row_le
  row_le-total r q = ground (arith, bytes_le-total (text r.timestamp_utc) (text q.timestamp_utc))

  pub row_le_trans :
      (r q t : RawPoint) → row_le text r q ≡ true → row_le text q t ≡ true → row_le text r t ≡ true
  unfolding row_le
  row_le_trans r q t h k =
      let a = text r.timestamp_utc in
      let b = text q.timestamp_utc in
      let c = text t.timestamp_utc in
      ground (arith, bytes_le_trans a b c, bytes_le_trans c a b, bytes_le_trans b c a)

  selected-after :
      (f : ExportPointFilter) (rows : List RawPoint)
      → All (λ r. after_cursor f.after_seq r ≡ true) (selected text f rows)
  unfolding selected
  selected-after f rows =
      let test = λ (r : RawPoint). is_wanted text f r && after_cursor f.after_seq r in
      All-sort_by (row_le text) (λ r. after_cursor f.after_seq r ≡ true) (keep test rows)
        (All-keep (λ r. after_cursor f.after_seq r ≡ true) test rows λ r e. ground arith)

  both_cursors :
      (f : ExportPointFilter) (r q : RawPoint)
      → after_cursor f.after_seq r ≡ true
      → 0 < r.seq
      → ((is_wanted text f q && after_cursor f.after_seq q) && after_cursor r.seq q)
        ≡ (is_wanted text f q && after_cursor r.seq q)
  unfolding after_cursor
  both_cursors f r q h positive = ground arith

  -- The rows past a row of the list, by its sequence number as the cursor, are those that stand
  -- behind it, if the sequence numbers rise along the list.
  pub selected-next :
      (f : ExportPointFilter) (rows pre : List RawPoint) (r : RawPoint) (post : List RawPoint)
      → selected text f rows ≡ pre ++ r ∷ post
      → Rising (selected text f rows)
      → 0 < r.seq
      → selected text (record f { after_seq = r.seq }) rows ≡ post
  unfolding selected is_wanted
  selected-next f rows pre r post split rising positive =
      let test = λ (q : RawPoint). is_wanted text f q && after_cursor f.after_seq q in
      let after_r =
        (All-append_right (λ q. after_cursor f.after_seq q ≡ true) pre (r ∷ post)
          (subst (All (λ q. after_cursor f.after_seq q ≡ true)) split (selected-after f rows))).0 in
      ap (sort_by (row_le text)) (
        sym (
          keep_both (after_cursor r.seq) test rows
          ∙ keep_same _ _ rows (λ q. both_cursors f r q after_r positive)))
      ∙ sym (
          keep-sort_by (row_le text) row_le-total row_le_trans (after_cursor r.seq)
            (keep test rows))
      ∙ ap (keep (after_cursor r.seq)) split
      ∙ past_cursor pre r post positive (subst Rising split rising)
