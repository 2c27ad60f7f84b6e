-- ===== src/Spool/Quiet.antt =====
-- Actions that neither write the checkpoint file nor meet a fault where none is to come.
use plexplore.Prelude.{
  ℕ, ◌+◌, ◌≡◌, refl, ◌∙◌, inl, inr, Bool, true, false, List, [], ◌∷◌, Outcome-cases, Option-cases,
  ltb, if◌then◌else◌,
}
use plexplore.Prelude.Dict
use plexplore.Ingest.Models.{Bytes}
use plexplore.Ingest.Json.{Json}
use plexplore.Spool.Segment.{segment_file_name}
use plexplore.Spool.World.{
  World, Io, pure, gets, ◌>>=◌, os_call, read_file, read_dir, remove_file, take_fault, bytes_eq,
}
use plexplore.Spool.Replay.{read_checkpoint, list_segment_starts, read_segment_file}
use plexplore.Spool.Compaction.{
  is_active, compact_one, try_remove, compact_loop, compact_committed_segments, max_seq_of,
}

-- The world afterwards.
pub record Same (w w' : World) : Type 0 where
  pub faults : w'.faults ≡ []
  pub checkpoint : w'.checkpoint_file ≡ w.checkpoint_file

unfoldable pub Quiet {ℓ} : {A : Type ℓ} → Io A → Type 0
Quiet a = (w : World) → w.faults ≡ [] → Same w (a w).1

Quiet-bind {ℓ κ} :
    {A : Type ℓ} {B : Type κ} (a : Io A) (f : A → Io B)
    → Quiet a
    → ((x : A) → Quiet (f x))
    → Quiet (a >>= f)
unfolding Quiet
Quiet-bind a f qa qf w calm =
    let first = qa w calm in
    elim (Outcome-cases (a w).0) [
      | inl (x, e) ↦
          let next = qf x (a w).1 first.faults in
          rw e (record { faults = next.faults; checkpoint = next.checkpoint ∙ first.checkpoint })
      | inr (x, e) ↦ rw e first
    ]

Quiet-pure {ℓ} : {A : Type ℓ} (a : A) → Quiet (pure a)
unfolding Quiet
Quiet-pure a w calm = record { faults = calm; checkpoint = refl }

Quiet-if {ℓ} : {A : Type ℓ} (b : Bool) (x y : Io A) → Quiet x → Quiet y → Quiet (if b then x else y)
Quiet-if true x y qx qy = qx
Quiet-if false x y qx qy = qy

read_file-Quiet : (name : Bytes) → Quiet (read_file name)
unfolding Quiet read_file os_call take_fault
read_file-Quiet name w calm = rw calm (record { faults = refl; checkpoint = refl })

read_dir-Quiet : Quiet read_dir
unfolding Quiet read_dir os_call take_fault
read_dir-Quiet w calm = rw calm (record { faults = refl; checkpoint = refl })

read_checkpoint-Quiet : (j : Json) → Quiet (read_checkpoint j)
unfolding Quiet read_checkpoint os_call take_fault
read_checkpoint-Quiet j w calm = rw calm (record { faults = refl; checkpoint = refl })

pub list_segment_starts-Quiet : Quiet list_segment_starts
unfolding Quiet list_segment_starts
list_segment_starts-Quiet =
    Quiet-bind read_dir _ read_dir-Quiet λ names w calm. record { faults = calm; checkpoint = refl }

read_segment_file-Quiet : (j : Json) (name : Bytes) → Quiet (read_segment_file j name)
unfolding Quiet read_segment_file
read_segment_file-Quiet j name =
    Quiet-bind (read_file name) _ (read_file-Quiet name)
      λ contents w calm. record { faults = calm; checkpoint = refl }

remove_file-Quiet : (name : Bytes) → Quiet (remove_file name)
unfolding Quiet remove_file os_call take_fault
remove_file-Quiet name w calm = elim (Option-cases (Dict.lookup name w.disk)) [
  | inl e ↦ rw (calm, e) (record { faults = refl; checkpoint = refl })
  | inr (n, e) ↦ rw (calm, e) (record { faults = refl; checkpoint = refl })
]

try_remove-Quiet : (name : Bytes) → Quiet (try_remove name)
unfolding Quiet try_remove
try_remove-Quiet name w calm = remove_file-Quiet name w calm

gets-Quiet : {A : Type 0} (f : World → A) → Quiet (gets f)
unfolding Quiet
gets-Quiet f w calm = record { faults = calm; checkpoint = refl }

pub compact_one-Quiet : (j : Json) (committed start : ℕ) → Quiet (compact_one j committed start)
unfolding compact_one
compact_one-Quiet j committed start =
    Quiet-bind (gets λ w. is_active w.manager start) _ (gets-Quiet _) λ active.
      Quiet-if active _ _ (Quiet-pure false) (
        Quiet-if (ltb committed start) _ _ (Quiet-pure false) (
          Quiet-bind (read_segment_file j (segment_file_name start)) _
            (read_segment_file-Quiet j (segment_file_name start))
            λ records.
              Quiet-if (ltb committed (max_seq_of start records)) _ _ (Quiet-pure false)
                (try_remove-Quiet (segment_file_name start))))

compact_loop-Quiet :
    (j : Json) (committed deleted : ℕ) (starts : List ℕ)
    → Quiet (compact_loop j committed deleted starts)
unfolding compact_loop
compact_loop-Quiet j committed deleted [] = Quiet-pure deleted
compact_loop-Quiet j committed deleted (start ∷ starts) =
    Quiet-bind (compact_one j committed start) _ (compact_one-Quiet j committed start)
      λ done. compact_loop-Quiet j committed (if done then deleted + 1 else deleted) starts

compact_committed_segments-Quiet : (j : Json) → Quiet (compact_committed_segments j)
unfolding compact_committed_segments
compact_committed_segments-Quiet j =
    Quiet-bind (read_checkpoint j) _ (read_checkpoint-Quiet j) λ checkpoint.
      Quiet-bind list_segment_starts _ list_segment_starts-Quiet
        λ starts. compact_loop-Quiet j checkpoint.last_committed_seq 0 starts

-- Compaction, where no call of `os` fails, leaves the checkpoint file alone.
pub compact_committed_segments-Same :
    (j : Json) (w : World) → w.faults ≡ [] → Same w (compact_committed_segments j w).1
unfolding Quiet
compact_committed_segments-Same j w calm = compact_committed_segments-Quiet j w calm
