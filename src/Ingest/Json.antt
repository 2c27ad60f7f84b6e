-- ===== src/Ingest/Json.antt =====
-- `encoding/json` on the program's records, as a parameter: `none` where it returns an error.
-- `Lawful` is what its documentation states of the texts that `Marshal` writes: a struct is an
-- object in braces, no control character such as a newline stands in the text, and `Unmarshal`
-- reads the value back.
use plexplore.Prelude.{ℕ, ◌≡◌, ◌≢◌, Option, some, [], ◌∷◌, ◌++◌, All}
use plexplore.GoTime.{Time}
use plexplore.Ingest.Models.{SpoolRecord, Bytes}

-- internal/spool/checkpoint.go: the progress of the durable commits.
pub record Checkpoint : Type 0 where
  pub last_committed_seq : ℕ
  pub updated_at_utc : Time

pub record Json : Type 0 where
  pub marshal : SpoolRecord → Option Bytes
  pub unmarshal : Bytes → Option SpoolRecord
  pub marshal_checkpoint : Checkpoint → Option Bytes
  pub unmarshal_checkpoint : Bytes → Option Checkpoint

abbrev pub newline : ℕ
newline = 10

abbrev pub IsObject : Bytes → Type 0
IsObject text = ((mid : Bytes) × (text ≡ b'{' ∷ mid ++ b'}' ∷ [])) × All (λ c. c ≢ newline) text

pub record Lawful (j : Json) : Type 0 where
  pub record_object : (r : SpoolRecord) (text : Bytes) → j.marshal r ≡ some text → IsObject text
  pub record_back :
      (r : SpoolRecord) (text : Bytes) → j.marshal r ≡ some text → j.unmarshal text ≡ some r
  pub checkpoint_object :
      (c : Checkpoint) (text : Bytes) → j.marshal_checkpoint c ≡ some text → IsObject text
  pub checkpoint_back :
      (c : Checkpoint) (text : Bytes)
      → j.marshal_checkpoint c ≡ some text
      → j.unmarshal_checkpoint text ≡ some c
