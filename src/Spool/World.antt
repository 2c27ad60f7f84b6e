-- ===== src/Spool/World.antt =====
-- internal/spool/manager.go: the state of `FileSpoolManager`, the spool directory, and the calls of
-- `os` that the spool makes. A method is an action: it returns a value or an error, and the new
-- world. The directory holds the segment files; the checkpoint, whose name is no segment's, is a
-- file of its own. A directory that does not exist reads as an empty one, as in the source.
--
-- Each call of `os` takes the next entry of `faults`: `none` lets it work, `some k` makes it fail,
-- a write after its first `k` bytes. When the list is used up every call works.
use plexplore.Prelude.{
  ℕ, ◌+◌, ◌*◌, Bool, true, false, Option, none, some, List, [], ◌∷◌, ◌++◌, map, Outcome, ok, err,
  length, take, ◌==◌, ◌&&◌, ◌↔◌, ◌≡◌, arith, if◌then◌else◌, leb, Eq, refl,
}
use plexplore.Prelude.Dict
use plexplore.Prelude.Dict.{Dict}
use plexplore.Prelude.Int.{ℤ, pos, leb_ℤ, pos_part}
use plexplore.GoTime.{Time, Duration, second}
use plexplore.Ingest.Models.{Bytes}
use plexplore.Text.{codes, trim_space}
use plexplore.Spool.Codec.{SpoolError, io_failed, not_exist}

abbrev pub bytes_beq : Bytes → Bytes → Bool
bytes_beq [] [] = true
bytes_beq [] (b ∷ bs) = false
bytes_beq (a ∷ as') [] = false
bytes_beq (a ∷ as') (b ∷ bs) = let rest = bytes_beq as' bs in if a == b then rest else false

pub bytes_beq_iff : (a b : Bytes) → (bytes_beq a b ≡ true) ↔ (a ≡ b)
bytes_beq_iff [] [] = ((λ _. refl), (λ _. refl))
bytes_beq_iff [] (b ∷ bs) = ((λ h. cc), (λ h. absurd (cc)))
bytes_beq_iff (a ∷ as') [] = ((λ h. cc), (λ h. absurd (cc)))
bytes_beq_iff (a ∷ as') (b ∷ bs) = ground (arith, bytes_beq_iff as' bs)

instance abbrev pub bytes_eq : Eq Bytes
bytes_eq = record { beq = bytes_beq; beq_iff = bytes_beq_iff }

pub data FsyncMode : Type 0 where
  always balanced low_wear : FsyncMode

mode_of : Bytes → Option FsyncMode
mode_of t =
    if bytes_beq t (codes "always")
    then some always
    else if bytes_beq t (codes "balanced")
    then some balanced
    else if bytes_beq t (codes "low-wear")
    then some low_wear
    else none

abbrev pub lower : ℕ → ℕ
lower c = if leb b'A' c && leb c b'Z' then c + 32 else c

-- `normalizeFSyncMode`, with `none` for the empty text
unfoldable pub normalize_fsync_mode : Bytes → Option FsyncMode
unfolding mode_of
normalize_fsync_mode mode = mode_of (map lower (trim_space mode))

pub record ManagerOptions : Type 0 where
  pub fsync_mode : Bytes
  pub fsync_interval : Duration
  pub fsync_byte_threshold : ℤ

-- `FileSpoolManager`. `fsync_mode` is `none` for a text that names no mode; `active_file` is the
-- name of the open segment; a `segment_max_bytes` of 0 stands for any that is not positive.
pub record FileSpoolManager : Type 0 where
  pub segment_max_bytes : ℕ
  pub fsync_mode : Option FsyncMode
  pub fsync_interval : Duration
  pub fsync_threshold : ℕ
  pub next_seq : ℕ
  pub active_segment_start : ℕ
  pub active_segment_size : ℕ
  pub active_file : Option Bytes
  pub bytes_since_sync : ℕ
  pub last_sync_at : Time

or_balanced : Option FsyncMode → FsyncMode
or_balanced none = balanced
or_balanced (some mode) = mode

-- `NewFileSpoolManagerWithOptions`
unfoldable pub new_file_spool_manager : ℤ → ManagerOptions → FileSpoolManager
unfolding or_balanced
new_file_spool_manager segment_max_bytes options = record {
  segment_max_bytes = pos_part segment_max_bytes;
  fsync_mode = some (or_balanced (normalize_fsync_mode options.fsync_mode));
  fsync_interval =
      if leb_ℤ options.fsync_interval (pos 0) then pos (2 * second) else options.fsync_interval;
  fsync_threshold =
      if leb_ℤ options.fsync_byte_threshold (pos 0)
      then 64 * 1024
      else pos_part options.fsync_byte_threshold;
  next_seq = 1;
  active_segment_start = 0;
  active_segment_size = 0;
  active_file = none;
  bytes_since_sync = 0;
  last_sync_at = 0;
}

pub data Node : Type 0 where
  directory : Node
  file : Bytes → Node

pub record World : Type 0 where
  pub manager : FileSpoolManager
  pub disk : Dict Bytes Node
  pub checkpoint_file : Option Bytes
  pub faults : List (Option ℕ)

-- An action of the spool.
abbrev pub Io {ℓ} : Type ℓ → Type ℓ
Io A = World → Outcome SpoolError A × World

module _ {ℓ} {A : Type ℓ} where
  abbrev pub pure : A → Io A
  pure a w = (ok a, w)

  abbrev pub raise : SpoolError → Io A
  raise e w = (err e, w)

  abbrev pub lift : Outcome SpoolError A → Io A
  lift r w = (r, w)

  abbrev pub gets : (World → A) → Io A
  gets f w = (ok (f w), w)

abbrev pub continue {ℓ κ} :
    {A : Type ℓ} {B : Type κ}
    → Outcome SpoolError A
    → (A → World → Outcome SpoolError B × World)
    → World
    → Outcome SpoolError B × World
continue (ok a) f w = f a w
continue (err e) f w = (err e, w)

infixl 5 ◌>>=◌ ◌>>◌
abbrev pub ◌>>=◌ {ℓ κ} : {A : Type ℓ} {B : Type κ} → Io A → (A → Io B) → Io B
◌>>=◌ m f w = let (r, w') = m w in continue r f w'

abbrev pub ◌>>◌ {ℓ κ} : {A : Type ℓ} {B : Type κ} → Io A → Io B → Io B
m >> k = m >>= λ _. k

-- A change of the manager's fields.
abbrev pub modify : (FileSpoolManager → FileSpoolManager) → Io (Unit {0})
modify f w = (ok tt, record w { manager = f w.manager })

next_fault : List (Option ℕ) → Option ℕ
next_fault [] = none
next_fault (f ∷ fs) = f

later_faults : List (Option ℕ) → List (Option ℕ)
later_faults [] = []
later_faults (f ∷ fs) = fs

-- The fault of the next call of `os`.
unfoldable pub take_fault : Io (Option ℕ)
unfolding next_fault later_faults
take_fault w = (ok (next_fault w.faults), record w { faults = later_faults w.faults })

fail_on : Option ℕ → Io (Unit {0})
fail_on none = pure tt
fail_on (some k) = raise io_failed

-- A call with no effect on the files: `MkdirAll`, `Stat`, `Sync`, `Close`.
unfoldable pub os_call : Io (Unit {0})
unfolding take_fault fail_on
os_call = do f ← take_fault; fail_on f

open_node : Bytes → Option Node → Io ℕ
open_node name none w = (ok 0, record w { disk = Dict.insert name (file []) w.disk })
open_node name (some directory) w = (err io_failed, w)
open_node name (some (file contents)) w = (ok (length contents), w)

-- `OpenFile` with O_CREATE and O_APPEND, and the size of the file
unfoldable pub open_append : Bytes → Io ℕ
unfolding open_node os_call
open_append name = do os_call; (λ w. open_node name (Dict.lookup name w.disk) w)

append_node : Bytes → Bytes → Option Node → Io (Unit {0})
append_node name part (some (file contents)) w =
    (ok tt, record w { disk = Dict.insert name (file (contents ++ part)) w.disk })
append_node name part _ w = (ok tt, w)

after_write : Bytes → Bytes → Option ℕ → Io (Unit {0})
unfolding append_node
after_write name line none w = append_node name line (Dict.lookup name w.disk) w
after_write name line (some k) w =
    (err io_failed, (append_node name (take k line) (Dict.lookup name w.disk) w).1)

-- `Write` to the file that is open under a name
unfoldable pub write_append : Bytes → Bytes → Io (Unit {0})
unfolding take_fault after_write
write_append name line = do f ← take_fault; after_write name line f

read_node : Option Node → Outcome SpoolError Bytes
read_node none = err not_exist
read_node (some directory) = err io_failed
read_node (some (file contents)) = ok contents

-- `Open` and the reads of a segment file
unfoldable pub read_file : Bytes → Io Bytes
unfolding os_call read_node
read_file name = do os_call; (λ w. (read_node (Dict.lookup name w.disk), w))

-- `ReadDir`: the entries that are no directories
unfoldable pub file_names : Dict Bytes Node → List Bytes
file_names [] = []
file_names ((name, directory) ∷ d) = file_names d
file_names ((name, file contents) ∷ d) = name ∷ file_names d

unfoldable pub read_dir : Io (List Bytes)
unfolding os_call file_names
read_dir = do os_call; gets (λ w. file_names w.disk)

remove_node : Bytes → Option Node → Io (Unit {0})
remove_node name none w = (err not_exist, w)
remove_node name (some n) w = (ok tt, record w { disk = Dict.erase name w.disk })

-- `Remove`
unfoldable pub remove_file : Bytes → Io (Unit {0})
unfolding os_call remove_node
remove_file name = do os_call; (λ w. remove_node name (Dict.lookup name w.disk) w)
