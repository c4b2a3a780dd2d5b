-- ===== src/Spool/Entries.antt =====
-- internal/spool/spool.go: an entry's age, WriteAtomic and ReadDir.
-- Files are named within the directory. encoding/json is `encode` and `decode`; an entry's data and the
-- errors it lists are opaque to the spool, `D`.
use bitacora.Base.{Bool, true, false, Option, none, some, List, [], ◌∷◌, ◌++◌, take, if◌then◌else◌}
use bitacora.Base.Int.{ℤ, pos, leb_ℤ, ltb_ℤ}
use bitacora.Base.Time.{Time, Duration, sub, mul_duration}
use bitacora.Base.Text.{Text, codes}
use bitacora.Base.Map.{insert, delete}
use bitacora.Base.Eq.{list_Eq, nat_Eq}
use bitacora.Base.Paths.{has_suffix}
use bitacora.Base.Files.{Files, Stage, creating, writing, Faults, Replaced, discard}

pub record Entry (D : Type 0) : Type 0 where
  pub collector : Text
  pub ts : Time
  pub schema : ℤ
  pub content : D

pub age : {D : Type 0} → Time → Entry D → Duration
age now e = sub now e.ts

pub stale : {D : Type 0} → Time → Duration → Entry D → Bool
unfolding age
stale now interval e =
    if leb_ℤ interval (pos 0) then false else ltb_ℤ (mul_duration (pos 3) interval) (age now e)

-- WriteAtomic from the temporary file on, by the call that fails first: every failure after the file is
-- made removes it
unfoldable pub write_until : Option Stage → Faults → Text → Text → Text → Files → Replaced
write_until none f temp dest encoded fs =
    let renamed = insert dest encoded (delete temp fs) in
    record {
      failure = none;
      files = renamed;
      seen =
          renamed
          ∷ insert temp encoded fs
          ∷ insert temp (take f.partial encoded) fs
          ∷ insert temp [] fs
          ∷ fs
          ∷ [];
    }
write_until (some creating) f temp dest encoded fs = record {
  failure = some creating;
  files = fs;
  seen = fs ∷ [];
}
write_until (some writing) f temp dest encoded fs =
    let cut = insert temp (take f.partial encoded) fs in
    let left = discard f temp cut in
    record { failure = some writing; files = left; seen = left ∷ cut ∷ insert temp [] fs ∷ fs ∷ [] }
write_until (some stage) f temp dest encoded fs =
    let written = insert temp encoded fs in
    let left = discard f temp written in
    record {
      failure = some stage;
      files = left;
      seen = left ∷ written ∷ insert temp (take f.partial encoded) fs ∷ insert temp [] fs ∷ fs ∷ [];
    }

pub data WriteError : Type 0 where
  not_encoded no_dir : WriteError
  at_stage : Stage → WriteError

abbrev pub write_result : Option Stage → Option WriteError
write_result none = none
write_result (some s) = some (at_stage s)

module _ {D : Type 0} (encode : Entry D → Option Text) where
  abbrev pub write_encoded :
      Bool → Faults → Text → Text → Option Text → Files → Option WriteError × Replaced
  write_encoded made f temp collector none fs =
      (some not_encoded, record { failure = none; files = fs; seen = fs ∷ [] })
  write_encoded false f temp collector (some encoded) fs =
      (some no_dir, record { failure = none; files = fs; seen = fs ∷ [] })
  write_encoded true f temp collector (some encoded) fs =
      let r = write_until f.fails f temp (collector ++ codes ".json") encoded fs in
      (write_result r.failure, r)

  -- WriteAtomic; `made` is whether the directory could be made
  unfoldable pub write_atomic :
      Bool → Faults → Text → Entry D → Files → Option WriteError × Replaced
  unfolding write_until
  write_atomic made f temp e fs = write_encoded made f temp e.collector (encode e) fs

module _ {D : Type 0} (decode : Text → Option (Entry D)) where
  -- a file that decodes replaces the entry of its collector
  abbrev pub add_decoded : Option (Entry D) → List (Text × Entry D) → List (Text × Entry D)
  add_decoded none es = es
  add_decoded (some e) es = insert e.collector e es

  -- `readable` says which files os.ReadFile can read
  unfoldable pub read_files : (Text → Bool) → Files → List (Text × Entry D) → List (Text × Entry D)
  read_files readable [] es = es
  read_files readable ((name, raw) ∷ fs) es = read_files readable fs (
      if has_suffix name (codes ".json")
      then (if readable name then add_decoded (decode raw) es else es)
      else es)

  -- ReadDir of a directory that is there
  unfoldable pub read_dir : (Text → Bool) → Files → List (Text × Entry D)
  unfolding read_files
  read_dir readable fs = read_files readable fs []
