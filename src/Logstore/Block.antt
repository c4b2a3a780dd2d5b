-- ===== src/Logstore/Block.antt =====
-- internal/logstore/logstore.go: a block and its sidecar, as they are written.
-- Paths are relative to the store's base directory. zstd and the JSON encoder are `compress` and `marshal`.
use bitacora.Base.{
  ℕ, ◌+◌, ◌/◌, ◌%◌, Bool, ◌&&◌, Option, none, some, List, [], ◌∷◌, ◌++◌, length, take, leb, ◌==◌,
  if◌then◌else◌,
}
use bitacora.Base.Int.{ℤ, pos}
use bitacora.Base.Time.{Time, before, after}
use bitacora.Base.Text.{Text, codes}
use bitacora.Base.Map.{lookup, insert, delete}
use bitacora.Base.Eq.{list_Eq, nat_Eq}
use bitacora.Base.Paths.{child, clean, two_digits, four_digits, date_of}
use bitacora.Base.Files.{Files, Stage, creating, writing, renaming, Faults, Replaced, discard}
use bitacora.Schema.Types.{LogLine}

pub record BlockMeta : Type 0 where
  pub block_id : Text
  pub host_id : Text
  pub source : Text
  pub ts_min : Time
  pub ts_max : Time
  pub unit : Text
  pub n_lines : ℤ
  pub levels_bitmap : ℕ
  pub path : Text
  pub size_raw : ℤ
  pub size_compressed : ℤ

-- strings.ToLower, as far as a comparison with the level names tells: the capitals A to Z, and the
-- dotted I (U+0130), the only other letter whose lower case is a letter of these names
abbrev pub lower_byte : ℕ → ℕ
lower_byte c = if leb b'A' c && leb c b'Z' then c + 32 else c

abbrev pub to_lower : Text → Text
to_lower [] = []
to_lower (c ∷ []) = lower_byte c ∷ []
to_lower (c ∷ d ∷ s) =
    let whole = to_lower (d ∷ s) in
    let after_two = to_lower s in
    if c == 0xc4 && d == 0xb0 then b'i' ∷ after_two else lower_byte c ∷ whole

abbrev pub level_bit : List (Text × ℕ)
level_bit =
    (codes "debug", 1)
    ∷ (codes "info", 2)
    ∷ (codes "notice", 4)
    ∷ (codes "warn", 8)
    ∷ (codes "warning", 8)
    ∷ (codes "error", 16)
    ∷ (codes "critical", 32)
    ∷ []

-- `bitmap | bit` for a power of two
abbrev pub or_bit : ℕ → ℕ → ℕ
or_bit bitmap bit = if bitmap / bit % 2 == 1 then bitmap else bitmap + bit

-- what the loop over the lines gathers
pub record Gathered : Type 0 where
  pub raw : Text
  pub ts_min : Time
  pub ts_max : Time
  pub bitmap : ℕ

abbrev pub with_level : Text → ℕ → ℕ
with_level level bitmap = elim (lookup (to_lower level) level_bit) [
  | none ↦ bitmap
  | some bit ↦ or_bit bitmap bit
]

abbrev pub line_bytes : LogLine → Text
line_bytes l = l.message ++ (10 ∷ [])

unfoldable pub gather_line : LogLine → Gathered → Gathered
gather_line l g = record {
  raw = g.raw ++ line_bytes l;
  ts_min = if before l.ts g.ts_min then l.ts else g.ts_min;
  ts_max = if after l.ts g.ts_max then l.ts else g.ts_max;
  bitmap = with_level l.level g.bitmap;
}

unfoldable pub gather : List LogLine → Gathered → Gathered
gather [] g = g
gather (l ∷ ls) g = gather ls (gather_line l g)

-- what Join makes of its first element before it cleans the path: an empty one is left out
abbrev pub below : Text → Text → Text
below [] rest = rest
below (x ∷ host) rest = child (x ∷ host) rest

-- filepath.Join(hostID, year, month, day)
unfoldable pub day_dir : Text → Time → Text
day_dir host t =
    let d = date_of t in
    clean (below host (child (four_digits d.year) (child (two_digits d.month) (two_digits d.day))))

-- the replacement, by the call that fails first
unfoldable pub write_until : Option Stage → Faults → Text → Text → Text → Files → Replaced
write_until none f temp path bytes fs =
    let renamed = insert path bytes (delete temp fs) in
    record {
      failure = none;
      files = renamed;
      seen =
          renamed
          ∷ insert temp bytes fs
          ∷ insert temp (take f.partial bytes) fs
          ∷ insert temp [] fs
          ∷ fs
          ∷ [];
    }
write_until (some creating) f temp path bytes fs = record {
  failure = some creating;
  files = fs;
  seen = fs ∷ [];
}
write_until (some writing) f temp path bytes fs =
    let cut = insert temp (take f.partial bytes) fs in
    let left = discard f temp cut in
    record { failure = some writing; files = left; seen = left ∷ cut ∷ insert temp [] fs ∷ fs ∷ [] }
write_until (some renaming) f temp path bytes fs =
    let written = insert temp bytes fs in
    record {
      failure = some renaming;
      files = written;
      seen = written ∷ insert temp (take f.partial bytes) fs ∷ insert temp [] fs ∷ fs ∷ [];
    }
write_until (some stage) f temp path bytes fs =
    let written = insert temp bytes fs in
    let left = discard f temp written in
    record {
      failure = some stage;
      files = left;
      seen = left ∷ written ∷ insert temp (take f.partial bytes) fs ∷ insert temp [] fs ∷ fs ∷ [];
    }

-- writeAtomic: all of a Sync's and a Close's failures leave the same
unfoldable pub write_atomic : Faults → Text → Text → Text → Files → Replaced
unfolding write_until
write_atomic f temp path bytes fs = write_until f.fails f temp path bytes fs

-- why a block is not written
pub data BlockError : Type 0 where
  making_dir compressing marshaling : BlockError
  writing_block writing_meta : Stage → BlockError

pub data Result : Type 0 where
  wrote : BlockMeta → Result
  failed : BlockError → Result

-- what the calls of one writeBlock meet: the new ULID, the names of the temporary files, the failures
pub record Env : Type 0 where
  pub id : Text
  pub block_temp : Text
  pub meta_temp : Text
  pub dir_made : Bool
  pub block_faults : Faults
  pub meta_faults : Faults

-- the lines are `l` and `ls`: a buffer that is written is not empty
unfoldable pub gather_block : LogLine → List LogLine → Gathered
gather_block l ls = gather (l ∷ ls) (record { raw = []; ts_min = l.ts; ts_max = l.ts; bitmap = 0 })

-- `meta`, with what the payload is compressed to
unfoldable pub meta_of : Env → Text → Text → LogLine → List LogLine → Text → BlockMeta
meta_of env host source l ls compressed =
    let g = gather_block l ls in
    record {
      block_id = env.id;
      host_id = host;
      source = source;
      ts_min = g.ts_min;
      ts_max = g.ts_max;
      unit = l.unit_or_container;
      n_lines = pos (length (l ∷ ls));
      levels_bitmap = g.bitmap;
      path = child (day_dir host g.ts_min) (env.id ++ codes ".zst");
      size_raw = pos (length g.raw);
      size_compressed = pos (length compressed);
    }

unfoldable pub meta_path : BlockMeta → Text
meta_path meta = child (day_dir meta.host_id meta.ts_min) (meta.block_id ++ codes ".meta.json")

unfoldable pub finish_meta : BlockMeta → Option Stage → Files → Result × Files
finish_meta meta none fs = (wrote meta, fs)
finish_meta meta (some stage) fs = (failed (writing_meta stage), fs)

module _ (compress : Text → Option Text) (marshal : BlockMeta → Option Text) where
  unfoldable pub write_meta : Env → BlockMeta → Option Text → Files → Result × Files
  write_meta env meta none fs = (failed marshaling, fs)
  write_meta env meta (some encoded) fs =
      let r = write_atomic env.meta_faults env.meta_temp (meta_path meta) encoded fs in
      finish_meta meta r.failure r.files

  unfoldable pub after_block : Env → BlockMeta → Option Stage → Files → Result × Files
  after_block env meta none fs = write_meta env meta (marshal meta) fs
  after_block env meta (some stage) fs = (failed (writing_block stage), fs)

  unfoldable pub write_compressed :
      Env → Text → Text → LogLine → List LogLine → Option Text → Files → Result × Files
  write_compressed env host source l ls none fs = (failed compressing, fs)
  write_compressed env host source l ls (some compressed) fs =
      let meta = meta_of env host source l ls compressed in
      let r = write_atomic env.block_faults env.block_temp meta.path compressed fs in
      after_block env meta r.failure r.files

  unfoldable pub write_block : Env → Text → Text → LogLine → List LogLine → Files → Result × Files
  unfolding write_compressed after_block write_meta finish_meta
  write_block env host source l ls fs =
      if env.dir_made
      then write_compressed env host source l ls (compress (gather_block l ls).raw) fs
      else (failed making_dir, fs)
