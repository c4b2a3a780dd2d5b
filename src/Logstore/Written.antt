-- ===== src/Logstore/Written.antt =====
-- internal/logstore/logstore.go: what a block that is written is, and the names of its two files.
use bitacora.Base.{
  ◌≡◌, ◌≢◌, refl, sym, ap, ◌∙◌, true, false, Option, none, some, List, ◌∷◌, ◌++◌, arith, All,
  length, append_assoc,
}
use bitacora.Base.Int.{pos}
use bitacora.Base.Text.{Text, codes}
use bitacora.Base.Map.{lookup}
use bitacora.Base.Eq.{list_Eq, nat_Eq}
use bitacora.Base.Files.{Files, Stage}
use bitacora.Base.Paths.{child, has_suffix, has_suffix-append, has_suffix-differ, last_byte}
use bitacora.Schema.Types.{LogLine}
use bitacora.Logstore.Block.{
  BlockMeta, Env, wrote, failed, BlockError, meta_of, meta_path, gather_block, finish_meta, day_dir,
}
use bitacora.Logstore.Gathering.{payload_of, Within}

-- `codec` and `parse` are what zstd and encoding/json promise: what is decoded is what was encoded.
pub record Codecs : Type 0 where
  pub compress : Text → Option Text
  pub decompress : Text → Option Text
  pub marshal : BlockMeta → Option Text
  pub unmarshal : Text → Option BlockMeta
  pub codec : (raw c : Text) → compress raw ≡ some c → decompress c ≡ some raw
  pub parse : (m : BlockMeta) (e : Text) → marshal m ≡ some e → unmarshal e ≡ some m

-- The temporary files' names end as os.CreateTemp makes them, in a random number.
pub record IsTemporary (temp : Text) : Type 0 where
  pub no_block : has_suffix temp (codes ".zst") ≡ false
  pub no_meta : has_suffix temp (codes ".meta.json") ≡ false

-- The block holds the lines, whole and in order, and its sidecar says so.
pub record IsWritten (c : Codecs) (host source : Text) (lines : List LogLine) (meta : BlockMeta)
    (fs : Files) : Type 0 where
  pub payload : Text
  pub payload_there : lookup meta.path fs ≡ some payload
  pub payload_lines : c.decompress payload ≡ some (payload_of lines)
  pub sidecar : Text
  pub sidecar_there : lookup (meta_path meta) fs ≡ some sidecar
  pub sidecar_meta : c.unmarshal sidecar ≡ some meta
  pub keyed : (meta.host_id ≡ host) × (meta.source ≡ source)
  pub counted : meta.n_lines ≡ pos (length lines)
  pub sized : meta.size_raw ≡ pos (length (payload_of lines))
  pub timed : All (Within meta.ts_min meta.ts_max) lines

pub block_path-IsBlock :
    (dir id : Text) → has_suffix (child dir (id ++ codes ".zst")) (codes ".zst") ≡ true
block_path-IsBlock dir id =
    ap (λ p. has_suffix p (codes ".zst")) (sym (append_assoc dir (b'/' ∷ id) (codes ".zst")))
    ∙ has_suffix-append (child dir id) (codes ".zst")

pub meta_path-IsMeta :
    (dir id : Text) → has_suffix (child dir (id ++ codes ".meta.json")) (codes ".meta.json") ≡ true
meta_path-IsMeta dir id =
    ap (λ p. has_suffix p (codes ".meta.json"))
      (sym (append_assoc dir (b'/' ∷ id) (codes ".meta.json")))
    ∙ has_suffix-append (child dir id) (codes ".meta.json")

pub block_path-not_meta :
    (dir id : Text) → has_suffix (child dir (id ++ codes ".zst")) (codes ".meta.json") ≡ false
unfolding last_byte
block_path-not_meta dir id =
    ap (λ p. has_suffix p (codes ".meta.json")) (sym (append_assoc dir (b'/' ∷ id) (codes ".zst")))
    ∙ has_suffix-differ (child dir id) (codes "zst") (codes "meta.json") b'.' b'.'
        (λ e. omega (arith, e))

pub apart : (s t p : Text) → has_suffix s p ≡ false → has_suffix t p ≡ true → s ≢ t
apart s t p h k e = cc (ap (λ x. has_suffix x p) e)

pub meta_path-IsSidecar : (m : BlockMeta) → has_suffix (meta_path m) (codes ".meta.json") ≡ true
unfolding meta_path
meta_path-IsSidecar m = meta_path-IsMeta (day_dir m.host_id m.ts_min) m.block_id

module _ (env : Env) (host source : Text) (l : LogLine) (ls : List LogLine) (payload : Text) where
  pub path-IsBlock : has_suffix (meta_of env host source l ls payload).path (codes ".zst") ≡ true
  unfolding meta_of
  path-IsBlock = block_path-IsBlock (day_dir host (gather_block l ls).ts_min) env.id

  pub path-not_meta :
      has_suffix (meta_of env host source l ls payload).path (codes ".meta.json") ≡ false
  unfolding meta_of
  path-not_meta = block_path-not_meta (day_dir host (gather_block l ls).ts_min) env.id

pub not_written : {e : BlockError} {m : BlockMeta} → failed e ≢ wrote m
not_written h = cc

-- a result that is a success came from a replacement without a failure
pub finish_files : (m : BlockMeta) (o : Option Stage) (fs : Files) → (finish_meta m o fs).1 ≡ fs
unfolding finish_meta
finish_files m none fs = refl
finish_files m (some s) fs = refl

pub finish_wrote :
    (m meta : BlockMeta) (o : Option Stage) (fs : Files)
    → (finish_meta m o fs).0 ≡ wrote meta
    → (o ≡ none) × (m ≡ meta)
unfolding finish_meta
finish_wrote m meta none fs h = (refl, cc)
finish_wrote m meta (some s) fs h = cc
