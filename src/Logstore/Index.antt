-- ===== src/Logstore/Index.antt =====
-- internal/logstore/index.go: ScanIndex, the index made again from the files.
-- The maps of the scan keep the order the walk meets the files in; the results of a Go map's loop have
-- no order of their own. The JSON decoder is `unmarshal`, and `readable` says which files can be read.
use bitacora.Base.{Bool, true, false, Option, none, some, List, [], ◌∷◌, ◌++◌, if◌then◌else◌}
use bitacora.Base.Int.{ℤ, pos, ◌+ℤ◌}
use bitacora.Base.Time.{wrap}
use bitacora.Base.Text.{Text, codes}
use bitacora.Base.Map.{lookup, insert, has}
use bitacora.Base.Eq.{list_Eq, nat_Eq}
use bitacora.Base.Paths.{has_suffix, trim_suffix, base_name}
use bitacora.Base.Files.{Files}
use bitacora.Logstore.Block.{BlockMeta}

-- why a sidecar is no entry of the index
pub data Reason : Type 0 where
  unread unparsed : Reason

pub record VerifyResult : Type 0 where
  pub blocks : List BlockMeta
  pub total_raw_bytes : ℤ
  pub total_comp_bytes : ℤ
  pub orphan_payloads : List Text
  pub orphan_meta : List Text
  pub corrupt : List (Text × Reason)

abbrev pub empty_result : VerifyResult
empty_result = record {
  blocks = [];
  total_raw_bytes = pos 0;
  total_comp_bytes = pos 0;
  orphan_payloads = [];
  orphan_meta = [];
  corrupt = [];
}

-- metaFiles and payloadFiles: paths by block id
pub record Found : Type 0 where
  pub meta_files : List (Text × Text)
  pub payload_files : List (Text × Text)

abbrev pub id_of : Text → Text → Text
id_of suffix path = trim_suffix (base_name path) suffix

-- the function of the walk, on a file
unfoldable pub visit : Text → Found → Found
visit path f =
    if has_suffix path (codes ".meta.json")
    then record f { meta_files = insert (id_of (codes ".meta.json") path) path f.meta_files }
    else if has_suffix path (codes ".zst")
    then record f { payload_files = insert (id_of (codes ".zst") path) path f.payload_files }
    else f

unfoldable pub walk : Files → Found → Found
walk [] f = f
walk ((path, _) ∷ fs) f = walk fs (visit path f)

-- what the walk of the base directory comes to
pub data Walk : Type 0 where
  walked : Files → Walk
  missing failing : Walk

-- the second loop: payloads without a sidecar
abbrev pub orphans : List (Text × Text) → List (Text × Text) → List Text
orphans metas [] = []
orphans metas ((id, path) ∷ ps) =
    let rest = orphans metas ps in if has id metas then rest else path ∷ rest

abbrev pub add_block : BlockMeta → VerifyResult → VerifyResult
add_block meta r = record r {
  blocks = r.blocks ++ (meta ∷ []);
  total_raw_bytes = wrap (r.total_raw_bytes +ℤ meta.size_raw);
  total_comp_bytes = wrap (r.total_comp_bytes +ℤ meta.size_compressed);
}

-- json.Unmarshal's result
abbrev pub enter_parsed : Text → Option BlockMeta → VerifyResult → VerifyResult
enter_parsed path none r = record r { corrupt = insert path unparsed r.corrupt }
enter_parsed path (some meta) r = add_block meta r

module _ (unmarshal : Text → Option BlockMeta) (readable : Text → Bool) where
  abbrev pub parse_into : Text → Option Text → VerifyResult → VerifyResult
  parse_into path none r = record r { corrupt = insert path unread r.corrupt }
  parse_into path (some raw) r = enter_parsed path (unmarshal raw) r

  -- os.ReadFile
  abbrev pub read_file : Files → Text → Option Text
  read_file fs path = if readable path then lookup path fs else none

  -- the body of the first loop
  unfoldable pub enter : Files → List (Text × Text) → Text × Text → VerifyResult → VerifyResult
  enter fs payloads (id, path) r =
      if has id payloads
      then parse_into path (read_file fs path) r
      else record r { orphan_meta = r.orphan_meta ++ (path ∷ []) }

  unfoldable pub enter_all :
      Files → List (Text × Text) → List (Text × Text) → VerifyResult → VerifyResult
  enter_all fs payloads [] r = r
  enter_all fs payloads (m ∷ ms) r = enter_all fs payloads ms (enter fs payloads m r)

  unfoldable pub scan_found : Files → Found → VerifyResult
  unfolding enter_all
  scan_found fs f =
      let r = enter_all fs f.payload_files f.meta_files empty_result in
      record r { orphan_payloads = orphans f.meta_files f.payload_files }

  -- the result and whether the error is nil
  unfoldable pub scan_index : Walk → VerifyResult × Bool
  unfolding scan_found walk
  scan_index missing = (empty_result, true)
  scan_index failing = (empty_result, false)
  scan_index (walked fs) =
      (scan_found fs (walk fs (record { meta_files = []; payload_files = [] })), true)
