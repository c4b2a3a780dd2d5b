-- ===== src/Logstore/Tests.antt =====
-- Examples of internal/logstore: two lines under one key, their block and the index.
use bitacora.Base.{
  ℕ, ◌+◌, ◌^◌, ◌<◌, ◌≡◌, ◌≢◌, refl, sym, ap, Bool, true, false, ◌&&◌, Option, none, some, List, [],
  ◌∷◌, ◌++◌, arith, ◌==◌, if◌then◌else◌, inl, inr, Bool-cases, length,
}
use bitacora.Base.Int.{ℤ, pos, negsuc}
use bitacora.Base.Time.{Time}
use bitacora.Base.Text.{Text, codes}
use bitacora.Base.Map.{lookup}
use bitacora.Base.Eq.{list_Eq, nat_Eq, pair_Eq, list_beq_iff, ◌≟◌}
use bitacora.Base.Files.{Faults}
use bitacora.Base.Paths.{has_suffix, clean, date_of}
use bitacora.Schema.Types.{LogLine}
use bitacora.Logstore.Block.{
  BlockMeta, Env, wrote, failed, making_dir, write_atomic, write_block, meta_of, gather_block,
  gather, gather_line, day_dir,
}
use bitacora.Logstore.Store.{Store, State, flush, take_buffer, append, finished}
use bitacora.Logstore.Index.{scan_index, walk, walked, add_block}
use bitacora.Logstore.Conservation.{
  accepting, taking, run_sections, taken_of, buffered, run_sections-Conserves,
}
use bitacora.Logstore.Failure.{IsHeld, flush_forgets}
use bitacora.Logstore.Bounds.{IsBounded, append-IsBounded}
use bitacora.Logstore.Reindex.{IsFresh, scan_index-write_block}
use bitacora.Logstore.Delivery.{write_block-IsWritten}
use bitacora.Logstore.Written.{Codecs, IsTemporary, IsWritten}

abbrev pos_part_is : ℤ → ℕ → Bool
pos_part_is (pos n) m = n == m
pos_part_is (negsuc n) m = false

pos_part_is-eq : (z : ℤ) (m : ℕ) → pos_part_is z m ≡ true → z ≡ pos m
pos_part_is-eq (pos n) m h = ap pos (ground arith)
pos_part_is-eq (negsuc n) m h = cc

abbrev line : Time → Text → Text → LogLine
line t level message = record {
  ts = t;
  host_id = codes "h1";
  source = codes "syslog";
  stream = [];
  unit_or_container = [];
  level = level;
  pid = pos 7;
  message = message;
}

abbrev first_line : LogLine
first_line = line 200 (codes "INFO") (codes "up")

abbrev second_line : LogLine
second_line = line 100 (codes "error") (codes "down")

abbrev no_faults : Faults
no_faults = record { fails = none; partial = 0; removes = true }

abbrev env : Env
env = record {
  id = codes "01A";
  block_temp = codes "h1/.tmp-1";
  meta_temp = codes "h1/.tmp-2";
  dir_made = true;
  block_faults = no_faults;
  meta_faults = no_faults;
}

abbrev meta : BlockMeta
meta = record {
  block_id = codes "01A";
  host_id = codes "h1";
  source = codes "syslog";
  ts_min = 100;
  ts_max = 200;
  unit = [];
  n_lines = pos 2;
  levels_bitmap = 18;
  path = codes "h1/0001/01/01/01A.zst";
  size_raw = pos 8;
  size_compressed = pos 8;
}

-- a JSON encoder that knows one value
is_meta : BlockMeta → Bool
is_meta m =
    (m.block_id ≟ meta.block_id)
    && (m.host_id ≟ meta.host_id)
    && (m.source ≟ meta.source)
    && (m.ts_min == 100)
    && (m.ts_max == 200)
    && (m.unit ≟ [])
    && pos_part_is m.n_lines 2
    && (m.levels_bitmap == 18)
    && (m.path ≟ meta.path)
    && pos_part_is m.size_raw 8
    && pos_part_is m.size_compressed 8

is_meta-eq : (m : BlockMeta) → is_meta m ≡ true → m ≡ meta
unfolding is_meta
is_meta-eq m h =
    let e1 = (list_beq_iff m.block_id meta.block_id).0 (ground arith) in
    let e2 = (list_beq_iff m.host_id meta.host_id).0 (ground arith) in
    let e3 = (list_beq_iff m.source meta.source).0 (ground arith) in
    let e4 : m.ts_min ≡ 100 = ground arith in
    let e5 : m.ts_max ≡ 200 = ground arith in
    let e6 = (list_beq_iff m.unit []).0 (ground arith) in
    let e7 : m.n_lines ≡ pos 2 = pos_part_is-eq m.n_lines 2 (ground arith) in
    let e8 : m.levels_bitmap ≡ 18 = ground arith in
    let e9 = (list_beq_iff m.path meta.path).0 (ground arith) in
    let e10 : m.size_raw ≡ pos 8 = pos_part_is-eq m.size_raw 8 (ground arith) in
    let e11 : m.size_compressed ≡ pos 8 = pos_part_is-eq m.size_compressed 8 (ground arith) in
    rw (e1, e2, e3, e4, e5, e6, e7, e8, e9, e10, e11) refl

parse_meta : Text → Option BlockMeta
parse_meta _ = some meta

print_meta : BlockMeta → Option Text
unfolding is_meta
print_meta m = if is_meta m then some (codes "{}") else none

parse-print : (m : BlockMeta) (e : Text) → print_meta m ≡ some e → parse_meta e ≡ some m
unfolding print_meta parse_meta
parse-print m e h = elim (Bool-cases (is_meta m)) [
  | inl t ↦ ap some (sym (is_meta-eq m t))
  | inr t ↦ cc
]

abbrev codecs : Codecs
codecs = record {
  compress = some;
  decompress = some;
  marshal = print_meta;
  unmarshal = parse_meta;
  codec = λ raw c h. sym h;
  parse = parse-print;
}

block_temp_allowed : IsTemporary (codes "h1/.tmp-1")
unfolding has_suffix
block_temp_allowed = record { no_block = refl; no_meta = refl }

meta_temp_allowed : IsTemporary (codes "h1/.tmp-2")
unfolding has_suffix
meta_temp_allowed = record { no_block = refl; no_meta = refl }

block_is_written :
    (write_block codecs.compress codecs.marshal env
      (codes "h1")
      (codes "syslog")
      first_line
      (second_line ∷ [])
      []).0
    ≡ wrote meta
unfolding write_block print_meta clean date_of write_atomic meta_of gather_block gather gather_line
    day_dir
block_is_written = refl

write_block-IsWritten_example :
    IsWritten codecs
      (codes "h1")
      (codes "syslog")
      (first_line ∷ second_line ∷ [])
      meta
      (write_block codecs.compress codecs.marshal env
        (codes "h1")
        (codes "syslog")
        first_line
        (second_line ∷ [])
        []).1
write_block-IsWritten_example =
    write_block-IsWritten codecs env block_temp_allowed meta_temp_allowed (codes "h1")
      (codes "syslog") first_line (second_line ∷ []) [] meta block_is_written

abbrev store_of : List LogLine → Store
store_of lines = record {
  max_bytes = pos 16;
  max_age = pos 60;
  buffers =
      ((codes "h1", codes "syslog"), record { lines = lines; raw_bytes = pos 3; first_at = 200 })
      ∷ [];
}

run_sections-Conserves_example :
    let xs =
      accepting 1 1 second_line
      ∷ taking (codes "h1", codes "syslog")
      ∷ accepting 2 2 first_line
      ∷ [] in
    let r = run_sections xs (store_of (first_line ∷ [])) in
    taken_of (codes "h1", codes "syslog") r.0 ++ buffered (codes "h1", codes "syslog") r.1
    ≡ first_line ∷ second_line ∷ first_line ∷ []
run_sections-Conserves_example =
    run_sections-Conserves (codes "h1", codes "syslog")
      (accepting 1 1 second_line
        ∷ taking (codes "h1", codes "syslog")
        ∷ accepting 2 2 first_line
        ∷ [])
      (store_of (first_line ∷ []))

-- an environment whose directory is not made
abbrev full_disk : Env
full_disk = record env { dir_made = false }

abbrev before_flush : State
before_flush = record { store = store_of (first_line ∷ []); files = [] }

line-IsHeld : IsHeld (codes "h1", codes "syslog") first_line [] before_flush.store
line-IsHeld = record {
  buffer = record { lines = first_line ∷ []; raw_bytes = pos 3; first_at = 200 };
  there = refl;
  holds = refl;
}

full_disk_fails :
    (flush codecs.compress codecs.marshal full_disk (codes "h1", codes "syslog") before_flush).0
    ≡ finished (failed making_dir)
unfolding flush take_buffer write_block
full_disk_fails = refl

flush_forgets_example :
    let after =
      (flush codecs.compress codecs.marshal full_disk
        (codes "h1", codes "syslog")
        before_flush).1 in
    (lookup (codes "h1", codes "syslog") after.store.buffers ≡ none)
    × ((j : Text) → j ≢ codes "h1/.tmp-1" → lookup j after.files ≡ none)
flush_forgets_example =
    flush_forgets codecs.compress codecs.marshal full_disk (codes "h1", codes "syslog") before_flush
      first_line [] making_dir block_temp_allowed line-IsHeld refl full_disk_fails

empty-IsBounded : IsBounded 16 (record { max_bytes = pos 16; max_age = pos 60; buffers = [] })
empty-IsBounded = record { limit = refl; small = λ k b h. cc }

abbrev empty_state : State
empty_state = record {
  store = record { max_bytes = pos 16; max_age = pos 60; buffers = [] };
  files = [];
}

small_room : 16 + length (codes "up") + 1 < 2 ^ 63
small_room = omega arith

append-IsBounded_example :
    IsBounded 16 (append codecs.compress codecs.marshal env 200 200 first_line empty_state).1.store
append-IsBounded_example =
    append-IsBounded 16 codecs.compress codecs.marshal env 200 200 first_line empty_state
      empty-IsBounded small_room

env-IsFresh : IsFresh env []
unfolding walk
env-IsFresh = record {
  plain = refl;
  no_meta = refl;
  no_payload = refl;
  block_temp = block_temp_allowed;
  meta_temp = meta_temp_allowed;
  block_temp_new = refl;
  meta_temp_new = refl;
  no_file = λ _ _. refl;
}

scan_index-write_block_example :
    (scan_index codecs.unmarshal
      (λ _. true)
      (walked
        (write_block codecs.compress codecs.marshal env
          (codes "h1")
          (codes "syslog")
          first_line
          (second_line ∷ [])
          []).1)).0
    ≡ add_block meta (scan_index codecs.unmarshal (λ _. true) (walked [])).0
scan_index-write_block_example =
    scan_index-write_block codecs env [] env-IsFresh (codes "h1") (codes "syslog") first_line
      (second_line ∷ []) meta (λ _. true) refl block_is_written
