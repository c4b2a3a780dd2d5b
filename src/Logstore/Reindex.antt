-- ===== src/Logstore/Reindex.antt =====
-- internal/logstore: writeBlock and ScanIndex together: the index is made again from the files.
use bitacora.Base.{
  ℕ, ◌≡◌, ◌≢◌, refl, sym, ap, ◌∙◌, Bool, true, false, Option, none, some, List, [], ◌∷◌, ◌++◌,
  arith, inl, inr, Bool-cases,
}
use bitacora.Base.Text.{Text, codes, contains_byte}
use bitacora.Base.Map.{lookup, insert, insert-absent, delete-absent, lookup-append}
use bitacora.Base.Eq.{list_Eq, nat_Eq, list_beq_iff, ◌≟◌}
use bitacora.Base.Files.{Files, Stage, creating, writing, syncing, closing, renaming, Faults}
use bitacora.Base.Paths.{child, has_suffix, trim_suffix, trim_suffix-append, base_name-child}
use bitacora.Schema.Types.{LogLine}
use bitacora.Logstore.Block.{
  BlockMeta, Env, wrote, meta_of, meta_path, gather_block, write_meta, after_block,
  write_compressed, write_block, write_until, write_atomic, day_dir,
}
use bitacora.Logstore.Written.{
  Codecs, IsTemporary, finish_files, finish_wrote, path-IsBlock, path-not_meta, meta_path-IsSidecar,
  not_written, apart,
}
use bitacora.Logstore.Index.{id_of, walk, add_block, scan_index, walked}
use bitacora.Logstore.Scan.{IsNewBlock, no_files, scan_index-with_block}

differ : (s t : Text) → s ≢ t → (s ≟ t) ≡ false
differ s t h = elim (Bool-cases (s ≟ t)) [ inl e ↦ absurd (h ((list_beq_iff s t).0 e)) | inr e ↦ e ]

write_until-appends :
    (o : Option Stage) (f : Faults) (temp path bytes : Text) (fs : Files)
    → lookup temp fs ≡ none
    → lookup path fs ≡ none
    → (write_until o f temp path bytes fs).failure ≡ none
    → (write_until o f temp path bytes fs).files ≡ fs ++ ((path, bytes) ∷ [])
unfolding write_until
write_until-appends none f temp path bytes fs ht hp h =
    ap (insert path bytes) (delete-absent temp fs ht) ∙ insert-absent path bytes fs hp
write_until-appends (some creating) f temp path bytes fs ht hp h = cc
write_until-appends (some writing) f temp path bytes fs ht hp h = cc
write_until-appends (some syncing) f temp path bytes fs ht hp h = cc
write_until-appends (some closing) f temp path bytes fs ht hp h = cc
write_until-appends (some renaming) f temp path bytes fs ht hp h = cc

-- A file that was not there, written without a failure, stands behind the others.
write_atomic-appends :
    (f : Faults) (temp path bytes : Text) (fs : Files)
    → lookup temp fs ≡ none
    → lookup path fs ≡ none
    → (write_atomic f temp path bytes fs).failure ≡ none
    → (write_atomic f temp path bytes fs).files ≡ fs ++ ((path, bytes) ∷ [])
unfolding write_atomic
write_atomic-appends f = write_until-appends f.fails f

no_slash :
    (c : ℕ) (s t : Text)
    → contains_byte c s ≡ false
    → contains_byte c t ≡ false
    → contains_byte c (s ++ t) ≡ false
no_slash c [] t h k = k
no_slash c (x ∷ s) t h k = ground (arith, no_slash c s t)

id_of-child :
    (dir id suffix : Text)
    → contains_byte b'/' id ≡ false
    → contains_byte b'/' suffix ≡ false
    → id_of suffix (child dir (id ++ suffix)) ≡ id
id_of-child dir id suffix h k =
    ap (λ n. trim_suffix n suffix)
      (base_name-child dir (id ++ suffix) (no_slash b'/' id suffix h k))
    ∙ trim_suffix-append id suffix

-- What the names that writeBlock uses are: a ULID, which has no slash and no file has had, and two
-- temporary files' names that are not taken.
pub record IsFresh (env : Env) (fs : Files) : Type 0 where
  pub plain : contains_byte b'/' env.id ≡ false
  pub no_meta : lookup env.id (walk fs no_files).meta_files ≡ none
  pub no_payload : lookup env.id (walk fs no_files).payload_files ≡ none
  pub block_temp : IsTemporary env.block_temp
  pub meta_temp : IsTemporary env.meta_temp
  pub block_temp_new : lookup env.block_temp fs ≡ none
  pub meta_temp_new : lookup env.meta_temp fs ≡ none
  pub no_file : (dir suffix : Text) → lookup (child dir (env.id ++ suffix)) fs ≡ none

-- what a write that succeeds has made of the files
record IsAdded (c : Codecs) (fs : Files) (m : BlockMeta) (gs : Files) : Type 0 where
  payload : Text
  encoded : Text
  made : gs ≡ (fs ++ ((m.path, payload) ∷ [])) ++ ((meta_path m, encoded) ∷ [])
  parsed : c.unmarshal encoded ≡ some m

record IsEntered (c : Codecs) (fs : Files) (id : Text) (m : BlockMeta) (gs : Files) : Type 0 where
  new : IsNewBlock fs id m.path (meta_path m)
  added : IsAdded c fs m gs

moved :
    {c : Codecs} {fs : Files} {id : Text} {m meta : BlockMeta} {gs : Files}
    → m ≡ meta
    → IsEntered c fs id m gs
    → IsEntered c fs id meta gs
moved e p = rw e at p

module _ (c : Codecs) (env : Env) (fs : Files) (fresh : IsFresh env fs) where
  write_meta-IsAdded :
      (m meta : BlockMeta) (payload : Text) (enc : Option Text)
      → m.block_id ≡ env.id
      → has_suffix m.path (codes ".zst") ≡ true
      → has_suffix m.path (codes ".meta.json") ≡ false
      → c.marshal m ≡ enc
      → (write_meta c.compress c.marshal env m enc (fs ++ ((m.path, payload) ∷ []))).0 ≡ wrote meta
      → (m ≡ meta)
        × IsAdded c fs m
            (write_meta c.compress c.marshal env m enc (fs ++ ((m.path, payload) ∷ []))).1
  unfolding write_meta meta_path
  write_meta-IsAdded m meta payload none hi hb hn he h = cc
  write_meta-IsAdded m meta payload (some enc) hi hb hn he h =
      let gs : Files = fs ++ ((m.path, payload) ∷ []) in
      let r = write_atomic env.meta_faults env.meta_temp (meta_path m) enc gs in
      let w = finish_wrote m meta r.failure r.files h in
      let temp_new : lookup env.meta_temp gs ≡ none =
        lookup-append env.meta_temp m.path payload fs (
          differ m.path env.meta_temp
            (λ e. apart env.meta_temp m.path (codes ".zst") fresh.meta_temp.no_block hb (sym e)))
        ∙ fresh.meta_temp_new in
      let path_new : lookup (meta_path m) gs ≡ none =
        lookup-append (meta_path m) m.path payload fs (
          differ m.path (meta_path m)
            (apart m.path (meta_path m) (codes ".meta.json") hn (meta_path-IsSidecar m)))
        ∙ ap (λ i. lookup (child (day_dir m.host_id m.ts_min) (i ++ codes ".meta.json")) fs) hi
        ∙ fresh.no_file (day_dir m.host_id m.ts_min) (codes ".meta.json") in
      (
        w.1,
        record {
          payload = payload;
          encoded = enc;
          made =
              finish_files m r.failure r.files
              ∙ write_atomic-appends env.meta_faults env.meta_temp (meta_path m) enc gs temp_new
                  path_new w.0;
          parsed = c.parse m enc he;
        },
      )

  after_block-IsAdded :
      (m meta : BlockMeta) (payload : Text) (o : Option Stage) (gs : Files)
      → m.block_id ≡ env.id
      → has_suffix m.path (codes ".zst") ≡ true
      → has_suffix m.path (codes ".meta.json") ≡ false
      → (o ≡ none → gs ≡ fs ++ ((m.path, payload) ∷ []))
      → (after_block c.compress c.marshal env m o gs).0 ≡ wrote meta
      → (m ≡ meta) × IsAdded c fs m (after_block c.compress c.marshal env m o gs).1
  unfolding after_block
  after_block-IsAdded m meta payload none gs hi hb hn hg h =
      let e : gs ≡ fs ++ ((m.path, payload) ∷ []) = hg refl in
      rw e (write_meta-IsAdded m meta payload (c.marshal m) hi hb hn refl (rw e at h))
  after_block-IsAdded m meta payload (some s) gs hi hb hn hg h = cc

  module _ (host source : Text) (l : LogLine) (ls : List LogLine) (meta : BlockMeta) where
    new_block :
        (payload : Text)
        → IsNewBlock fs env.id
            (meta_of env host source l ls payload).path
            (meta_path (meta_of env host source l ls payload))
    unfolding meta_of meta_path
    new_block payload =
        let m = meta_of env host source l ls payload in
        let dir = day_dir host (gather_block l ls).ts_min in
        record {
          block_suffix = path-IsBlock env host source l ls payload;
          not_meta = path-not_meta env host source l ls payload;
          block_id = id_of-child dir env.id (codes ".zst") fresh.plain (ground arith);
          meta_suffix = meta_path-IsSidecar m;
          meta_id = id_of-child dir env.id (codes ".meta.json") fresh.plain (ground arith);
          no_meta = fresh.no_meta;
          no_payload = fresh.no_payload;
          no_sidecar = fresh.no_file dir (codes ".meta.json");
        }

    write_compressed-IsAdded :
        (o : Option Text)
        → (write_compressed c.compress c.marshal env host source l ls o fs).0 ≡ wrote meta
        → IsEntered c fs env.id meta
            (write_compressed c.compress c.marshal env host source l ls o fs).1
    unfolding write_compressed meta_of
    write_compressed-IsAdded none h = cc
    write_compressed-IsAdded (some payload) h =
        let m = meta_of env host source l ls payload in
        let dir = day_dir host (gather_block l ls).ts_min in
        let hb = path-IsBlock env host source l ls payload in
        let hn = path-not_meta env host source l ls payload in
        let r = write_atomic env.block_faults env.block_temp m.path payload fs in
        let a =
          after_block-IsAdded m meta payload r.failure r.files refl hb hn
            (write_atomic-appends env.block_faults env.block_temp m.path payload fs
              fresh.block_temp_new (fresh.no_file dir (codes ".zst")))
            h in
        moved a.0 (record { new = new_block payload; added = a.1 })

    -- The index made from the files after writeBlock returned metadata is the index made from the files
    -- before, with one entry more, the metadata returned, its sizes added to the totals, and the same
    -- orphans and corrupt sidecars. The ULID and the temporary names are new, sidecars can be read, and
    -- the codecs decode what they encode.
    pub scan_index-write_block :
        (readable : Text → Bool)
        → readable (meta_path meta) ≡ true
        → (write_block c.compress c.marshal env host source l ls fs).0 ≡ wrote meta
        → (scan_index c.unmarshal readable
            (walked (write_block c.compress c.marshal env host source l ls fs).1)).0
          ≡ add_block meta (scan_index c.unmarshal readable (walked fs)).0
    unfolding write_block meta_of
    scan_index-write_block readable hr h = elim (Bool-cases env.dir_made) [
      | inl e ↦
          let a = write_compressed-IsAdded (c.compress (gather_block l ls).raw) (rw e at h) in
          rw (e, a.added.made)
            (scan_index-with_block fs env.id meta.path (meta_path meta) a.added.payload
              a.added.encoded a.new c.unmarshal readable meta a.added.parsed hr)
      | inr e ↦ absurd (not_written (rw e at h))
    ]
