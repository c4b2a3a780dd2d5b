-- ===== src/Logstore/Delivery.antt =====
-- internal/logstore/logstore.go: what a block that is written holds, and what a failure leaves.
use bitacora.Base.{
  ◌≡◌, refl, sym, ap, ◌∙◌, true, false, Option, none, some, List, ◌∷◌, inl, inr, Bool-cases, length,
}
use bitacora.Base.Int.{pos}
use bitacora.Base.Text.{Text, codes}
use bitacora.Base.Map.{lookup}
use bitacora.Base.Eq.{list_Eq, nat_Eq}
use bitacora.Base.Files.{Files, Stage}
use bitacora.Base.Paths.{has_suffix}
use bitacora.Schema.Types.{LogLine}
use bitacora.Logstore.Block.{
  BlockMeta, Env, wrote, meta_of, meta_path, gather_block, finish_meta, write_meta, after_block,
  write_compressed, write_block, write_atomic, day_dir,
}
use bitacora.Logstore.Atomic.{write_atomic-IsAtomic}
use bitacora.Logstore.Gathering.{raw-gather_block, gather_block-Within}
use bitacora.Logstore.Written.{
  Codecs, IsTemporary, IsWritten, apart, meta_path-IsSidecar, path-IsBlock, path-not_meta,
  not_written, finish_files, finish_wrote,
}

module _ (c : Codecs) where
  -- both files of a block
  record IsStored (payload : Text) (m : BlockMeta) (fs : Files) : Type 0 where
    payload_there : lookup m.path fs ≡ some payload
    sidecar : Text
    sidecar_there : lookup (meta_path m) fs ≡ some sidecar
    sidecar_meta : c.unmarshal sidecar ≡ some m

  module _ (env : Env) (ht : IsTemporary env.block_temp) (hm : IsTemporary env.meta_temp) where
    write_meta-IsStored :
        (m meta : BlockMeta) (payload : Text) (enc : Option Text) (fs : Files)
        → has_suffix m.path (codes ".zst") ≡ true
        → has_suffix m.path (codes ".meta.json") ≡ false
        → c.marshal m ≡ enc
        → lookup m.path fs ≡ some payload
        → (write_meta c.compress c.marshal env m enc fs).0 ≡ wrote meta
        → (m ≡ meta) × IsStored payload m (write_meta c.compress c.marshal env m enc fs).1
    unfolding write_meta
    write_meta-IsStored m meta payload none fs hb hn he hl h = cc
    write_meta-IsStored m meta payload (some enc) fs hb hn he hl h =
        let r = write_atomic env.meta_faults env.meta_temp (meta_path m) enc fs in
        let w = finish_wrote m meta r.failure r.files h in
        let sidecar = meta_path-IsSidecar m in
        let a =
          write_atomic-IsAtomic env.meta_faults env.meta_temp (meta_path m) enc fs
            (apart env.meta_temp (meta_path m) (codes ".meta.json") hm.no_meta sidecar) in
        let same : (finish_meta m r.failure r.files).1 ≡ r.files =
          finish_files m r.failure r.files in
        (
          w.1,
          record {
            payload_there =
                ap (lookup m.path) same
                ∙ a.others m.path
                    (λ e. apart env.meta_temp m.path (codes ".zst") hm.no_block hb (sym e))
                    (apart m.path (meta_path m) (codes ".meta.json") hn sidecar)
                ∙ hl;
            sidecar = enc;
            sidecar_there = ap (lookup (meta_path m)) same ∙ a.done w.0;
            sidecar_meta = c.parse m enc he;
          },
        )

    after_block-IsStored :
        (m meta : BlockMeta) (payload : Text) (o : Option Stage) (fs : Files)
        → has_suffix m.path (codes ".zst") ≡ true
        → has_suffix m.path (codes ".meta.json") ≡ false
        → (o ≡ none → lookup m.path fs ≡ some payload)
        → (after_block c.compress c.marshal env m o fs).0 ≡ wrote meta
        → (m ≡ meta) × IsStored payload m (after_block c.compress c.marshal env m o fs).1
    unfolding after_block
    after_block-IsStored m meta payload none fs hb hn hl h =
        write_meta-IsStored m meta payload (c.marshal m) fs hb hn refl (hl refl) h
    after_block-IsStored m meta payload (some s) fs hb hn hl h = cc

    module _ (host source : Text) (l : LogLine) (ls : List LogLine) (fs : Files)
        (meta : BlockMeta) where
      stored-IsWritten :
          (payload : Text) (gs : Files)
          → c.compress (gather_block l ls).raw ≡ some payload
          → (meta_of env host source l ls payload ≡ meta)
            × IsStored payload (meta_of env host source l ls payload) gs
          → IsWritten c host source (l ∷ ls) meta gs
      unfolding meta_of
      stored-IsWritten payload gs hc (e, s) =
          let raw = raw-gather_block l ls in
          let w : IsWritten c host source (l ∷ ls) (meta_of env host source l ls payload) gs =
            record {
              payload = payload;
              payload_there = s.payload_there;
              payload_lines = c.codec (gather_block l ls).raw payload hc ∙ ap some raw;
              sidecar = s.sidecar;
              sidecar_there = s.sidecar_there;
              sidecar_meta = s.sidecar_meta;
              keyed = (refl, refl);
              counted = refl;
              sized = ap (λ t. pos (length t)) raw;
              timed = gather_block-Within l ls;
            } in
          rw e at w

      write_compressed-IsWritten :
          (comp : Option Text)
          → c.compress (gather_block l ls).raw ≡ comp
          → (write_compressed c.compress c.marshal env host source l ls comp fs).0 ≡ wrote meta
          → IsWritten c host source
              (l ∷ ls)
              meta
              (write_compressed c.compress c.marshal env host source l ls comp fs).1
      unfolding write_compressed
      write_compressed-IsWritten none hc h = cc
      write_compressed-IsWritten (some payload) hc h =
          let m = meta_of env host source l ls payload in
          let dir = day_dir host (gather_block l ls).ts_min in
          let hb : has_suffix m.path (codes ".zst") ≡ true =
            path-IsBlock env host source l ls payload in
          let hn : has_suffix m.path (codes ".meta.json") ≡ false =
            path-not_meta env host source l ls payload in
          let r = write_atomic env.block_faults env.block_temp m.path payload fs in
          let a =
            write_atomic-IsAtomic env.block_faults env.block_temp m.path payload fs
              (apart env.block_temp m.path (codes ".zst") ht.no_block hb) in
          stored-IsWritten payload _ hc
            (after_block-IsStored m meta payload r.failure r.files hb hn a.done h)

      -- When writeBlock returns metadata without an error, the block's file decodes to the messages of
      -- the lines given, in order, a newline after each, and nothing else; its sidecar decodes to the
      -- metadata returned, and that names the key, counts lines and bytes, and encloses every line's
      -- time. The temporary files' names do not end in a
      -- block's or a sidecar's suffix, and the codecs decode what they encode.
      pub write_block-IsWritten :
          (write_block c.compress c.marshal env host source l ls fs).0 ≡ wrote meta
          → IsWritten c host source
              (l ∷ ls)
              meta
              (write_block c.compress c.marshal env host source l ls fs).1
      unfolding write_block meta_of
      write_block-IsWritten h = elim (Bool-cases env.dir_made) [
        | inl e ↦
            rw e (write_compressed-IsWritten (c.compress (gather_block l ls).raw) refl (rw e at h))
        | inr e ↦ absurd (not_written (rw e at h))
      ]
