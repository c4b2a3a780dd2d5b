-- ===== src/Logstore/Failure.antt =====
-- internal/logstore/logstore.go: Flush where writeBlock fails, and the bounds Append keeps.
use bitacora.Base.{
  ◌≡◌, ◌≢◌, refl, ap, ◌∙◌, Bool, true, false, Option, none, some, List, ◌∷◌, inl, inr, Bool-cases,
}
use bitacora.Base.Text.{Text, codes}
use bitacora.Base.Map.{lookup, delete, lookup-delete}
use bitacora.Base.Eq.{list_Eq, nat_Eq, pair_Eq, beq_self}
use bitacora.Base.Files.{Files, Stage, IsAtomic, failed_untouched}
use bitacora.Schema.Types.{LogLine}
use bitacora.Logstore.Block.{
  BlockMeta, Env, Result, failed, BlockError, making_dir, compressing, marshaling, writing_block,
  writing_meta, meta_of, gather_block, finish_meta, write_meta, after_block, write_compressed,
  write_block, write_atomic,
}
use bitacora.Logstore.Atomic.{write_atomic-IsAtomic}
use bitacora.Logstore.Store.{
  BufferKey, Buffer, Store, State, finished, take_lines, take_found, take_buffer, flush,
}
use bitacora.Logstore.Written.{IsTemporary, path-IsBlock, apart}

-- the failures before the block's own file is there
abbrev pub before_block : BlockError → Bool
before_block making_dir = true
before_block compressing = true
before_block (writing_block _) = true
before_block marshaling = false
before_block (writing_meta _) = false

finish_late :
    (m : BlockMeta) (o : Option Stage) (fs : Files) (e : BlockError)
    → before_block e ≡ true
    → (finish_meta m o fs).0 ≢ failed e
unfolding finish_meta
finish_late m none fs e b h = cc
finish_late m (some s) fs making_dir b h = cc
finish_late m (some s) fs compressing b h = cc
finish_late m (some s) fs (writing_block _) b h = cc
finish_late m (some s) fs marshaling b h = cc
finish_late m (some s) fs (writing_meta _) b h = cc

module _ (compress : Text → Option Text) (marshal : BlockMeta → Option Text) (env : Env) where
  write_meta_late :
      (m : BlockMeta) (o : Option Text) (fs : Files) (e : BlockError)
      → before_block e ≡ true
      → (write_meta compress marshal env m o fs).0 ≢ failed e
  unfolding write_meta
  write_meta_late m none fs making_dir b h = cc
  write_meta_late m none fs compressing b h = cc
  write_meta_late m none fs (writing_block _) b h = cc
  write_meta_late m none fs marshaling b h = cc
  write_meta_late m none fs (writing_meta _) b h = cc
  write_meta_late m (some enc) fs e b h = finish_late m _ _ e b h

  module _ (e : BlockError) (b : before_block e ≡ true) where
    after_block_early :
        (m : BlockMeta) (o : Option Stage) (fs : Files)
        → (after_block compress marshal env m o fs).0 ≡ failed e
        → (s : Stage) × (o ≡ some s) × ((after_block compress marshal env m o fs).1 ≡ fs)
    unfolding after_block
    after_block_early m none fs h = absurd (write_meta_late m (marshal m) fs e b h)
    after_block_early m (some s) fs h = (s, refl, refl)

    module _ (ht : IsTemporary env.block_temp) (host source : Text) (l : LogLine)
        (ls : List LogLine) (fs : Files) (j : Text) (n : j ≢ env.block_temp) where
      write_compressed_kept :
          (o : Option Text)
          → (write_compressed compress marshal env host source l ls o fs).0 ≡ failed e
          → lookup j (write_compressed compress marshal env host source l ls o fs).1 ≡ lookup j fs
      unfolding write_compressed
      write_compressed_kept none h = refl
      write_compressed_kept (some payload) h =
          let m = meta_of env host source l ls payload in
          let r = write_atomic env.block_faults env.block_temp m.path payload fs in
          let a : IsAtomic fs env.block_temp m.path payload r =
            write_atomic-IsAtomic env.block_faults env.block_temp m.path payload fs (
              apart env.block_temp m.path (codes ".zst") ht.no_block
                (path-IsBlock env host source l ls payload)) in
          let t = after_block_early m r.failure r.files h in
          ap (lookup j) t.2 ∙ failed_untouched a t.0 t.1 j n

      write_block_kept :
          (write_block compress marshal env host source l ls fs).0 ≡ failed e
          → lookup j (write_block compress marshal env host source l ls fs).1 ≡ lookup j fs
      unfolding write_block meta_of
      write_block_kept h = elim (Bool-cases env.dir_made) [
        | inl d ↦ rw d (write_compressed_kept (compress (gather_block l ls).raw) (rw d at h))
        | inr d ↦ rw d
      ]

-- the lines of a buffer that is not empty
pub record IsHeld (k : BufferKey) (l : LogLine) (ls : List LogLine) (s : Store) : Type 0 where
  pub buffer : Buffer
  pub there : lookup k s.buffers ≡ some buffer
  pub holds : buffer.lines ≡ l ∷ ls

pub take_buffer-IsHeld :
    (k : BufferKey) (l : LogLine) (ls : List LogLine) (s : Store)
    → IsHeld k l ls s
    → take_buffer k s ≡ (some (l, ls), record s { buffers = delete k s.buffers })
unfolding take_buffer
take_buffer-IsHeld k l ls s h =
    ap (λ o. take_found k o s) h.there ∙ ap (λ b. take_lines k b s) h.holds

finished_failed : (r : Result) (e : BlockError) → finished r ≡ finished (failed e) → r ≡ failed e
finished_failed r e h = cc

-- When a flush of buffered lines fails before the block's file is there, the buffer is gone all the
-- same, and no file but the temporary one, whose name does not end like a block's, has changed: the
-- lines are nowhere.
pub flush_forgets :
    (compress : Text → Option Text) (marshal : BlockMeta → Option Text) (env : Env) (k : BufferKey)
    (st : State) (l : LogLine) (ls : List LogLine) (e : BlockError)
    → IsTemporary env.block_temp
    → IsHeld k l ls st.store
    → before_block e ≡ true
    → (flush compress marshal env k st).0 ≡ finished (failed e)
    → (lookup k (flush compress marshal env k st).1.store.buffers ≡ none)
      × ((j : Text)
          → j ≢ env.block_temp
          → lookup j (flush compress marshal env k st).1.files ≡ lookup j st.files)
unfolding flush
flush_forgets compress marshal env (host, source) st l ls e ht held b h =
    let k : BufferKey = (host, source) in
    let t = take_buffer-IsHeld k l ls st.store held in
    let gone : lookup k (delete k st.store.buffers) ≡ none =
      lookup-delete k k st.store.buffers ∙ rw (beq_self k) in
    let h' = rw t at h in
    rw t (
      gone,
      λ j n.
          write_block_kept compress marshal env e b ht host source l ls st.files j n
            (finished_failed _ e h'),
    )
