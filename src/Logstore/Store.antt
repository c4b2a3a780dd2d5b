-- ===== src/Logstore/Store.antt =====
-- internal/logstore/logstore.go: the buffers of a Store, and Append, Flush and FlushAll.
-- `append_locked` and `take_buffer` are the sections under the mutex, which other goroutines' sections
-- may come between. The readings of the clock are arguments.
use bitacora.Base.{
  ◌+◌, ◌*◌, Bool, not, ◌||◌, Option, none, some, List, [], ◌∷◌, ◌++◌, map, length, if◌then◌else◌,
}
use bitacora.Base.Int.{ℤ, pos, ltb_ℤ, ◌+ℤ◌}
use bitacora.Base.Time.{Time, Duration, sub, wrap}
use bitacora.Base.Text.{Text}
use bitacora.Base.Map.{lookup, insert, delete}
use bitacora.Base.Eq.{list_Eq, nat_Eq, pair_Eq}
use bitacora.Base.Files.{Files}
use bitacora.Schema.Types.{LogLine}
use bitacora.Schema.Validation.{Field, validate_log_line}
use bitacora.Logstore.Block.{BlockMeta, BlockError, Result, wrote, failed, Env, write_block}

-- bufferKey: the host's id and the source
abbrev pub BufferKey : Type 0
BufferKey = Text × Text

pub record Buffer : Type 0 where
  pub lines : List LogLine
  pub raw_bytes : ℤ
  pub first_at : Time

pub record Store : Type 0 where
  pub max_bytes : ℤ
  pub max_age : Duration
  pub buffers : List (BufferKey × Buffer)

abbrev pub default_max_bytes : ℤ
default_max_bytes = pos (5 * 1024 * 1024)

abbrev pub default_max_age : Duration
default_max_age = pos (5 * 60 * 1000000000)

-- WithLimits
pub record Limits : Type 0 where
  pub max_bytes : ℤ
  pub max_age : Duration

pub new_store : Option Limits → Store
new_store none = record { max_bytes = default_max_bytes; max_age = default_max_age; buffers = [] }
new_store (some l) = record { max_bytes = l.max_bytes; max_age = l.max_age; buffers = [] }

abbrev pub key_of : LogLine → BufferKey
key_of l = (l.host_id, l.source)

-- the buffer that a line is added to, a new one if there is none
abbrev pub buffer_for : Time → Option Buffer → Buffer
buffer_for now none = record { lines = []; raw_bytes = pos 0; first_at = now }
buffer_for now (some b) = b

abbrev pub add_line : LogLine → Buffer → Buffer
add_line l b = record b {
  lines = b.lines ++ (l ∷ []);
  raw_bytes = wrap (b.raw_bytes +ℤ pos (length l.message + 1));
}

abbrev pub should_flush : Store → Time → Buffer → Bool
should_flush s now b =
    not (ltb_ℤ b.raw_bytes s.max_bytes) || not (ltb_ℤ (sub now b.first_at) s.max_age)

-- the buffer of the line's key with the line; `opened` is the clock when a new buffer is made
abbrev pub grown : Time → LogLine → Store → Buffer
grown opened l s = add_line l (buffer_for opened (lookup (key_of l) s.buffers))

-- Append under the mutex; `now` is the clock when the age is looked at
unfoldable pub append_locked : Time → Time → LogLine → Store → Bool × Store
append_locked opened now l s =
    let b = grown opened l s in
    (should_flush s now b, record s { buffers = insert (key_of l) b s.buffers })

-- Flush under the mutex
abbrev pub take_lines : BufferKey → List LogLine → Store → Option (LogLine × List LogLine) × Store
take_lines k [] s = (none, s)
take_lines k (l ∷ ls) s = (some (l, ls), record s { buffers = delete k s.buffers })

abbrev pub take_found : BufferKey → Option Buffer → Store → Option (LogLine × List LogLine) × Store
take_found k none s = (none, s)
take_found k (some b) s = take_lines k b.lines s

unfoldable pub take_buffer : BufferKey → Store → Option (LogLine × List LogLine) × Store
take_buffer k s = take_found k (lookup k s.buffers) s

pub record State : Type 0 where
  pub store : Store
  pub files : Files

-- what Append and Flush return: nothing for `nil, nil`
pub data Flushed : Type 0 where
  pending : Flushed
  invalid : Field → Flushed
  finished : Result → Flushed

module _ (compress : Text → Option Text) (marshal : BlockMeta → Option Text) where
  abbrev pub flush_taken :
      Env → BufferKey → Files → Option (LogLine × List LogLine) × Store → Flushed × State
  flush_taken env k fs (none, s) = (pending, record { store = s; files = fs })
  flush_taken env (host, source) fs (some (l, ls), s) =
      let w = write_block compress marshal env host source l ls fs in
      (finished w.0, record { store = s; files = w.1 })

  unfoldable pub flush : Env → BufferKey → State → Flushed × State
  unfolding take_buffer
  flush env k st = flush_taken env k st.files (take_buffer k st.store)

  abbrev pub append_then : Env → BufferKey → Files → Bool × Store → Flushed × State
  append_then env k fs (flushing, s) =
      let st : State = record { store = s; files = fs } in
      if flushing then flush env k st else (pending, st)

  -- Append, by what Validate says
  unfoldable pub append_checked :
      Env → Time → Time → LogLine → State → Option Field → Flushed × State
  unfolding append_locked flush
  append_checked env opened now l st (some field) = (invalid field, st)
  append_checked env opened now l st none =
      append_then env (key_of l) st.files (append_locked opened now l st.store)

  unfoldable pub append : Env → Time → Time → LogLine → State → Flushed × State
  unfolding append_checked
  append env opened now l st = append_checked env opened now l st (validate_log_line l)

  -- FlushAll's loop: the blocks written before an error, and the error
  unfoldable pub flush_keys :
      (BufferKey → Env) → List BufferKey → State → (List BlockMeta × Option BlockError) × State
  flush_keys env [] st = (([], none), st)
  flush_keys env (k ∷ ks) st =
      let r = flush (env k) k st in
      let rest = flush_keys env ks r.1 in
      elim r.0 [
        | pending ↦ rest
        | invalid _ ↦ rest
        | finished (wrote meta) ↦ ((meta ∷ rest.0.0, rest.0.1), rest.1)
        | finished (failed e) ↦ (([], some e), r.1)
      ]

  unfoldable pub flush_all :
      (BufferKey → Env) → State → (List BlockMeta × Option BlockError) × State
  unfolding flush_keys
  flush_all env st = flush_keys env (map (λ e. e.0) st.store.buffers) st
