-- ===== src/Logstore/Bounds.antt =====
-- internal/logstore/logstore.go: Append, which never leaves a buffer over the size threshold.
use bitacora.Base.{
  ℕ, ◌+◌, ◌<◌, ◌^◌, ◌%◌, lt→ltb, ◌≡◌, refl, sym, ap, ◌∙◌, Bool, true, false, Option, none, some,
  List, [], ◌∷◌, ◌++◌, arith, inl, inr, Bool-cases, length, length-append, append-nil, append_assoc,
}
use bitacora.Base.Int.{pos, ltb_ℤ, ◌+ℤ◌}
use bitacora.Base.Time.{Time, wrap}
use bitacora.Base.Text.{Text}
use bitacora.Base.Map.{lookup, insert, delete, lookup-insert, lookup-delete, lookup-insert_self}
use bitacora.Base.Eq.{list_Eq, nat_Eq, pair_Eq, ◌≟◌}
use bitacora.Base.Files.{Files}
use bitacora.Schema.Types.{LogLine}
use bitacora.Schema.Validation.{Field, validate_log_line}
use bitacora.Logstore.Block.{BlockMeta, Env, line_bytes}
use bitacora.Logstore.Store.{
  BufferKey, Buffer, Store, State, key_of, buffer_for, add_line, grown, should_flush, append_locked,
  take_buffer, flush_taken, flush, append_then, append_checked, append,
}
use bitacora.Logstore.Gathering.{payload_of}
use bitacora.Logstore.Failure.{IsHeld, take_buffer-IsHeld}

-- The count of a buffer is the size its payload would have, which is below the threshold.
pub record IsSmall (max : ℕ) (b : Buffer) : Type 0 where
  pub counted : b.raw_bytes ≡ pos (length (payload_of b.lines))
  pub below : length (payload_of b.lines) < max

pub record IsBounded (max : ℕ) (s : Store) : Type 0 where
  pub limit : s.max_bytes ≡ pos max
  pub small : (k : BufferKey) (b : Buffer) → lookup k s.buffers ≡ some b → IsSmall max b

payload_of-append :
    (ls : List LogLine) (l : LogLine) → payload_of (ls ++ (l ∷ [])) ≡ payload_of ls ++ line_bytes l
unfolding payload_of
payload_of-append [] l = append-nil (line_bytes l)
payload_of-append (x ∷ ls) l =
    ap (◌++◌ (line_bytes x)) (payload_of-append ls l)
    ∙ sym (append_assoc (line_bytes x) (payload_of ls) (line_bytes l))

length-line_bytes : (l : LogLine) → length (line_bytes l) ≡ length l.message + 1
length-line_bytes l = length-append l.message (10 ∷ [])

wrap_small : (n : ℕ) → n < 2 ^ 63 → wrap (pos n) ≡ pos n
wrap_small n h =
    let small : n < 2 ^ 64 = omega (arith, h) in
    let e : n % 2 ^ 64 ≡ n = omega (arith, small) in rw (e, lt→ltb n (2 ^ 63) h)

pos_add : (a b : ℕ) → pos a +ℤ pos b ≡ pos (a + b)
unfolding ◌+ℤ◌
pos_add a b = ground arith

-- a buffer, or the new one, with a line: its count is right unless it overflows
counted-add_line :
    (max : ℕ) (opened : Time) (l : LogLine) (o : Option Buffer)
    → max + length l.message + 1 < 2 ^ 63
    → ((b : Buffer) → o ≡ some b → IsSmall max b)
    → (add_line l (buffer_for opened o)).raw_bytes
      ≡ pos (length (payload_of (add_line l (buffer_for opened o)).lines))
unfolding payload_of
counted-add_line max opened l none h hs =
    let n = length l.message + 1 in
    let e : length (line_bytes l ++ []) ≡ n =
      ap length (append-nil (line_bytes l)) ∙ length-line_bytes l in
    ap wrap (pos_add 0 n) ∙ wrap_small (0 + n) (omega (arith, h)) ∙ ap pos (omega (arith, e))
counted-add_line max opened l (some b) h hs =
    let n = length l.message + 1 in
    let m = length (payload_of b.lines) in
    let small = hs b refl in
    let e : length (payload_of (b.lines ++ (l ∷ []))) ≡ m + n =
      ap length (payload_of-append b.lines l)
      ∙ length-append (payload_of b.lines) (line_bytes l)
      ∙ ap (◌+◌ m) (length-line_bytes l) in
    ap (λ z. wrap (z +ℤ pos n)) small.counted
    ∙ ap wrap (pos_add m n)
    ∙ wrap_small (m + n) (omega (arith, small.below))
    ∙ ap pos (sym e)

-- the test under the threshold, on a count that is right
under : (n max : ℕ) → ltb_ℤ (pos n) (pos max) ≡ true → n < max
under n max h = ground arith

not_flushing :
    (s : Store) (now : Time) (b : Buffer)
    → should_flush s now b ≡ false
    → ltb_ℤ b.raw_bytes s.max_bytes ≡ true
not_flushing s now b h = ground arith

some_injective : {a b : Buffer} → some a ≡ some b → a ≡ b
some_injective h = cc

-- what Flush does to the store
flush_store :
    (compress : Text → Option Text) (marshal : BlockMeta → Option Text) (env : Env) (k : BufferKey)
    (fs : Files) (t : Option (LogLine × List LogLine) × Store)
    → (flush_taken compress marshal env k fs t).1.store ≡ t.1
flush_store compress marshal env k fs (none, s) = refl
flush_store compress marshal env (host, source) fs (some (l, ls), s) = refl

snoc_cons :
    (ls : List LogLine) (l : LogLine)
    → (x : LogLine) × (xs : List LogLine) × (ls ++ (l ∷ []) ≡ x ∷ xs)
snoc_cons [] l = (l, [], refl)
snoc_cons (x ∷ ls) l = (x, ls ++ (l ∷ []), refl)

module _ (max : ℕ) (opened now : Time) (l : LogLine) (s : Store) (hb : IsBounded max s)
    (room : max + length l.message + 1 < 2 ^ 63) where
  grown-IsSmall : should_flush s now (grown opened l s) ≡ false → IsSmall max (grown opened l s)
  grown-IsSmall hf =
      let b = grown opened l s in
      let n = length (payload_of b.lines) in
      let e : b.raw_bytes ≡ pos n =
        counted-add_line max opened l (lookup (key_of l) s.buffers) room (hb.small (key_of l)) in
      record {
        counted = e;
        below = under n max (
            ap (λ z. ltb_ℤ z (pos max)) (sym e)
            ∙ ap (ltb_ℤ b.raw_bytes) (sym hb.limit)
            ∙ not_flushing s now b hf);
      }

  -- the other keys' buffers, and this one's if it stays
  kept :
      should_flush s now (grown opened l s) ≡ false
      → IsBounded max (record s { buffers = insert (key_of l) (grown opened l s) s.buffers })
  kept hf = record {
    limit = hb.limit;
    small = λ k b h.
        let e = lookup-insert (key_of l) k (grown opened l s) s.buffers in
        elim (Bool-cases (key_of l ≟ k)) [
          | inl t ↦
              let same : grown opened l s ≡ b = some_injective (sym (rw t at e) ∙ h) in
              rw same at (grown-IsSmall hf)
          | inr t ↦ hb.small k b (sym (rw t at e) ∙ h)
        ];
  }

  flushed :
      IsBounded max
        (record s { buffers = delete (key_of l) (insert (key_of l) (grown opened l s) s.buffers) })
  flushed = record {
    limit = hb.limit;
    small = λ k b h.
        let e = lookup-delete (key_of l) k (insert (key_of l) (grown opened l s) s.buffers) in
        let f = lookup-insert (key_of l) k (grown opened l s) s.buffers in
        elim (Bool-cases (key_of l ≟ k)) [
          | inl t ↦ cc (rw t at e)
          | inr t ↦ hb.small k b (sym (rw t at e ∙ rw t at f) ∙ h)
        ];
  }

  flush_grown :
      (compress : Text → Option Text) (marshal : BlockMeta → Option Text) (env : Env) (fs : Files)
      → IsBounded max
          (flush compress marshal env (key_of l) (record {
            store = record s { buffers = insert (key_of l) (grown opened l s) s.buffers };
            files = fs;
          })).1.store
  unfolding flush
  flush_grown compress marshal env fs =
      let b = grown opened l s in
      let k = key_of l in
      let s' : Store = record s { buffers = insert k b s.buffers } in
      let c = snoc_cons (buffer_for opened (lookup k s.buffers)).lines l in
      let held : IsHeld k c.0 c.1 s' = record {
        buffer = b;
        there = lookup-insert_self k b s.buffers;
        holds = c.2;
      } in
      let t = take_buffer-IsHeld k c.0 c.1 s' held in
      rw (flush_store compress marshal env k fs (take_buffer k s') ∙ ap (λ p. p.1) t) flushed

  append_then-IsBounded :
      (compress : Text → Option Text) (marshal : BlockMeta → Option Text) (env : Env) (fs : Files)
      (f : Bool)
      → should_flush s now (grown opened l s) ≡ f
      → IsBounded max
          (append_then compress marshal env
            (key_of l)
            fs
            (f, record s { buffers = insert (key_of l) (grown opened l s) s.buffers })).1.store
  append_then-IsBounded compress marshal env fs true h = flush_grown compress marshal env fs
  append_then-IsBounded compress marshal env fs false h = kept h

  append_checked-IsBounded :
      (compress : Text → Option Text) (marshal : BlockMeta → Option Text) (env : Env) (fs : Files)
      (o : Option Field)
      → IsBounded max
          (append_checked compress marshal env opened now l
            (record { store = s; files = fs })
            o).1.store
  unfolding append_checked append_locked
  append_checked-IsBounded compress marshal env fs none =
      append_then-IsBounded compress marshal env fs (should_flush s now (grown opened l s)) refl
  append_checked-IsBounded compress marshal env fs (some f) = hb

-- After Append, whatever the clock says and the disk does, every buffer's byte count is the size of
-- the payload its lines make, and below the size threshold, if that was so before. The threshold and
-- the new line are not so large together that an int64 overflows.
pub append-IsBounded :
    (max : ℕ) (compress : Text → Option Text) (marshal : BlockMeta → Option Text) (env : Env)
    (opened now : Time) (l : LogLine) (st : State)
    → IsBounded max st.store
    → max + length l.message + 1 < 2 ^ 63
    → IsBounded max (append compress marshal env opened now l st).1.store
unfolding append
append-IsBounded max compress marshal env opened now l st hb room =
    append_checked-IsBounded max opened now l st.store hb room compress marshal env st.files
      (validate_log_line l)
