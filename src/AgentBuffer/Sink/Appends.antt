-- ===== src/AgentBuffer/Sink/Appends.antt =====
-- internal/agentbuffer/sink.go: LogLines over a buffer whose file operations report no error.
use native.Mathlib.Nat.{mod-eq_of_lt}
use bitacora.Base.{
  ℕ, suc, ◌+◌, ◌^◌, ◌<◌, ◌≤◌, ◌≡◌, refl, ap, sym, ◌∙◌, true, some, List, [], ◌∷◌, ◌++◌, arith, ◌⊎◌,
  inl, inr, length, append_assoc, append-nil,
}
use bitacora.Base.Text.{Text}
use bitacora.Schema.Types.{LogLine}
use bitacora.AgentBuffer.Segment.{Item, max_line, IsFaultless}
use bitacora.AgentBuffer.Buffer.{Buffer, Result, ok}
use bitacora.AgentBuffer.Buffer.{append as buffer_append}
use bitacora.AgentBuffer.Buffer.Invariant.{contents, IsValid}
use bitacora.AgentBuffer.Buffer.Append.{append_lem, next_seq-append}
use bitacora.AgentBuffer.Sink.{Call, Sink, appended, append, line_item, log_lines}

-- the items that the lines become, numbered from the next number on
abbrev pub line_items : (ℕ → Call) → ℕ → Text → Text → ℕ → List LogLine → List Item
line_items calls k host source seq [] = []
line_items calls k host source seq (l ∷ ls) =
    record (line_item host source (calls k).now l) { seq = seq + 1 }
    ∷ line_items calls (suc k) host source (seq + 1) ls

-- the item can be encoded, in a line of at most 8 MiB with its newline
abbrev pub IsShort : Call → Item → Type 0
IsShort c it = (n : ℕ) × (c.os.line_size it ≡ some n) × (n ≤ max_line)

-- each of the items that the lines become, in its own call
abbrev pub AreShort : (ℕ → Call) → ℕ → Text → Text → ℕ → List LogLine → Type 0
AreShort calls k host source seq [] = Unit
AreShort calls k host source seq (l ∷ ls) =
    IsShort (calls k) (record (line_item host source (calls k).now l) { seq = seq + 1 })
    × AreShort calls (suc k) host source (seq + 1) ls

-- one line
record IsAppended (s : Sink) (it : Item) (r : Sink) : Type 0 where
  items : contents r.buffer ≡ contents s.buffer ++ (record it { seq = s.buffer.next_seq + 1 } ∷ [])
  valid : IsValid r.buffer
  next : r.buffer.next_seq ≡ s.buffer.next_seq + 1
  signalled : r.signal ≡ true
  host : r.host_id ≡ s.host_id
  logged : r.logged ≡ s.logged

appended_ok :
    (s : Sink) (p : Buffer × Result ℕ) (n : ℕ)
    → p.1 ≡ ok n
    → appended s p ≡ record s { buffer = p.0; signal = true }
unfolding appended
appended_ok s (b, r) n h = rw h refl

append-IsAppended :
    (c : Call) (it : Item) (s : Sink)
    → IsFaultless c.os
    → IsShort c (record it { seq = s.buffer.next_seq + 1 })
    → IsValid s.buffer
    → s.buffer.next_seq + 1 < 2 ^ 64
    → IsAppended s it (append c it s)
unfolding append
append-IsAppended c it s f (size, fits, short) v h =
    let a = append_lem c.os c.path it s.buffer size f v h fits short in
    let e = appended_ok s (buffer_append c.os c.path it s.buffer) (s.buffer.next_seq + 1) a.0 in
    rw e (record {
      items = a.1;
      valid = a.2;
      next = next_seq-append c.os c.path it s.buffer ∙ mod-eq_of_lt h;
      signalled = refl;
      host = refl;
      logged = refl;
    })

-- What LogLines leaves: every line in the buffer, in order, numbered on, and the loop signalled.
pub record HasLines (calls : ℕ → Call) (k : ℕ) (source : Text) (ls : List LogLine) (s r : Sink)
    : Type 0 where
  pub items :
      contents r.buffer
      ≡ contents s.buffer ++ line_items calls k s.host_id source s.buffer.next_seq ls
  pub valid : IsValid r.buffer
  pub next : r.buffer.next_seq ≡ s.buffer.next_seq + length ls
  pub signalled : (ls ≡ []) ⊎ (r.signal ≡ true)
  pub logged : r.logged ≡ s.logged

still_signalled :
    (calls : ℕ → Call) (k : ℕ) (source : Text) (ls : List LogLine) (s : Sink)
    → s.signal ≡ true
    → (ls ≡ []) ⊎ ((log_lines calls k source ls s).signal ≡ true)
    → (log_lines calls k source ls s).signal ≡ true
unfolding log_lines
still_signalled calls k source [] s h o = h
still_signalled calls k source (l ∷ ls) s h (inr e) = e
still_signalled calls k source (l ∷ ls) s h (inl e) = cc

-- LogLines on a valid buffer whose file operations report no error, where each of the items that the
-- lines become can be encoded in at most 8 MiB, with its newline, and there are numbers left for them:
-- every line is in the buffer behind what was there, in order, with the host, the source and the
-- instant it lacked filled in and numbered on; the buffer is valid, nothing is logged, and unless there
-- was no line the flush loop is signalled.
pub log_lines-HasLines :
    (calls : ℕ → Call) (k : ℕ) (source : Text) (ls : List LogLine) (s : Sink)
    → ((i : ℕ) → IsFaultless (calls i).os)
    → AreShort calls k s.host_id source s.buffer.next_seq ls
    → IsValid s.buffer
    → s.buffer.next_seq + length ls < 2 ^ 64
    → HasLines calls k source ls s (log_lines calls k source ls s)
unfolding log_lines
log_lines-HasLines calls k source [] s f short v h = record {
  items = sym (append-nil (contents s.buffer));
  valid = v;
  next = omega arith;
  signalled = inl refl;
  logged = refl;
}
log_lines-HasLines calls k source (l ∷ ls) s f short v h =
    let it = line_item s.host_id source (calls k).now l in
    let t = append (calls k) it s in
    let a = append-IsAppended (calls k) it s (f k) short.0 v (omega (arith, h)) in
    let r =
      log_lines-HasLines calls (suc k) source ls t f (rw (a.host, a.next) short.1) a.valid
        (omega (arith, h, a.next)) in
    let one = record it { seq = s.buffer.next_seq + 1 } in
    record {
      items =
          r.items
          ∙ ap (λ x. x ++ line_items calls (suc k) t.host_id source t.buffer.next_seq ls) a.items
          ∙ append_assoc (contents s.buffer) (one ∷ [])
              (line_items calls (suc k) t.host_id source t.buffer.next_seq ls)
          ∙ ap (λ x. contents s.buffer ++ (one ∷ x))
              (ap (λ y. line_items calls (suc k) y source t.buffer.next_seq ls) a.host
                ∙ ap (λ y. line_items calls (suc k) s.host_id source y ls) a.next);
      valid = r.valid;
      next = omega (arith, r.next, a.next);
      signalled = inr (still_signalled calls (suc k) source ls t a.signalled r.signalled);
      logged = r.logged ∙ a.logged;
    }
