-- ===== src/Transport/Idempotency.antt =====
-- internal/transport/idempotency.go: which batches of a host were ingested.
-- Locks are left out: MarkSeen holds the store's mutex while it looks and writes.
use bitacora.Base.{
  ◌≡◌, Bool, true, false, Option, some, List, [], ◌∷◌, ◌++◌, arith, if◌then◌else◌, ◌≢◌, ◌⊎◌, inl,
  inr, Bool-cases,
}
use bitacora.Base.Text.{Text, contains_byte}
use bitacora.Base.Map.{has, insert, lookup-insert}
use bitacora.Base.Eq.{list_Eq, nat_Eq, list_beq_iff}

-- The interface: `mark_seen` answers `none` for an error. The laws are about `is_seen`, which no
-- caller computes.
pub record IdempotencyStore (S : Type 0) : Type 0 where
  pub mark_seen : Text → Text → S → S × Option Bool
  pub is_seen : Text → Text → S → Bool
  pub answers : (h b : Text) (s : S) (d : Bool) → (mark_seen h b s).1 ≡ some d → d ≡ is_seen h b s
  pub marks :
      (h b : Text) (s : S) (d : Bool)
      → (mark_seen h b s).1 ≡ some d
      → is_seen h b (mark_seen h b s).0 ≡ true
  pub keeps :
      (h b h' b' : Text) (s : S) → is_seen h' b' s ≡ true → is_seen h' b' (mark_seen h b s).0 ≡ true

-- MemoryIdempotencyStore
abbrev pub MemoryStore : Type 0
MemoryStore = List (Text × Unit {0})

abbrev pub seen_key : Text → Text → Text
seen_key host_id batch_id = host_id ++ (0x1f ∷ batch_id)

unfoldable pub memory_mark_seen : Text → Text → MemoryStore → MemoryStore × Option Bool
memory_mark_seen host_id batch_id seen =
    if has (seen_key host_id batch_id) seen
    then (seen, some true)
    else (insert (seen_key host_id batch_id) tt seen, some false)

memory_keeps :
    (k j : Text) (seen : MemoryStore) → has j seen ≡ true → has j (insert k tt seen) ≡ true
memory_keeps k j seen h = ground (arith, lookup-insert k j tt seen)

memory_marks : (k : Text) (seen : MemoryStore) → has k (insert k tt seen) ≡ true
memory_marks k seen = ground (arith, lookup-insert k k tt seen, list_beq_iff k k)

pub memory_mark_seen-answers :
    (h b : Text) (s : MemoryStore) (d : Bool)
    → (memory_mark_seen h b s).1 ≡ some d
    → d ≡ has (seen_key h b) s
unfolding memory_mark_seen
memory_mark_seen-answers h b s d e = ground arith

pub memory_mark_seen-marks :
    (h b : Text) (s : MemoryStore) → has (seen_key h b) (memory_mark_seen h b s).0 ≡ true
unfolding memory_mark_seen
memory_mark_seen-marks h b s = ground (arith, memory_marks (seen_key h b) s)

pub memory_mark_seen-keeps :
    (h b h' b' : Text) (s : MemoryStore)
    → has (seen_key h' b') s ≡ true
    → has (seen_key h' b') (memory_mark_seen h b s).0 ≡ true
unfolding memory_mark_seen
memory_mark_seen-keeps h b h' b' s e =
    ground (arith, memory_keeps (seen_key h b) (seen_key h' b') s)

-- MemoryIdempotencyStore keeps the interface's laws.
abbrev pub memory_store : IdempotencyStore MemoryStore
memory_store = record {
  mark_seen = memory_mark_seen;
  is_seen = λ h b seen. has (seen_key h b) seen;
  answers = memory_mark_seen-answers;
  marks = λ h b seen d e. memory_mark_seen-marks h b seen;
  keeps = memory_mark_seen-keeps;
}

-- keys agree only if host and batch do, where no host identifier has the separator in it
seen_key_injective :
    (h b h' b' : Text)
    → contains_byte 0x1f h ≡ false
    → contains_byte 0x1f h' ≡ false
    → seen_key h b ≡ seen_key h' b'
    → (h ≡ h') × (b ≡ b')
seen_key_injective [] b [] b' n n' e = ground (arith, e)
seen_key_injective [] b (x ∷ h') b' n n' e = absurd (ground (arith, e))
seen_key_injective (x ∷ h) b [] b' n n' e = absurd (ground (arith, e))
seen_key_injective (x ∷ h) b (y ∷ h') b' n n' e =
    let r = seen_key_injective h b h' b' (ground arith) (ground arith) (ground (arith, e)) in
    ground (arith, e, r)

has-insert_other : (k j : Text) (seen : MemoryStore) → k ≢ j → has j (insert k tt seen) ≡ has j seen
has-insert_other k j seen n = ground (arith, lookup-insert k j tt seen, list_beq_iff k j, n)

-- Marking a batch of one host leaves what is recorded of every other batch and host as it was, if no
-- host identifier contains the byte 0x1f.
pub mark_seen_separates :
    (h b h' b' : Text) (seen : MemoryStore)
    → contains_byte 0x1f h ≡ false
    → contains_byte 0x1f h' ≡ false
    → (h ≢ h') ⊎ (b ≢ b')
    → has (seen_key h' b') (memory_mark_seen h b seen).0 ≡ has (seen_key h' b') seen
unfolding memory_mark_seen
mark_seen_separates h b h' b' seen n n' d = elim (Bool-cases (has (seen_key h b) seen)) [
  | inl known ↦ rw known
  | inr new ↦ rw new (
      has-insert_other (seen_key h b) (seen_key h' b') seen (λ e.
        let p = seen_key_injective h b h' b' n n' e in
        absurd (elim d [ inl f ↦ f p.0 | inr f ↦ f p.1 ])))
]
