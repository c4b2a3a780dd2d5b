-- ===== src/AgentBuffer/Backfill/Delivery.antt =====
-- What a run of Backfill delivers and what it leaves.
use bitacora.Base.{
  ℕ, zero, suc, ◌≤◌, ◌<◌, ◌≡◌, ◌≢◌, ◌⊎◌, refl, ap, sym, ◌∙◌, inl, inr, Bool, true, false, Option,
  none, some, List, [], ◌∷◌, ◌++◌, arith, length, take, drop, take-append-drop, length-take,
  length-drop, concat, ◌==◌, Bool-cases, All, append_assoc, append-nil, ==_iff,
}
use bitacora.Base.Int.{ℤ, pos_part}
use bitacora.AgentBuffer.Segment.{Item, Os, last_seq, IsFaultless}
use bitacora.AgentBuffer.Order.{above-last_seq-take}
use bitacora.AgentBuffer.Buffer.{Buffer, Result, ok, err, len}
use bitacora.AgentBuffer.Buffer.Invariant.{contents, IsValid}
use bitacora.AgentBuffer.Backfill.{oldest_items, ack}
use bitacora.AgentBuffer.Backfill.Oldest.{oldest_items_lem}
use bitacora.AgentBuffer.Backfill.Ack.{ack_lem}
use bitacora.AgentBuffer.Backfill.Loop.{
  Environment, Outcome, finished, cancelled, read_failed, wait_failed, send_failed, ack_failed,
  out_of_fuel, Run, stop, after_ack, send_batch, backfill_loop, batch_size, backfill,
}

-- the outcomes that the context, the limiter and the sender account for
abbrev pub is_expected : Outcome → Bool
is_expected finished = true
is_expected cancelled = true
is_expected wait_failed = true
is_expected send_failed = true
is_expected _ = false

-- Nothing is lost, sent twice or reordered: what was sent and what is left make up what was there.
pub record Delivers (n : ℕ) (b : Buffer) (r : Run) : Type 0 where
  pub splits : concat r.sent ++ contents r.buffer ≡ contents b
  pub valid : IsValid r.buffer
  pub expected : is_expected r.outcome ≡ true
  pub emptied : (r.outcome ≢ finished) ⊎ (contents r.buffer ≡ [])
  pub bounded : All (λ batch. (0 < length batch) × (length batch ≤ n)) r.sent

or_empty : {P : Type 0} → (o : Outcome) → (o ≡ finished → P) → (o ≢ finished) ⊎ P
or_empty finished e = inr (e refl)
or_empty cancelled e = inl (λ p. cc)
or_empty read_failed e = inl (λ p. cc)
or_empty wait_failed e = inl (λ p. cc)
or_empty send_failed e = inl (λ p. cc)
or_empty ack_failed e = inl (λ p. cc)
or_empty out_of_fuel e = inl (λ p. cc)

stop-Delivers :
    (n : ℕ) (b : Buffer) (o : Outcome)
    → IsValid b
    → is_expected o ≡ true
    → (o ≡ finished → contents b ≡ [])
    → Delivers n b (stop b o)
stop-Delivers n b o v x e = record {
  splits = refl;
  valid = v;
  expected = x;
  emptied = or_empty o e;
  bounded = tt;
}

empty_take : (n : ℕ) (xs : List Item) → 0 < n → length (take n xs) ≡ 0 → xs ≡ []
empty_take zero xs h e = absurd (omega arith)
empty_take (suc n) [] h e = refl
empty_take (suc n) (x ∷ xs) h e = absurd (omega arith)

-- the acknowledgement of a batch takes exactly the batch away
ack_batch :
    (os : Os) (n : ℕ) (b : Buffer)
    → IsFaultless os
    → IsValid b
    → ((ack os (last_seq 0 (take n (contents b))) b).1 ≡ ok tt)
      × (contents (ack os (last_seq 0 (take n (contents b))) b).0 ≡ drop n (contents b))
      × IsValid (ack os (last_seq 0 (take n (contents b))) b).0
ack_batch os n b f v =
    let (answer, items, valid) = ack_lem os (last_seq 0 (take n (contents b))) b f v in
    (answer, items ∙ above-last_seq-take n 0 (contents b) v.sorted, valid)

after_ack-Delivers :
    (n : ℕ) (b : Buffer) (rest : Buffer → Run) (r : Buffer × Result (Unit {0}))
    → r.1 ≡ ok tt
    → contents r.0 ≡ drop n (contents b)
    → 0 < length (take n (contents b))
    → Delivers n r.0 (rest r.0)
    → Delivers n b (after_ack (take n (contents b)) rest r)
after_ack-Delivers n b rest (c, err e) a s l d = cc
after_ack-Delivers n b rest (c, ok u) a s l d = record {
  splits =
      append_assoc (take n (contents b)) (concat (rest c).sent) (contents (rest c).buffer)
      ∙ ap (λ l. take n (contents b) ++ l) (d.splits ∙ s)
      ∙ take-append-drop n (contents b);
  valid = d.valid;
  expected = d.expected;
  emptied = d.emptied;
  bounded = ((l, omega (arith, length-take n (contents b))), d.bounded);
}

module _ (env : Environment) (f : (k : ℕ) → IsFaultless (env.os k)) (n : ℕ) (positive : 0 < n) where
  send_batch-Delivers :
      (k : ℕ) (b : Buffer) (rest : Buffer → Run)
      → IsValid b
      → ((c : Buffer)
          → IsValid c
          → length (contents c) < length (contents b)
          → Delivers n c (rest c))
      → Delivers n b (send_batch env k b rest (some (take n (contents b))))
  send_batch-Delivers k b rest v ih = elim (Bool-cases (length (take n (contents b)) == 0)) [
    | inl none_left ↦ rw none_left (
        stop-Delivers n b finished v refl
          (λ _. empty_take n (contents b) positive ((==_iff _ _).0 none_left)))
    | inr some_left ↦ elim (Bool-cases (env.waits k)) [
      | inr no_wait ↦ rw (some_left, no_wait) (stop-Delivers n b wait_failed v refl (λ e. cc))
      | inl waited ↦ elim (Bool-cases (env.sends k (take n (contents b)))) [
        | inr not_sent ↦
            rw (some_left, waited, not_sent) (stop-Delivers n b send_failed v refl (λ e. cc))
        | inl sent ↦
            let (answer, items, valid) = ack_batch (env.os k) n b (f k) v in
            let some_there : 0 < length (take n (contents b)) = ground arith in
            rw (some_left, waited, sent)
              (after_ack-Delivers n b rest (ack (env.os k) (last_seq 0 (take n (contents b))) b)
                answer items some_there
                (ih (ack (env.os k) (last_seq 0 (take n (contents b))) b).0 valid (
                  omega (
                    arith,
                    ap (length {A = Item}) items,
                    length-drop n (contents b),
                    length-take n (contents b),
                  ))))
      ]
    ]
  ]

  backfill_loop-Delivers :
      (fuel k : ℕ) (b : Buffer)
      → length (contents b) < fuel
      → IsValid b
      → Delivers n b (backfill_loop env n fuel k b)
  unfolding backfill_loop
  backfill_loop-Delivers zero k b h v = absurd (omega arith)
  backfill_loop-Delivers (suc fuel) k b h v = elim (Bool-cases (env.ctx_done k)) [
    | inl over ↦ rw over (stop-Delivers n b cancelled v refl (λ e. cc))
    | inr open_ctx ↦
        rw (open_ctx, oldest_items_lem n b v)
          (send_batch-Delivers k b (backfill_loop env n fuel (suc k)) v
            (λ c cv less. backfill_loop-Delivers fuel (suc k) c (omega arith) cv))
  ]

positive_batch : (z : ℤ) → 0 < batch_size z
unfolding batch_size
positive_batch z = ground arith

-- Backfill on a valid buffer, whatever the context, the limiter and the sender answer in each round,
-- under an operating system that reports no error: the batches that were sent, one after the other,
-- and the items that are left are together exactly the items that were there, in order, so that
-- none is lost, sent twice or overtaken; each batch has between one and the batch size of items;
-- the buffer is valid again; it returns for one of the reasons that its surroundings give (the
-- model's fuel never runs out), and without an error only once the buffer is empty.
pub backfill-Delivers :
    (env : Environment) (size : ℤ) (b : Buffer)
    → ((k : ℕ) → IsFaultless (env.os k))
    → IsValid b
    → Delivers (batch_size size) b (backfill env size b)
unfolding backfill len
backfill-Delivers env size b f v =
    backfill_loop-Delivers env f (batch_size size) (positive_batch size) (suc (pos_part (len b))) 0
      b (rw v.counted (omega arith)) v

abbrev is_hindered : Outcome → Bool
is_hindered cancelled = true
is_hindered wait_failed = true
is_hindered send_failed = true
is_hindered _ = false

after_ack_unhindered :
    (items : List Item) (rest : Buffer → Run) (r : Buffer × Result (Unit {0}))
    → ((b : Buffer) → is_hindered (rest b).outcome ≡ false)
    → is_hindered (after_ack items rest r).outcome ≡ false
after_ack_unhindered items rest (b, err e) h = refl
after_ack_unhindered items rest (b, ok _) h = h b

module _ (env : Environment) (n : ℕ) (c : (k : ℕ) → env.ctx_done k ≡ false)
    (w : (k : ℕ) → env.waits k ≡ true)
    (s : (k : ℕ) (items : List Item) → env.sends k items ≡ true) where
  send_batch_unhindered :
      (k : ℕ) (b : Buffer) (rest : Buffer → Run) (o : Option (List Item))
      → ((b : Buffer) → is_hindered (rest b).outcome ≡ false)
      → is_hindered (send_batch env k b rest o).outcome ≡ false
  send_batch_unhindered k b rest none h = refl
  send_batch_unhindered k b rest (some items) h = elim (Bool-cases (length items == 0)) [
    | inl none_left ↦ rw none_left
    | inr some_left ↦
        rw (some_left, w k, s k items)
          (after_ack_unhindered items rest (ack (env.os k) (last_seq 0 items) b) h)
  ]

  backfill_loop_unhindered :
      (fuel k : ℕ) (b : Buffer) → is_hindered (backfill_loop env n fuel k b).outcome ≡ false
  unfolding backfill_loop
  backfill_loop_unhindered zero k b = refl
  backfill_loop_unhindered (suc fuel) k b = rw (c k) (
      send_batch_unhindered k b (backfill_loop env n fuel (suc k)) (oldest_items n b)
        (λ d. backfill_loop_unhindered fuel (suc k) d))

only_finished : (o : Outcome) → is_expected o ≡ true → is_hindered o ≡ false → o ≡ finished
only_finished o e h = ground arith

backfill_unhindered :
    (env : Environment) (size : ℤ) (b : Buffer)
    → ((k : ℕ) → env.ctx_done k ≡ false)
    → ((k : ℕ) → env.waits k ≡ true)
    → ((k : ℕ) (items : List Item) → env.sends k items ≡ true)
    → is_hindered (backfill env size b).outcome ≡ false
unfolding backfill
backfill_unhindered env size b c w s =
    backfill_loop_unhindered env (batch_size size) c w s (suc (pos_part (len b))) 0 b

-- If the context never ends and every wait and every send succeeds, Backfill under an operating
-- system that reports no error returns without an error, has sent all the items of the valid buffer
-- in order, and leaves it empty.
pub backfill_complete :
    (env : Environment) (size : ℤ) (b : Buffer)
    → ((k : ℕ) → IsFaultless (env.os k))
    → IsValid b
    → ((k : ℕ) → env.ctx_done k ≡ false)
    → ((k : ℕ) → env.waits k ≡ true)
    → ((k : ℕ) (items : List Item) → env.sends k items ≡ true)
    → ((backfill env size b).outcome ≡ finished)
      × (concat (backfill env size b).sent ≡ contents b)
      × (contents (backfill env size b).buffer ≡ [])
backfill_complete env size b f v c w s =
    let d = backfill-Delivers env size b f v in
    let done =
      only_finished (backfill env size b).outcome d.expected
        (backfill_unhindered env size b c w s) in
    let empty : contents (backfill env size b).buffer ≡ [] = elim d.emptied [
      | inl n ↦ absurd (n done)
      | inr e ↦ e
    ] in
    (
      done,
      sym (append-nil _) ∙ ap (λ l. concat (backfill env size b).sent ++ l) (sym empty) ∙ d.splits,
      empty,
    )
