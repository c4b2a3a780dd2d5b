-- ===== src/AgentBuffer/Backfill/Loop.antt =====
-- The loop of Backfill.
--
-- An environment says, for each round, whether the context has ended, whether the limiter's Wait and
-- the sender return no error, and how the operating system answers. The buffer is not changed by
-- others between the rounds. The fuel is one more than the number of buffered items: each round
-- takes at least one item away.
use bitacora.Base.{
  ℕ, zero, suc, Bool, not, Option, none, some, List, [], ◌∷◌, if◌then◌else◌, length, ◌==◌,
}
use bitacora.Base.Int.{ℤ, pos, leb_ℤ, pos_part}
use bitacora.AgentBuffer.Segment.{Item, Os, last_seq}
use bitacora.AgentBuffer.Buffer.{Buffer, Result, ok, err, len}
use bitacora.AgentBuffer.Backfill.{oldest_items, ack}

pub record Environment : Type 0 where
  pub ctx_done : ℕ → Bool
  pub waits : ℕ → Bool
  pub sends : ℕ → List Item → Bool
  pub os : ℕ → Os

-- how Backfill returns; only `finished` is a nil error
pub data Outcome : Type 0 where
  finished cancelled read_failed wait_failed send_failed ack_failed out_of_fuel : Outcome

-- the buffer, the batches that were sent without error, and the outcome
pub record Run : Type 0 where
  pub buffer : Buffer
  pub sent : List (List Item)
  pub outcome : Outcome

abbrev pub stop : Buffer → Outcome → Run
stop b outcome = record { buffer = b; sent = []; outcome = outcome }

abbrev pub after_ack : List Item → (Buffer → Run) → Buffer × Result (Unit {0}) → Run
after_ack items rest (b, err e) = record { buffer = b; sent = items ∷ []; outcome = ack_failed }
after_ack items rest (b, ok _) = let r = rest b in record r { sent = items ∷ r.sent }

abbrev pub send_batch : Environment → ℕ → Buffer → (Buffer → Run) → Option (List Item) → Run
send_batch env k b rest none = stop b read_failed
send_batch env k b rest (some items) =
    if length items == 0
    then stop b finished
    else if not (env.waits k)
    then stop b wait_failed
    else if not (env.sends k items)
    then stop b send_failed
    else after_ack items rest (ack (env.os k) (last_seq 0 items) b)

unfoldable pub backfill_loop : Environment → ℕ → ℕ → ℕ → Buffer → Run
backfill_loop env n zero k b = stop b out_of_fuel
backfill_loop env n (suc fuel) k b =
    let rest = backfill_loop env n fuel (suc k) in
    if env.ctx_done k then stop b cancelled else send_batch env k b rest (oldest_items n b)

-- `opts.BatchSize`, with the default for one that is not positive
unfoldable pub batch_size : ℤ → ℕ
batch_size z = if leb_ℤ z (pos 0) then 200 else pos_part z

unfoldable pub backfill : Environment → ℤ → Buffer → Run
unfolding backfill_loop batch_size len
backfill env size b = backfill_loop env (batch_size size) (suc (pos_part (len b))) 0 b
