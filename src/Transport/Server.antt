-- ===== src/Transport/Server.antt =====
-- internal/transport/server.go: POST /v1/ingest.
-- TokenStore, IdempotencyStore and BatchReceiver are interfaces in Go and parameters here, as are the
-- limiter's answer and the third-party code: zstd, the protocol buffers, and their `Batch`, of which
-- the server reads two fields. A request is handled as one step.
pub mod Authentic
pub mod Delivery
use bitacora.Base.{
  ℕ, zero, suc, ◌+◌, ◌*◌, ◌^◌, Bool, true, false, not, Option, none, some, List, [], ◌∷◌,
  if◌then◌else◌, length, take, drop,
}
use bitacora.Base.Int.{ℤ, pos, negsuc, ◌+ℤ◌, pos_part, ltb_ℤ}
use bitacora.Base.Time.{wrap}
use bitacora.Base.Text.{Text, codes, has_prefix}
use bitacora.Base.Eq.{list_Eq, nat_Eq, ◌≟◌}
use bitacora.Transport.Idempotency.{IdempotencyStore}

pub record Batch (P : Type 0) : Type 0 where
  pub host_id : Text
  pub batch_id : Text
  pub payload : P

pub record IngestResponse : Type 0 where
  pub last_offset : Text
  pub duplicate : Bool

-- `body` is `none` where reading it fails
pub record Request : Type 0 where
  pub method : Text
  pub authorization : Text
  pub body : Option Text

-- http.Error with a status and a message, or status 200 with a body
pub data Response : Type 0 where
  http_error : ℕ → Text → Response
  ok : Text → Response

-- what the server calls: `none` and `false` are errors
pub record Environment (P S R : Type 0) : Type 0 where
  pub lookup_token : Text → Option (Option Text)
  pub allow : Option (Text → Bool)
  pub max_body_bytes : ℤ
  pub decompress : Text → Option Text
  pub unmarshal : Text → Option (Batch P)
  pub marshal : IngestResponse → Option Text
  pub idempotency : IdempotencyStore S
  pub receive_batch : Text → Batch P → R → R × Bool

-- the two stores that a request can change
pub record Stores (S R : Type 0) : Type 0 where
  pub seen : S
  pub receiver : R

unfoldable pub bearer_token : Text → Option Text
bearer_token h =
    if not (has_prefix h (codes "Bearer ")) then none else some (drop (length (codes "Bearer ")) h)

abbrev pub default_max_body_bytes : ℤ
default_max_body_bytes = pos (4 * 2 ^ 20)

-- the limit in force: 0 stands for the default
abbrev pub max_bytes : ℤ → ℤ
max_bytes (pos zero) = default_max_body_bytes
max_bytes (pos (suc n)) = pos (suc n)
max_bytes (negsuc n) = negsuc n

module _ {P S R : Type 0} (env : Environment P S R) where
  unfoldable pub respond : Text → Bool → Response
  respond batch_id duplicate =
      elim (env.marshal (record { last_offset = batch_id; duplicate = duplicate })) [
        | none ↦ http_error 500 (codes "encoding response")
        | some bytes ↦ ok bytes
      ]

  -- the end of the handler, from what ReceiveBatch returned
  unfoldable pub received : Text → Stores S R → R × Bool → Stores S R × Response
  unfolding respond
  received id s (r, false) = (record s { receiver = r }, http_error 500 (codes "storing batch"))
  received id s (r, true) = (record s { receiver = r }, respond id false)

  -- from what MarkSeen returned
  unfoldable pub marked : Text → Batch P → Stores S R → S × Option Bool → Stores S R × Response
  unfolding received
  marked host b s (seen, none) =
      (record s { seen = seen }, http_error 500 (codes "idempotency check failed"))
  marked host b s (seen, some true) = (record s { seen = seen }, respond b.batch_id true)
  marked host b s (seen, some false) =
      received b.batch_id (record s { seen = seen }) (env.receive_batch host b s.receiver)

  unfoldable pub take_batch : Text → Batch P → Stores S R → Stores S R × Response
  unfolding marked
  take_batch host b s =
      if not (b.host_id ≟ host)
      then (s, http_error 403 (codes "batch host_id does not match token"))
      else if b.batch_id ≟ []
      then (s, http_error 400 (codes "batch_id is required"))
      else marked host b s (env.idempotency.mark_seen host b.batch_id s.seen)

  unfoldable pub unmarshalled : Text → Stores S R → Option (Batch P) → Stores S R × Response
  unfolding take_batch
  unmarshalled host s none = (s, http_error 400 (codes "invalid protobuf"))
  unmarshalled host s (some b) = take_batch host b s

  unfoldable pub decompressed : Text → Stores S R → Option Text → Stores S R × Response
  unfolding unmarshalled
  decompressed host s none = (s, http_error 400 (codes "decompressing body"))
  decompressed host s (some raw) = unmarshalled host s (env.unmarshal raw)

  -- the body is read up to one byte past the limit, which is an int64 and wraps round
  unfoldable pub read_up_to : Text → Stores S R → ℤ → Option Text → Stores S R × Response
  unfolding decompressed
  read_up_to host s max none = (s, http_error 400 (codes "reading body"))
  read_up_to host s max (some bytes) =
      let body = take (pos_part (wrap (max +ℤ pos 1))) bytes in
      if ltb_ℤ max (pos (length body))
      then (s, http_error 413 (codes "batch too large"))
      else decompressed host s (env.decompress body)

  unfoldable pub allowed : Text → Bool
  allowed host = elim env.allow [ none ↦ true | some f ↦ f host ]

  unfoldable pub looked_up : Request → Stores S R → Option (Option Text) → Stores S R × Response
  unfolding read_up_to allowed
  looked_up q s none = (s, http_error 500 (codes "auth error"))
  looked_up q s (some none) = (s, http_error 401 (codes "invalid token"))
  looked_up q s (some (some host)) =
      if not (allowed host)
      then (s, http_error 429 (codes "rate limit exceeded"))
      else read_up_to host s (max_bytes env.max_body_bytes) q.body

  unfoldable pub with_token : Request → Stores S R → Option Text → Stores S R × Response
  unfolding looked_up
  with_token q s none = (s, http_error 401 (codes "missing bearer token"))
  with_token q s (some token) = looked_up q s (env.lookup_token token)

  unfoldable pub handle_ingest : Request → Stores S R → Stores S R × Response
  unfolding with_token bearer_token
  handle_ingest q s =
      if not (q.method ≟ codes "POST")
      then (s, http_error 405 (codes "method not allowed"))
      else with_token q s (bearer_token q.authorization)
