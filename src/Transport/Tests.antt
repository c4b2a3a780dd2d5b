-- ===== src/Transport/Tests.antt =====
-- The theorems of the ingest endpoint on a small hub: batches travel as plain bytes.
use bitacora.Base.{
  ℕ, zero, suc, ◌+◌, ◌≡◌, ◌≢◌, ◌⊎◌, refl, Bool, true, false, Option, none, some, List, [], ◌∷◌, inl,
  inr, arith,
}
use bitacora.Base.Int.{ℤ, pos}
use bitacora.Base.Time.{Time}
use bitacora.Base.Text.{Text, codes}
use bitacora.Base.Eq.{list_Eq, nat_Eq}
use bitacora.Transport.Idempotency.{MemoryStore, memory_store, memory_mark_seen}
use bitacora.Transport.RateLimit.{allow_all, allow_alone, allow_all-allow_alone}
use bitacora.Transport.Server.{
  Batch, Request, Response, http_error, ok, Environment, Stores, handle_ingest, bearer_token,
  respond, take_batch,
}
use bitacora.Transport.Server
use bitacora.Transport.Server.Authentic.{Stops, Carries, handle_ingest_cases}
use bitacora.Transport.Server.Delivery.{
  Delivers, handle_ingest-Delivers, handle_all, retry_after_failure,
}

abbrev host : Text
host = codes "h"

abbrev no_batches : MemoryStore
no_batches = []

-- a limiter that lets two requests pass
abbrev two_only : Time → ℕ → ℕ × Bool
two_only now zero = (1, true)
two_only now (suc zero) = (2, true)
two_only now (suc (suc n)) = (2, false)

abbrev asked : List (Time × Text)
asked = (1, host) ∷ (2, codes "g") ∷ (3, host) ∷ (4, host) ∷ []

allow_all-allow_alone_example :
    allow_all 0 two_only host asked [] ≡ allow_alone 0 two_only host asked none
allow_all-allow_alone_example = allow_all-allow_alone 0 two_only host asked []

-- the body is the batch's identifier; the receiver counts batches
abbrev hub_with : (Text → Batch Unit → ℕ → ℕ × Bool) → Environment Unit MemoryStore ℕ
hub_with receive = record {
  lookup_token = λ t. some (some host);
  allow = none;
  max_body_bytes = pos 0;
  decompress = some;
  unmarshal = λ raw. some (record { host_id = host; batch_id = raw; payload = tt });
  marshal = λ r. some r.last_offset;
  idempotency = memory_store;
  receive_batch = receive;
}

abbrev hub : Environment Unit MemoryStore ℕ
hub = hub_with (λ h b r. (r + 1, true))

abbrev broken_hub : Environment Unit MemoryStore ℕ
broken_hub = hub_with (λ h b r. (r, false))

abbrev request : Text → Request
request id = record { method = codes "POST"; authorization = codes "Bearer t"; body = some id }

abbrev no_stores : Stores MemoryStore ℕ
no_stores = record { seen = []; receiver = 0 }

abbrev batch : Text → Batch Unit
batch id = record { host_id = host; batch_id = id; payload = tt }

handle_ingest_cases_example :
    Stops no_stores (handle_ingest hub (request (codes "1")) no_stores)
    ⊎ ((h : Text) × (b : Batch Unit) × Carries hub (request (codes "1")) h b
        × (handle_ingest hub (request (codes "1")) no_stores ≡ take_batch hub h b no_stores))
handle_ingest_cases_example = handle_ingest_cases hub (request (codes "1")) no_stores

handle_ingest-Delivers_example :
    ((handle_ingest hub (request (codes "1")) no_stores).0.receiver ≡ 0)
    ⊎ Delivers hub
        (request (codes "1"))
        no_stores
        (handle_ingest hub (request (codes "1")) no_stores).0
handle_ingest-Delivers_example = handle_ingest-Delivers hub (request (codes "1")) no_stores

broken-Carries_one : Carries broken_hub (request (codes "1")) host (batch (codes "1"))
unfolding bearer_token Server.allowed bitacora.Base.Int.◌+ℤ◌
broken-Carries_one = record {
  posted = refl;
  token = codes "t";
  presented = refl;
  bound = refl;
  passes = refl;
  bytes = codes "1";
  read = refl;
  fits = refl;
  raw = codes "1";
  decompresses = refl;
  decodes = refl;
}

retry_after_failure_example :
    let q = request (codes "1") in
    let s = handle_all broken_hub (q ∷ []) (handle_ingest broken_hub q no_stores).0 in
    ((handle_ingest broken_hub q no_stores).1 ≡ http_error 500 (codes "storing batch"))
    × ((handle_ingest broken_hub q s).1 ≡ respond broken_hub (codes "1") true)
    × ((handle_ingest broken_hub q s).0.receiver ≡ s.receiver)
unfolding memory_mark_seen handle_all handle_ingest bearer_token Server.with_token Server.looked_up
    Server.read_up_to Server.decompressed Server.unmarshalled take_batch Server.marked
    Server.received Server.allowed bitacora.Base.Int.◌+ℤ◌
retry_after_failure_example =
    let q = request (codes "1") in
    retry_after_failure broken_hub q q (q ∷ []) no_stores host (batch (codes "1")) true
      broken-Carries_one broken-Carries_one refl (λ e. cc) refl refl refl

hub-Carries_one : Carries hub (request (codes "1")) host (batch (codes "1"))
unfolding bearer_token Server.allowed bitacora.Base.Int.◌+ℤ◌
hub-Carries_one = record {
  posted = refl;
  token = codes "t";
  presented = refl;
  bound = refl;
  passes = refl;
  bytes = codes "1";
  read = refl;
  fits = refl;
  raw = codes "1";
  decompresses = refl;
  decodes = refl;
}

hub-Carries_two : Carries hub (request (codes "2")) host (batch (codes "2"))
unfolding bearer_token Server.allowed bitacora.Base.Int.◌+ℤ◌
hub-Carries_two = record {
  posted = refl;
  token = codes "t";
  presented = refl;
  bound = refl;
  passes = refl;
  bytes = codes "2";
  read = refl;
  fits = refl;
  raw = codes "2";
  decompresses = refl;
  decodes = refl;
}

first-Delivers :
    Delivers hub
      (request (codes "1"))
      no_stores
      (handle_ingest hub (request (codes "1")) no_stores).0
unfolding memory_mark_seen handle_all handle_ingest bearer_token Server.with_token Server.looked_up
    Server.read_up_to Server.decompressed Server.unmarshalled take_batch Server.marked
    Server.received Server.allowed bitacora.Base.Int.◌+ℤ◌
first-Delivers = record {
  host = host;
  batch = batch (codes "1");
  carried = hub-Carries_one;
  own = refl;
  named = λ e. cc;
  fresh = refl;
  recorded = refl;
  handed_over = refl;
}

-- after the first batch was sent twice
abbrev two_sent : Stores MemoryStore ℕ
two_sent =
    handle_all hub (request (codes "1") ∷ []) (handle_ingest hub (request (codes "1")) no_stores).0

second-Delivers :
    Delivers hub (request (codes "2")) two_sent (handle_ingest hub (request (codes "2")) two_sent).0
unfolding memory_mark_seen handle_all handle_ingest bearer_token Server.with_token Server.looked_up
    Server.read_up_to Server.decompressed Server.unmarshalled take_batch Server.marked
    Server.received Server.allowed bitacora.Base.Int.◌+ℤ◌
second-Delivers = record {
  host = host;
  batch = batch (codes "2");
  carried = hub-Carries_two;
  own = refl;
  named = λ e. cc;
  fresh = refl;
  recorded = refl;
  handed_over = refl;
}
