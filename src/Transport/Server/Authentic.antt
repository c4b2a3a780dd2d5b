-- ===== src/Transport/Server/Authentic.antt =====
-- What a request must carry before its batch is looked at.
use bitacora.Base.{
  ℕ, ◌≡◌, refl, ◌⊎◌, inl, inr, true, false, Option, none, some, length, take, Bool-cases,
}
use bitacora.Base.Int.{pos, ◌+ℤ◌, pos_part, ltb_ℤ}
use bitacora.Base.Time.{wrap}
use bitacora.Base.Text.{Text, codes}
use bitacora.Base.Eq.{list_Eq, nat_Eq, list_beq_iff, ◌≟◌}
use bitacora.Transport.Server.{
  Batch, Request, Response, http_error, Environment, Stores, bearer_token, take_batch, unmarshalled,
  decompressed, read_up_to, max_bytes, allowed, looked_up, with_token, handle_ingest,
}

-- an answer with an error that leaves both stores alone
abbrev pub Stops : {S R : Type 0} → Stores S R → Stores S R × Response → Type 0
Stops s r = (c : ℕ) × (m : Text) × (r ≡ (s, http_error c m))

module _ {P S R : Type 0} (env : Environment P S R) where
  -- The request is a POST with a token of the host, the limiter lets it pass, and its body, which is
  -- not past the limit, decodes to the batch.
  pub record Carries (q : Request) (host : Text) (b : Batch P) : Type 0 where
    pub posted : q.method ≡ codes "POST"
    pub token : Text
    pub presented : bearer_token q.authorization ≡ some token
    pub bound : env.lookup_token token ≡ some (some host)
    pub passes : allowed env host ≡ true
    pub bytes : Text
    pub read : q.body ≡ some bytes
    pub fits :
        ltb_ℤ
          (max_bytes env.max_body_bytes)
          (pos (length (take (pos_part (wrap (max_bytes env.max_body_bytes +ℤ pos 1))) bytes)))
        ≡ false
    pub raw : Text
    pub decompresses :
        env.decompress (take (pos_part (wrap (max_bytes env.max_body_bytes +ℤ pos 1))) bytes)
        ≡ some raw
    pub decodes : env.unmarshal raw ≡ some b

  unmarshalled_cases :
      (host : Text) (s : Stores S R) (o : Option (Batch P))
      → Stops s (unmarshalled env host s o)
        ⊎ ((b : Batch P) × (o ≡ some b) × (unmarshalled env host s o ≡ take_batch env host b s))
  unfolding unmarshalled
  unmarshalled_cases host s none = inl (_, _, refl)
  unmarshalled_cases host s (some b) = inr (b, refl, refl)

  decompressed_cases :
      (host : Text) (s : Stores S R) (o : Option Text)
      → Stops s (decompressed env host s o)
        ⊎ ((raw : Text) × (b : Batch P) × (o ≡ some raw)
            × (env.unmarshal raw ≡ some b)
            × (decompressed env host s o ≡ take_batch env host b s))
  unfolding decompressed
  decompressed_cases host s none = inl (_, _, refl)
  decompressed_cases host s (some raw) = elim (unmarshalled_cases host s (env.unmarshal raw)) [
    | inl stops ↦ inl stops
    | inr (b, e, r) ↦ inr (raw, b, refl, e, r)
  ]

  abbrev body_of : Text → Text
  body_of bytes = take (pos_part (wrap (max_bytes env.max_body_bytes +ℤ pos 1))) bytes

  record Decodes (o : Option Text) (b : Batch P) : Type 0 where
    bytes : Text
    read : o ≡ some bytes
    fits : ltb_ℤ (max_bytes env.max_body_bytes) (pos (length (body_of bytes))) ≡ false
    raw : Text
    decompresses : env.decompress (body_of bytes) ≡ some raw
    decodes : env.unmarshal raw ≡ some b

  read_up_to_cases :
      (host : Text) (s : Stores S R) (o : Option Text)
      → Stops s (read_up_to env host s (max_bytes env.max_body_bytes) o)
        ⊎ ((b : Batch P) × Decodes o b
            × (read_up_to env host s (max_bytes env.max_body_bytes) o ≡ take_batch env host b s))
  unfolding read_up_to
  read_up_to_cases host s none = inl (_, _, refl)
  read_up_to_cases host s (some bytes) =
      elim (Bool-cases (ltb_ℤ (max_bytes env.max_body_bytes) (pos (length (body_of bytes))))) [
        | inl long ↦ inl (413, codes "batch too large", rw long refl)
        | inr fits ↦ elim (decompressed_cases host s (env.decompress (body_of bytes))) [
          | inl (c, m, e) ↦ inl (c, m, rw fits e)
          | inr (raw, b, d, u, r) ↦ inr (
            b,
            record {
              bytes = bytes;
              read = refl;
              fits = fits;
              raw = raw;
              decompresses = d;
              decodes = u;
            },
            rw fits r,
          )
        ]
      ]

  looked_up_cases :
      (q : Request) (s : Stores S R) (o : Option (Option Text))
      → Stops s (looked_up env q s o)
        ⊎ ((host : Text) × (b : Batch P) × (o ≡ some (some host))
            × (allowed env host ≡ true)
            × Decodes q.body b
            × (looked_up env q s o ≡ take_batch env host b s))
  unfolding looked_up
  looked_up_cases q s none = inl (_, _, refl)
  looked_up_cases q s (some none) = inl (_, _, refl)
  looked_up_cases q s (some (some host)) = elim (Bool-cases (allowed env host)) [
    | inr refused ↦ inl (429, codes "rate limit exceeded", rw refused refl)
    | inl passes ↦ elim (read_up_to_cases host s q.body) [
      | inl (c, m, e) ↦ inl (c, m, rw passes e)
      | inr (b, d, e) ↦ inr (host, b, refl, passes, d, rw passes e)
    ]
  ]

  with_token_cases :
      (q : Request) (s : Stores S R) (o : Option Text)
      → q.method ≡ codes "POST"
      → bearer_token q.authorization ≡ o
      → Stops s (with_token env q s o)
        ⊎ ((host : Text) × (b : Batch P) × Carries q host b
            × (with_token env q s o ≡ take_batch env host b s))
  unfolding with_token
  with_token_cases q s none posted presented = inl (_, _, refl)
  with_token_cases q s (some token) posted presented =
      elim (looked_up_cases q s (env.lookup_token token)) [
        | inl stops ↦ inl stops
        | inr (host, b, bound, passes, d, e) ↦ inr (
          host,
          b,
          record {
            posted = posted;
            token = token;
            presented = presented;
            bound = bound;
            passes = passes;
            bytes = d.bytes;
            read = d.read;
            fits = d.fits;
            raw = d.raw;
            decompresses = d.decompresses;
            decodes = d.decodes;
          },
          e,
        )
      ]

  -- Every request is answered with an error and changes neither store, or it carries a batch under
  -- the token of a host, and is handled as that batch from that host.
  pub handle_ingest_cases :
      (q : Request) (s : Stores S R)
      → Stops s (handle_ingest env q s)
        ⊎ ((host : Text) × (b : Batch P) × Carries q host b
            × (handle_ingest env q s ≡ take_batch env host b s))
  unfolding handle_ingest
  handle_ingest_cases q s = elim (Bool-cases (q.method ≟ codes "POST")) [
    | inr other ↦ inl (405, codes "method not allowed", rw other refl)
    | inl posted ↦
        elim (with_token_cases q s (bearer_token q.authorization)
          ((list_beq_iff q.method (codes "POST")).0 posted) refl) [
            | inl (c, m, e) ↦ inl (c, m, rw posted e)
            | inr (host, b, d, e) ↦ inr (host, b, d, rw posted e)
          ]
  ]

  -- a request that carries a batch is handled as that batch
  pub Carries-take_batch :
      (q : Request) (s : Stores S R) (host : Text) (b : Batch P)
      → Carries q host b
      → handle_ingest env q s ≡ take_batch env host b s
  unfolding handle_ingest with_token looked_up read_up_to decompressed unmarshalled
  Carries-take_batch q s host b c =
      rw
        (
          (list_beq_iff q.method (codes "POST")).1 c.posted,
          c.presented,
          c.bound,
          c.passes,
          c.read,
          c.fits,
          c.decompresses,
          c.decodes,
        )
        refl
