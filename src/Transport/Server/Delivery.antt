-- ===== src/Transport/Server/Delivery.antt =====
-- Which batches reach the receiver.
use bitacora.Base.{
  ◌≡◌, ◌≢◌, refl, ap, ◌∙◌, sym, ◌⊎◌, inl, inr, Bool, true, false, Option, none, some, List, [], ◌∷◌,
  arith, Bool-cases,
}
use bitacora.Base.Text.{Text, codes}
use bitacora.Base.Eq.{list_Eq, nat_Eq, list_beq_iff, ◌≟◌}
use bitacora.Transport.Server.{
  Batch, Request, http_error, Environment, Stores, respond, received, marked, take_batch,
  handle_ingest,
}
use bitacora.Transport.Server.Authentic.{Carries, handle_ingest_cases, Carries-take_batch}

module _ {P S R : Type 0} (env : Environment P S R) where
  abbrev is_seen : Text → Text → S → Bool
  is_seen = env.idempotency.is_seen

  -- the batch goes to the receiver: it is the host's own, has an identifier, was not recorded before
  -- and is recorded afterwards
  pub record Delivers (q : Request) (s s' : Stores S R) : Type 0 where
    pub host : Text
    pub batch : Batch P
    pub carried : Carries env q host batch
    pub own : batch.host_id ≡ host
    pub named : batch.batch_id ≢ []
    pub fresh : env.idempotency.is_seen host batch.batch_id s.seen ≡ false
    pub recorded : env.idempotency.is_seen host batch.batch_id s'.seen ≡ true
    pub handed_over : s'.receiver ≡ (env.receive_batch host batch s.receiver).0

  received_stores :
      (id : Text) (s : Stores S R) (x : R × Bool)
      → (received env id s x).0 ≡ record s { receiver = x.0 }
  unfolding received
  received_stores id s (r, false) = refl
  received_stores id s (r, true) = refl

  record Marks (host : Text) (b : Batch P) (s s' : Stores S R) : Type 0 where
    fresh : env.idempotency.is_seen host b.batch_id s.seen ≡ false
    recorded : env.idempotency.is_seen host b.batch_id s'.seen ≡ true
    handed_over : s'.receiver ≡ (env.receive_batch host b s.receiver).0

  marked_cases :
      (host : Text) (b : Batch P) (s : Stores S R) (x : S × Option Bool)
      → env.idempotency.mark_seen host b.batch_id s.seen ≡ x
      → ((marked env host b s x).0.receiver ≡ s.receiver) ⊎ Marks host b s (marked env host b s x).0
  unfolding marked
  marked_cases host b s (seen, none) e = inl refl
  marked_cases host b s (seen, some true) e = inl refl
  marked_cases host b s (seen, some false) e =
      let x = env.receive_batch host b s.receiver in
      let stores = received_stores b.batch_id (record s { seen = seen }) x in
      inr (
        rw stores (record {
          fresh = sym (env.idempotency.answers host b.batch_id s.seen false (ap (λ p. p.1) e));
          recorded =
              ap (λ p. env.idempotency.is_seen host b.batch_id p.0) (sym e)
              ∙ env.idempotency.marks host b.batch_id s.seen false (ap (λ p. p.1) e);
          handed_over = refl;
        }))

  -- A request changes the receiver's state only if it carries, under the token of a host, a batch of
  -- that same host with an identifier that was not recorded for the host before; the batch is
  -- handed to the receiver once, and its identifier is recorded then.
  pub handle_ingest-Delivers :
      (q : Request) (s : Stores S R)
      → ((handle_ingest env q s).0.receiver ≡ s.receiver) ⊎ Delivers q s (handle_ingest env q s).0
  unfolding take_batch
  handle_ingest-Delivers q s = elim (handle_ingest_cases env q s) [
    | inl (c, m, e) ↦ inl (ap (λ r. r.0.receiver) e)
    | inr (host, b, carried, e) ↦ rw e (elim (Bool-cases (b.host_id ≟ host)) [
      | inr foreign ↦ rw foreign (inl refl)
      | inl own ↦ elim (Bool-cases (b.batch_id ≟ [])) [
        | inl unnamed ↦ rw (own, unnamed) (inl refl)
        | inr named ↦
            rw (own, named)
              (elim (marked_cases host b s (env.idempotency.mark_seen host b.batch_id s.seen)
                refl) [
                  | inl same ↦ inl same
                  | inr d ↦ inr (record {
                    host = host;
                    batch = b;
                    carried = carried;
                    own = (list_beq_iff b.host_id host).0 own;
                    named = λ p. cc;
                    fresh = d.fresh;
                    recorded = d.recorded;
                    handed_over = d.handed_over;
                  })
                ])
      ]
    ])
  ]

  marked-keeps :
      (host : Text) (b : Batch P) (s : Stores S R) (x : S × Option Bool)
      → (marked env host b s x).0.seen ≡ x.0
  unfolding marked
  marked-keeps host b s (seen, none) = refl
  marked-keeps host b s (seen, some true) = refl
  marked-keeps host b s (seen, some false) =
      ap (λ t. t.seen)
        (received_stores b.batch_id (record s { seen = seen })
          (env.receive_batch host b s.receiver))

  -- no request makes the server forget an identifier that was recorded
  handle_ingest-keeps :
      (q : Request) (s : Stores S R) (h b : Text)
      → is_seen h b s.seen ≡ true
      → is_seen h b (handle_ingest env q s).0.seen ≡ true
  unfolding take_batch
  handle_ingest-keeps q s h b known = elim (handle_ingest_cases env q s) [
    | inl (c, m, e) ↦ ap (λ r. is_seen h b r.0.seen) e ∙ known
    | inr (host, x, carried, e) ↦ rw e (elim (Bool-cases (x.host_id ≟ host)) [
      | inr foreign ↦ rw foreign known
      | inl own ↦ elim (Bool-cases (x.batch_id ≟ [])) [
        | inl unnamed ↦ rw (own, unnamed) known
        | inr named ↦
            rw
              (own, named, marked-keeps host x s (env.idempotency.mark_seen host x.batch_id s.seen))
              (env.idempotency.keeps host x.batch_id h b s.seen known)
      ]
    ])
  ]

  unfoldable pub handle_all : List Request → Stores S R → Stores S R
  handle_all [] s = s
  handle_all (q ∷ qs) s = handle_all qs (handle_ingest env q s).0

  handle_all-keeps :
      (qs : List Request) (s : Stores S R) (h b : Text)
      → is_seen h b s.seen ≡ true
      → is_seen h b (handle_all qs s).seen ≡ true
  unfolding handle_all
  handle_all-keeps [] s h b known = known
  handle_all-keeps (q ∷ qs) s h b known =
      handle_all-keeps qs (handle_ingest env q s).0 h b (handle_ingest-keeps q s h b known)

  take_batch_known :
      (host : Text) (b : Batch P) (s : Stores S R)
      → b.host_id ≡ host
      → b.batch_id ≢ []
      → is_seen host b.batch_id s.seen ≡ true
      → (d : Bool) → (env.idempotency.mark_seen host b.batch_id s.seen).1 ≡ some d
      → ((take_batch env host b s).1 ≡ respond env b.batch_id true)
        × ((take_batch env host b s).0.receiver ≡ s.receiver)
  unfolding take_batch
  take_batch_known host b s own named known d e =
      let e' : (env.idempotency.mark_seen host b.batch_id s.seen).1 ≡ some true =
        e ∙ ap some (env.idempotency.answers host b.batch_id s.seen d e ∙ known) in
      rw ((list_beq_iff b.host_id host).1 own)
        (ground (arith, e', named, list_beq_iff b.batch_id []))

  -- A batch reaches the receiver at most once: when a request has handed it over, then after any
  -- further requests no request hands over a batch of the same host with the same identifier.
  pub handle_ingest_once :
      (q q' : Request) (qs : List Request) (s : Stores S R)
      → (d : Delivers q s (handle_ingest env q s).0)
      → (e : Delivers q'
          (handle_all qs (handle_ingest env q s).0)
          (handle_ingest env q' (handle_all qs (handle_ingest env q s).0)).0)
      → ¬ ((e.host ≡ d.host) × (e.batch.batch_id ≡ d.batch.batch_id))
  handle_ingest_once q q' qs s d e (same_host, same_id) =
      let seen = (handle_all qs (handle_ingest env q s).0).seen in
      let known : is_seen d.host d.batch.batch_id seen ≡ true =
        handle_all-keeps qs (handle_ingest env q s).0 d.host d.batch.batch_id d.recorded in
      let fresh : is_seen d.host d.batch.batch_id seen ≡ false =
        ap (λ h. is_seen h d.batch.batch_id seen) (sym same_host)
        ∙ ap (λ i. is_seen e.host i seen) (sym same_id)
        ∙ e.fresh in
      cc

  take_batch_failed :
      (host : Text) (b : Batch P) (s : Stores S R)
      → b.host_id ≡ host
      → b.batch_id ≢ []
      → (env.idempotency.mark_seen host b.batch_id s.seen).1 ≡ some false
      → (env.receive_batch host b s.receiver).1 ≡ false
      → (take_batch env host b s).1 ≡ http_error 500 (codes "storing batch")
  unfolding take_batch marked received
  take_batch_failed host b s own named new f =
      rw ((list_beq_iff b.host_id host).1 own)
        (ground (arith, new, f, named, list_beq_iff b.batch_id []))

  take_batch_records :
      (host : Text) (b : Batch P) (s : Stores S R) (d : Bool)
      → b.host_id ≡ host
      → b.batch_id ≢ []
      → (env.idempotency.mark_seen host b.batch_id s.seen).1 ≡ some d
      → is_seen host b.batch_id (take_batch env host b s).0.seen ≡ true
  unfolding take_batch
  take_batch_records host b s d own named e =
      rw ((list_beq_iff b.host_id host).1 own) (elim (Bool-cases (b.batch_id ≟ [])) [
        | inl unnamed ↦ absurd (named ((list_beq_iff b.batch_id []).0 unnamed))
        | inr n ↦
            rw (n, marked-keeps host b s (env.idempotency.mark_seen host b.batch_id s.seen))
              (env.idempotency.marks host b.batch_id s.seen d e)
      ])

  -- A batch that the receiver could not store is lost, if it is the host's own and has an
  -- identifier: the request that first carried it is answered 500, and when it is sent again,
  -- after any further requests, and the check of identifiers does not fail, it is taken for a
  -- duplicate, is answered as one, and does not reach the receiver.
  pub retry_after_failure :
      (q q' : Request) (qs : List Request) (s : Stores S R) (host : Text) (b : Batch P) (d : Bool)
      → Carries env q host b
      → Carries env q' host b
      → b.host_id ≡ host
      → b.batch_id ≢ []
      → (env.idempotency.mark_seen host b.batch_id s.seen).1 ≡ some false
      → (env.receive_batch host b s.receiver).1 ≡ false
      → (env.idempotency.mark_seen host b.batch_id (handle_all qs (handle_ingest env q s).0).seen).1
        ≡ some d
      → ((handle_ingest env q s).1 ≡ http_error 500 (codes "storing batch"))
        × ((handle_ingest env q' (handle_all qs (handle_ingest env q s).0)).1
            ≡ respond env b.batch_id true)
        × ((handle_ingest env q' (handle_all qs (handle_ingest env q s).0)).0.receiver
            ≡ (handle_all qs (handle_ingest env q s).0).receiver)
  retry_after_failure q q' qs s host b d c c' own named new fails again =
      let t = handle_all qs (handle_ingest env q s).0 in
      let first = Carries-take_batch env q s host b c in
      let second = Carries-take_batch env q' t host b c' in
      let recorded : is_seen host b.batch_id (handle_ingest env q s).0.seen ≡ true =
        ap (λ r. is_seen host b.batch_id r.0.seen) first
        ∙ take_batch_records host b s false own named new in
      let known = handle_all-keeps qs (handle_ingest env q s).0 host b.batch_id recorded in
      let r = take_batch_known host b t own named known d again in
      (
        ap (λ x. x.1) first ∙ take_batch_failed host b s own named new fails,
        ap (λ x. x.1) second ∙ r.0,
        ap (λ x. x.0.receiver) second ∙ r.1,
      )
