-- ===== src/Wire/Packing.antt =====
-- internal/agentbuffer/transportsender.go: what the loop of ItemsToBatch puts into each list.
use bitacora.Base.{
  ℕ, ◌+◌, ◌≡◌, refl, sym, ap, ◌∙◌, List, [], ◌∷◌, ◌++◌, map, append-nil, append_assoc,
  if◌then◌else◌, All,
}
use bitacora.Schema.Types.{Metric, Event, LogLine}
use bitacora.AgentBuffer.Segment.{Item, Payload, of_metric, of_event, of_log_line, of_inventory}
use bitacora.Wire.Messages.{BatchMessage}
use bitacora.Wire.Sender.{metric_to_proto, event_to_proto, log_line_to_proto, pack, pack_all}
use bitacora.Wire.Receiver.{Appender, write_all}

abbrev pub metric_in : Payload → List Metric
metric_in (of_metric m) = m ∷ []
metric_in _ = []

abbrev pub event_in : Payload → List Event
event_in (of_event e) = e ∷ []
event_in _ = []

abbrev pub log_line_in : Payload → List LogLine
log_line_in (of_log_line l) = l ∷ []
log_line_in _ = []

-- the records of one kind among the items, in order
abbrev pub gather_from {ℓ} : {A : Type ℓ} → (Payload → List A) → List Item → List A
gather_from pick [] = []
gather_from pick (it ∷ its) = pick it.payload ++ gather_from pick its

-- Every record is written once, in order, whatever the writes before answered; failures are counted.
unfoldable pub store_all : {A S : Type 0} → Appender A S → List A → S × ℕ → S × ℕ
store_all store [] s = s
store_all store (a ∷ rest) (s, drops) =
    let w = store.write a s in store_all store rest (w.0, (if w.1 then drops else drops + 1))

pub write_all-map :
    {P A S B : Type 0} (convert : P → A) (send : B → P) (arrive : B → A) (store : Appender A S)
    (bs : List B) (s : S × ℕ)
    → All (λ b. convert (send b) ≡ arrive b) bs
    → write_all convert store (map send bs) s ≡ store_all store (map arrive bs) s
unfolding write_all store_all
write_all-map convert send arrive store [] s h = refl
write_all-map convert send arrive store (b ∷ bs) (s, drops) h =
    let e : convert (send b) ≡ arrive b = h.0 in
    let w = store.write (arrive b) s in
    ap
      (λ a.
        let v = store.write a s in
        write_all convert store (map send bs) (v.0, (if v.1 then drops else drops + 1)))
      e
    ∙ (write_all-map convert send arrive store bs (w.0, (if w.1 then drops else drops + 1)) h.1)

-- what the loop of ItemsToBatch adds to each list
pub pack-metrics :
    (p : Payload) (b : BatchMessage)
    → (pack p b).metrics ≡ b.metrics ++ map metric_to_proto (metric_in p)
unfolding pack
pack-metrics (of_metric m) b = refl
pack-metrics (of_event e) b = sym (append-nil b.metrics)
pack-metrics (of_log_line l) b = sym (append-nil b.metrics)
pack-metrics (of_inventory i) b = sym (append-nil b.metrics)

pub pack-events :
    (p : Payload) (b : BatchMessage)
    → (pack p b).events ≡ b.events ++ map event_to_proto (event_in p)
unfolding pack
pack-events (of_metric m) b = sym (append-nil b.events)
pack-events (of_event e) b = refl
pack-events (of_log_line l) b = sym (append-nil b.events)
pack-events (of_inventory i) b = sym (append-nil b.events)

pub pack-log_lines :
    (p : Payload) (b : BatchMessage)
    → (pack p b).log_lines ≡ b.log_lines ++ map log_line_to_proto (log_line_in p)
unfolding pack
pack-log_lines (of_metric m) b = sym (append-nil b.log_lines)
pack-log_lines (of_event e) b = sym (append-nil b.log_lines)
pack-log_lines (of_log_line l) b = refl
pack-log_lines (of_inventory i) b = sym (append-nil b.log_lines)

pub map-append :
    {A B : Type 0} (f : A → B) (xs ys : List A) → map f (xs ++ ys) ≡ map f xs ++ map f ys
map-append f [] ys = refl
map-append f (x ∷ xs) ys = ap (◌∷◌ (f x)) (map-append f xs ys)

-- a list of the batch that every item adds to
module _ {M A : Type 0} (field : BatchMessage → List M) (send : A → M) (pick : Payload → List A)
    (step : (p : Payload) (b : BatchMessage)
      → field (pack p b) ≡ field b ++ map send (pick p)) where
  pub pack_all_list :
      (its : List Item) (b : BatchMessage)
      → field (pack_all its b) ≡ field b ++ map send (gather_from pick its)
  unfolding pack_all
  pack_all_list [] b = sym (append-nil (field b))
  pack_all_list (it ∷ its) b =
      pack_all_list its (pack it.payload b)
      ∙ ap (λ x. x ++ map send (gather_from pick its)) (step it.payload b)
      ∙ append_assoc (field b) (map send (pick it.payload)) (map send (gather_from pick its))
      ∙ ap (◌++◌ (field b)) (sym (map-append send (pick it.payload) (gather_from pick its)))

-- one store's loop over what an empty batch became
pub offered :
    {P A S : Type 0} (store : Appender A S) (field : BatchMessage → List P) (send : A → P)
    (convert : P → A) (arrive : A → A) (pick : Payload → List A)
    → ((p : Payload) (b : BatchMessage) → field (pack p b) ≡ field b ++ map send (pick p))
    → (its : List Item) (b : BatchMessage) → field b ≡ []
    → (s : S × ℕ) → All (λ a. convert (send a) ≡ arrive a) (gather_from pick its)
    → write_all convert store (field (pack_all its b)) s
      ≡ store_all store (map arrive (gather_from pick its)) s
offered store field send convert arrive pick step its b e s h =
    ap (λ ps. write_all convert store ps s)
      (pack_all_list field send pick step its b
        ∙ ap (λ ps. ps ++ map send (gather_from pick its)) e)
    ∙ write_all-map convert send arrive store (gather_from pick its) s h
