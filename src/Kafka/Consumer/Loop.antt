-- ===== src/Kafka/Consumer/Loop.antt =====
-- The loop over the messages of a claim handles and marks them all, up to one that is nil.
use vuln4shift_backend.Prelude.{
  ℕ, ◌+◌, ◌^◌, ◌<◌, ◌≡◌, refl, ap, ◌∙◌, Option, none, some, List, [], ◌∷◌, length, arith, Result,
  ok, err, inl, inr, Option-cases, if◌then◌else◌, Bool, true, false,
}
use vuln4shift_backend.Prelude.Action.{each, continue}
use vuln4shift_backend.Kafka.Consumer.{
  KafkaConsumer, Panic, marking, Processor, count, handle_message, mark_message, consume_message,
  consume_claim, increment_number_of_successfully_consumed_messages,
  increment_number_of_errors_consuming_messages,
}

-- The messages up to the first one that is nil, and whether there is one.
abbrev pub delivered : {M : Type 0} → List (Option M) → List M
delivered [] = []
delivered (none ∷ messages) = []
delivered (some m ∷ messages) = m ∷ delivered messages

abbrev pub has_nil : {M : Type 0} → List (Option M) → Bool
has_nil [] = false
has_nil (none ∷ messages) = true
has_nil (some m ∷ messages) = has_nil messages

-- Some messages processed once each and in order.
abbrev pub processed : {S M E : Type 0} → Processor S M E → List M → S → S
processed process [] s = s
processed process (m ∷ messages) s = processed process messages (process m s).0

-- What the library is taken to do with a message that is marked: `MarkMessage` reads its topic, its
-- partition and its offset, so that it panics on nil, and on no message else.
pub record MarkLaws {M W : Type 0} (mark : Option M → W → Option W) : Type 0 where
  pub marked : M → W → W
  pub marks : (m : M) (w : W) → mark (some m) w ≡ some (marked m w)
  pub panics : (w : W) → mark none w ≡ none

abbrev pub all_marked : {M W : Type 0} → (M → W → W) → List M → W → W
all_marked marked [] w = w
all_marked marked (m ∷ messages) w = all_marked marked messages (marked m w)

abbrev pub consumed : {S W : Type 0} → KafkaConsumer S W → ℕ
consumed c = c.number_of_successfully_consumed_messages + c.number_of_errors_consuming_messages

-- What the loop leaves, from a consumer `c`.
pub record HasConsumed {S W M E : Type 0} (process : Processor S M E) (marked : M → W → W)
    (messages : List (Option M)) (c : KafkaConsumer S W)
    (r : KafkaConsumer S W × Result Panic (Unit {0})) : Type 0 where
  pub ended : r.1 ≡ (if has_nil messages then err marking else ok tt)
  pub session : r.0.session ≡ all_marked marked (delivered messages) c.session
  pub state : r.0.processor_state ≡ processed process (delivered messages) c.processor_state
  pub counted : consumed r.0 ≡ consumed c + length (delivered messages)

module _ {S W M E : Type 0} (process : Processor S M E) (mark : Option M → W → Option W)
    (laws : MarkLaws mark) where
  open laws use {marked, marks, panics}

  -- One round of the loop, at a message.
  abbrev after : M → KafkaConsumer S W → KafkaConsumer S W
  after m c = (consume_message mark (some process) (some m) c).0

  after-step :
      (m : M) (c : KafkaConsumer S W)
      → consume_message mark (some process) (some m) c ≡ (after m c, ok tt)
  unfolding consume_message handle_message mark_message count
      increment_number_of_successfully_consumed_messages
      increment_number_of_errors_consuming_messages
  after-step m c = elim (Option-cases (process m c.processor_state).1) [
    | inl fine ↦ ground (arith, fine, marks m c.session)
    | inr (e, failed) ↦ ground (arith, failed, marks m c.session)
  ]

  after-counted :
      (m : M) (c : KafkaConsumer S W)
      → consumed c + 1 < 2 ^ 64
      → consumed (after m c) ≡ consumed c + 1
  unfolding consume_message handle_message mark_message count
      increment_number_of_successfully_consumed_messages
      increment_number_of_errors_consuming_messages
  after-counted m c room = elim (Option-cases (process m c.processor_state).1) [
    | inl fine ↦ ground (arith, fine, marks m c.session)
    | inr (e, failed) ↦ ground (arith, failed, marks m c.session)
  ]

  after-session : (m : M) (c : KafkaConsumer S W) → (after m c).session ≡ marked m c.session
  unfolding consume_message handle_message mark_message count
      increment_number_of_successfully_consumed_messages
      increment_number_of_errors_consuming_messages
  after-session m c = elim (Option-cases (process m c.processor_state).1) [
    | inl fine ↦ ground (arith, fine, marks m c.session)
    | inr (e, failed) ↦ ground (arith, failed, marks m c.session)
  ]

  after-state :
      (m : M) (c : KafkaConsumer S W)
      → (after m c).processor_state ≡ (process m c.processor_state).0
  unfolding consume_message handle_message mark_message count
      increment_number_of_successfully_consumed_messages
      increment_number_of_errors_consuming_messages
  after-state m c = elim (Option-cases (process m c.processor_state).1) [
    | inl fine ↦ ground (arith, fine, marks m c.session)
    | inr (e, failed) ↦ ground (arith, failed, marks m c.session)
  ]

  loop-step :
      (m : M) (messages : List (Option M)) (c : KafkaConsumer S W)
      → consume_claim mark (some process) (some m ∷ messages) c
        ≡ consume_claim mark (some process) messages (after m c)
  unfolding consume_claim each
  loop-step m messages c =
      ap (continue (λ _. consume_claim mark (some process) messages)) (after-step m c)

  nil-step : (c : KafkaConsumer S W) → consume_message mark (some process) none c ≡ (c, err marking)
  unfolding consume_message handle_message mark_message
  nil-step c = ground (arith, panics c.session)

  loop-nil :
      (messages : List (Option M)) (c : KafkaConsumer S W)
      → consume_claim mark (some process) (none ∷ messages) c ≡ (c, err marking)
  unfolding consume_claim each
  loop-nil messages c = ap (continue (λ _. consume_claim mark (some process) messages)) (nil-step c)

  -- With a processor, while the counters have room, and where MarkMessage panics on nil and on no
  -- message else, the loop over the messages of a claim ends: every message up to the first one that
  -- is nil, whatever its processing comes to, is processed once and marked once, both in order, and
  -- counted once. There is no error if no message is nil, and otherwise the panic of marking that one.
  pub consume_claim-HasConsumed :
      (messages : List (Option M)) (c : KafkaConsumer S W)
      → consumed c + length (delivered messages) < 2 ^ 64
      → HasConsumed process marked messages c (consume_claim mark (some process) messages c)
  unfolding consume_claim each
  consume_claim-HasConsumed [] c room = record {
    ended = refl;
    session = refl;
    state = refl;
    counted = omega arith;
  }
  consume_claim-HasConsumed (none ∷ messages) c room =
      let stop = loop-nil messages c in
      record {
        ended = ap (λ r. r.1) stop;
        session = ap (λ r. r.0.session) stop;
        state = ap (λ r. r.0.processor_state) stop;
        counted = omega (arith, ap (λ r. consumed r.0) stop);
      }
  consume_claim-HasConsumed (some m ∷ messages) c room =
      let one = after-counted m c (omega (arith, room)) in
      let h = consume_claim-HasConsumed messages (after m c) (omega (arith, one, room)) in
      let same = loop-step m messages c in
      record {
        ended = ap (λ r. r.1) same ∙ h.ended;
        session =
            ap (λ r. r.0.session) same
            ∙ h.session
            ∙ ap (all_marked marked (delivered messages)) (after-session m c);
        state =
            ap (λ r. r.0.processor_state) same
            ∙ h.state
            ∙ ap (processed process (delivered messages)) (after-state m c);
        counted = omega (arith, ap (λ r. consumed r.0) same, h.counted, one);
      }
