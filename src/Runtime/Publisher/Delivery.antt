-- ===== src/Runtime/Publisher/Delivery.antt =====
-- What subscribers receive of a task whose stream has one last event.
use mathlib.Core.Path.{subst}
use oriion.Prelude.{
  ℕ, Bool, true, false, ◌≡◌, refl, sym, ap, ◌∙◌, inl, inr, Option, none, some, List, [], ◌∷◌, ◌++◌,
  map, append_assoc, ◌==◌, All, arith, Bool-cases, if◌then◌else◌,
}
use oriion.Runtime.Events.{TaskStreamEvent, is_last, goes_on}
use oriion.Runtime.Publisher.{
  Channel, no_channel, sentinel_if, put_on, publish_on, subscribe_on, Publisher, PublisherCall,
  publishes, subscribes, call, calls, received,
}

-- What the calls publish of one task, in order.
abbrev pub published_of : ℕ → List PublisherCall → List TaskStreamEvent
published_of id [] = []
published_of id (publishes e ∷ cs) =
    let rest = published_of id cs in if id == e.task_id then e ∷ rest else rest
published_of id (subscribes k ∷ cs) = published_of id cs

-- A stream that has ended: its last event ends it, and none before.
pub record IsLedger (es : List TaskStreamEvent) : Type 0 where
  pub body : List TaskStreamEvent
  pub last : TaskStreamEvent
  pub is : es ≡ body ++ last ∷ []
  pub body_goes_on : All (λ e. goes_on e ≡ true) body
  pub last_ends : is_last last ≡ true

abbrev AllAre : {A : Type 0} → A → List A → Type 0
AllAre a = All (λ q. q ≡ a)

AllAre-snoc :
    {A : Type 0} (a : A) (qs : List A) (q : A) → AllAre a qs → q ≡ a → AllAre a (qs ++ q ∷ [])
AllAre-snoc a [] q h e = (e, tt)
AllAre-snoc a (x ∷ qs) q h e = (h.0, AllAre-snoc a qs q h.1 e)

queue-snoc :
    (es : List TaskStreamEvent) (e : TaskStreamEvent) (end : List (Option TaskStreamEvent))
    → map some (es ++ e ∷ []) ++ end ≡ map some es ++ some e ∷ end
queue-snoc [] e end = refl
queue-snoc (x ∷ es) e end = ap (λ xs. some x ∷ xs) (queue-snoc es e end)

-- A channel on which the events have been published: `over` says whether the last of them was one
-- that ends the stream.
record Holds (over : Bool) (es : List TaskStreamEvent) (c : Channel) : Type 0 where
  drained : c.drain ≡ es
  marked : c.completed ≡ over
  queued : AllAre (map some es ++ sentinel_if over) c.queues

subscribe_on-Holds :
    (over : Bool) (es : List TaskStreamEvent) (c : Channel)
    → Holds over es c
    → Holds over es (subscribe_on c)
unfolding subscribe_on
subscribe_on-Holds over es c h = record {
  drained = h.drained;
  marked = h.marked;
  queued = AllAre-snoc _ c.queues _ h.queued (cc (h.drained, h.marked));
}

put_on-AllAre :
    (over : Bool) (e : TaskStreamEvent) (es : List TaskStreamEvent)
    (qs : List (List (Option TaskStreamEvent)))
    → AllAre (map some es ++ []) qs
    → AllAre (map some (es ++ e ∷ []) ++ sentinel_if over) (put_on over e qs)
unfolding put_on
put_on-AllAre over e es [] h = tt
put_on-AllAre over e es (q ∷ qs) h = (
  ap (λ (xs : List (Option TaskStreamEvent)). xs ++ some e ∷ sentinel_if over) h.0
      ∙ append_assoc (map some es) [] (some e ∷ sentinel_if over)
      ∙ sym (queue-snoc es e (sentinel_if over)),
  put_on-AllAre over e es qs h.1,
)

publish_on-Holds :
    (e : TaskStreamEvent) (es : List TaskStreamEvent) (c : Channel)
    → Holds false es c
    → Holds (is_last e) (es ++ e ∷ []) (publish_on e c)
unfolding publish_on
publish_on-Holds e es c h = rw h.marked (record {
  drained = ap (λ (xs : List TaskStreamEvent). xs ++ e ∷ []) h.drained;
  marked = refl;
  queued = put_on-AllAre (is_last e) e es c.queues h.queued;
})

module _ (id : ℕ) where
  call_other :
      (e : TaskStreamEvent) (p : Publisher)
      → (id == e.task_id) ≡ false
      → call (publishes e) p id ≡ p id
  unfolding call
  call_other e p h = rw h refl

  call_own :
      (e : TaskStreamEvent) (p : Publisher)
      → (id == e.task_id) ≡ true
      → call (publishes e) p id ≡ publish_on e (p id)
  unfolding call
  call_own e p h = rw h refl

  call_subscribes :
      (k : ℕ) (over : Bool) (es : List TaskStreamEvent) (p : Publisher)
      → Holds over es (p id)
      → Holds over es (call (subscribes k) p id)
  unfolding call
  call_subscribes k over es p h = elim (Bool-cases (id == k)) [
    | inl y ↦ rw y (subscribe_on-Holds over es (p id) h)
    | inr n ↦ rw n h
  ]

  -- After the last event only subscriptions of the task are left.
  calls_after :
      (cs : List PublisherCall) (es : List TaskStreamEvent) (p : Publisher)
      → published_of id cs ≡ []
      → Holds true es (p id)
      → Holds true es (calls cs p id)
  unfolding calls
  calls_after [] es p e h = h
  calls_after (subscribes k ∷ cs) es p e h =
      calls_after cs es (call (subscribes k) p) e (call_subscribes k true es p h)
  calls_after (publishes x ∷ cs) es p e h = elim (Bool-cases (id == x.task_id)) [
    | inl own ↦ ground (arith, e, own)
    | inr other ↦
        calls_after cs es (call (publishes x) p) (ground (arith, e, other))
          (rw (call_other x p other) h)
  ]

  own_published :
      (x : TaskStreamEvent) (cs : List PublisherCall) (es : List TaskStreamEvent)
      → (id == x.task_id) ≡ true
      → published_of id (publishes x ∷ cs) ≡ es
      → x ∷ published_of id cs ≡ es
  own_published x cs es own e = ground (arith, own, e)

  -- One event of the task, the last or not; `next` is the rest of the calls.
  calls_own :
      (x : TaskStreamEvent) (cs : List PublisherCall) (es more : List TaskStreamEvent)
      (last : TaskStreamEvent) (p : Publisher)
      → x ∷ published_of id cs ≡ more ++ last ∷ []
      → All (λ e. goes_on e ≡ true) more
      → is_last last ≡ true
      → Holds (is_last x) (es ++ x ∷ []) (p id)
      → ((es' more' : List TaskStreamEvent)
          → published_of id cs ≡ more' ++ last ∷ []
          → All (λ e. goes_on e ≡ true) more'
          → Holds false es' (p id)
          → Holds true (es' ++ (more' ++ last ∷ [])) (calls cs p id))
      → Holds true (es ++ (more ++ last ∷ [])) (calls cs p id)
  calls_own x cs es [] last p e g l h next =
      let same : x ≡ last = ground (arith, e) in
      let none_left : published_of id cs ≡ [] = ground (arith, e) in
      calls_after cs (es ++ last ∷ []) p none_left (
        subst (λ (b : Bool). Holds b (es ++ last ∷ []) (p id)) l
          (subst (λ (y : TaskStreamEvent). Holds (is_last y) (es ++ y ∷ []) (p id)) same h))
  calls_own x cs es (m ∷ more) last p e g l h next =
      let same : x ≡ m = ground (arith, e) in
      let left : published_of id cs ≡ more ++ last ∷ [] = ground (arith, e) in
      let h' = subst (λ (y : TaskStreamEvent). Holds (is_last y) (es ++ y ∷ []) (p id)) same h in
      let not_last : is_last m ≡ false = ground (arith, g.0) in
      subst (λ (xs : List TaskStreamEvent). Holds true xs (calls cs p id))
        (append_assoc es (m ∷ []) (more ++ last ∷ []))
        (next (es ++ m ∷ []) more left g.1
          (subst (λ (b : Bool). Holds b (es ++ m ∷ []) (p id)) not_last h'))

  nothing_left :
      (more : List TaskStreamEvent) (last : TaskStreamEvent)
      → ◌≡◌ {A = List TaskStreamEvent} [] (more ++ last ∷ [])
      → ⊥
  nothing_left [] last e = ground (arith, e)
  nothing_left (m ∷ more) last e = ground (arith, e)

  calls_before :
      (cs : List PublisherCall) (es more : List TaskStreamEvent) (last : TaskStreamEvent)
      (p : Publisher)
      → published_of id cs ≡ more ++ last ∷ []
      → All (λ e. goes_on e ≡ true) more
      → is_last last ≡ true
      → Holds false es (p id)
      → Holds true (es ++ (more ++ last ∷ [])) (calls cs p id)
  unfolding calls
  calls_before [] es more last p e g l h = absurd (nothing_left more last e)
  calls_before (subscribes k ∷ cs) es more last p e g l h =
      calls_before cs es more last (call (subscribes k) p) e g l (call_subscribes k false es p h)
  calls_before (publishes x ∷ cs) es more last p e g l h = elim (Bool-cases (id == x.task_id)) [
    | inl own ↦
        calls_own x cs es more last (call (publishes x) p) (own_published x cs _ own e) g l
          (rw (call_own x p own) (publish_on-Holds x es (p id) h))
          (λ es' more' e' g' h'. calls_before cs es' more' last (call (publishes x) p) e' g' l h')
    | inr other ↦
        calls_before cs es more last (call (publishes x) p) (ground (arith, e, other)) g l
          (rw (call_other x p other) h)
  ]

received_all : (es : List TaskStreamEvent) → received (map some es ++ none ∷ []) ≡ (es, true)
unfolding received
received_all [] = refl
received_all (e ∷ es) = rw (received_all es) refl

All-map :
    {A : Type 0} {P Q : A → Type 0} (qs : List A) → ((a : A) → P a → Q a) → All P qs → All Q qs
All-map [] f h = tt
All-map (q ∷ qs) f h = (f q h.0, All-map qs f h.1)

-- In whatever order the events of a task are published and its subscribers come, among calls for
-- other tasks too: where the events published are a ledger, every subscriber receives all of it, in
-- order, and stops, also one that came after the end.
pub calls_deliver :
    (id : ℕ) (cs : List PublisherCall)
    → IsLedger (published_of id cs)
    → All (λ q. received q ≡ (published_of id cs, true)) (calls cs (λ _. no_channel) id).queues
calls_deliver id cs l =
    let held : Holds true (l.body ++ l.last ∷ []) (calls cs (λ _. no_channel) id) =
      calls_before id cs [] l.body l.last (λ _. no_channel) l.is l.body_goes_on l.last_ends
        (record { drained = refl; marked = refl; queued = tt }) in
    All-map (calls cs (λ _. no_channel) id).queues
      (λ q e.
        ap received e
        ∙ received_all (l.body ++ l.last ∷ [])
        ∙ ap (λ (es : List TaskStreamEvent). (es, true)) (sym l.is))
      held.queued
