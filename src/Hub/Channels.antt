-- ===== src/Hub/Channels.antt =====
-- internal/stream/hub.go: what arrives on a subscription's channel, and when its `done` is closed.
use mathlib.Core.List.{append-nil, append_assoc}
use fragata.Base.{
  ℕ, suc, ◌+◌, ◌≤◌, ◌≡◌, refl, sym, ap, subst, ◌∙◌, ◌⊎◌, inl, inr, Bool, true, false, List, [], ◌∷◌,
  ◌++◌, Option, none, some, length, length-append, arith, ltb, if◌then◌else◌, Bool-cases,
}
use fragata.Hub.{Subscription, send, deliver, receive}

-- What the publisher and the consumer do with a subscription, one step at a time. A delivery carries
-- the runtime's choice.
pub data Event (A : Type 0) : Type 0 where
  delivers : Bool → A → Event A
  receives : Event A

module _ {A : Type 0} where
  -- A consumer's step, which goes on waiting where it finds nothing.
  unfoldable pub receive_next : Subscription A → List A × Subscription A
  receive_next s = elim (receive s) [ none ↦ ([], s) | some (a, s') ↦ (a ∷ [], s') ]

  -- What was received in the end, and the subscription then; `none` is a publisher that waits.
  unfoldable pub follow :
      List (Event A) → List A → Subscription A → Option (List A × Subscription A)
  follow [] got s = some (got, s)
  follow (delivers choice a ∷ events) got s = elim (deliver choice a s) [
    | none ↦ none
    | some s' ↦ follow events got s'
  ]
  follow (receives ∷ events) got s = follow events (got ++ (receive_next s).0) (receive_next s).1

  pub published : List (Event A) → List A
  published [] = []
  published (delivers choice a ∷ events) = a ∷ published events
  published (receives ∷ events) = published events

  -- The subscription after a delivery that found room.
  abbrev pub queued : A → Subscription A → Subscription A
  queued a s = record s { queue = s.queue ++ a ∷ [] }

  deliver-reliable :
      (choice : Bool) (a : A) (s : Subscription A)
      → s.reliable ≡ true
      → s.done ≡ false
      → deliver choice a s ≡ (if ltb (length s.queue) s.capacity then some (queued a s) else none)
  unfolding deliver send
  deliver-reliable choice a s r d = ground arith

  receive_next-queue :
      (s : Subscription A) → (receive_next s).0 ++ (receive_next s).1.queue ≡ s.queue
  unfolding receive_next receive
  receive_next-queue s = ground arith

  -- A consumer's step changes nothing but the queue, which it does not lengthen.
  receive_next-rest :
      (s : Subscription A)
      → ((receive_next s).1.reliable ≡ s.reliable)
        × ((receive_next s).1.done ≡ s.done)
        × ((receive_next s).1.capacity ≡ s.capacity)
        × (length (receive_next s).1.queue ≤ length s.queue)
  unfolding receive_next receive
  receive_next-rest s = ground arith

  deliver-rest :
      (choice : Bool) (a : A) (s s' : Subscription A)
      → deliver choice a s ≡ some s'
      → (s'.capacity ≡ s.capacity)
        × (s'.done ≡ s.done)
        × (s'.reliable ≡ s.reliable)
        × (length s.queue ≤ s.capacity → length s'.queue ≤ s.capacity)
  unfolding deliver send
  deliver-rest choice a s s' e = ground (arith, length-append s.queue (a ∷ []))

  moved :
      (got : List A) (s : Subscription A)
      → got ++ (receive_next s).0 ++ (receive_next s).1.queue ≡ got ++ s.queue
  moved got s = append_assoc got _ _ ∙ ap (got ++◌) (receive_next-queue s)

  added :
      (got queue : List A) (a : A) (more : List A)
      → got ++ (queue ++ a ∷ []) ++ more ≡ got ++ queue ++ a ∷ more
  added got queue a more =
      ap (λ front. front ++ more) (sym (append_assoc got queue (a ∷ [])))
      ∙ append_assoc (got ++ queue) (a ∷ []) more

  follow-delivers :
      (choice : Bool) (a : A) (events : List (Event A)) (got : List A) (s s' : Subscription A)
      → deliver choice a s ≡ some s'
      → follow (delivers choice a ∷ events) got s ≡ follow events got s'
  unfolding follow
  follow-delivers choice a events got s s' e = rw (follow, e) refl

  follow-waits :
      (choice : Bool) (a : A) (events : List (Event A)) (got : List A) (s : Subscription A)
      → deliver choice a s ≡ none
      → follow (delivers choice a ∷ events) got s ≡ none
  unfolding follow
  follow-waits choice a events got s e = rw (follow, e) refl

  -- Nothing that is published to a subscription of a recorder is lost, doubled or reordered, however
  -- the publisher's and the consumer's steps alternate: what was received and what still waits is
  -- what waited before and all that was published. The subscription is reliable and not done.
  pub follow-reliable :
      (events : List (Event A)) (got got' : List A) (s s' : Subscription A)
      → s.reliable ≡ true
      → s.done ≡ false
      → follow events got s ≡ some (got', s')
      → got' ++ s'.queue ≡ got ++ s.queue ++ published events
  unfolding follow published
  follow-reliable [] got got' s s' r d e = cc (append-nil (got ++ s.queue))
  follow-reliable (delivers choice a ∷ events) got got' s s' r d e =
      let delivered = deliver-reliable choice a s r d in
      elim (Bool-cases (ltb (length s.queue) s.capacity)) [
        | inl room ↦
            follow-reliable events got got' (queued a s) s' r d (
              sym (follow-delivers choice a events got s (queued a s) (delivered ∙ rw room refl))
              ∙ e)
            ∙ added got s.queue a (published events)
        | inr full ↦ absurd (cc (follow-waits choice a events got s (delivered ∙ rw full refl), e))
      ]
  follow-reliable (receives ∷ events) got got' s s' r d e =
      let rest = receive_next-rest s in
      follow-reliable events (got ++ (receive_next s).0) got' (receive_next s).1 s' (rest.0 ∙ r)
        (rest.1 ∙ d) e
      ∙ ap (λ front. front ++ published events) (moved got s)

  deliver-returns :
      (choice : Bool) (a : A) (s : Subscription A) (coming : ℕ)
      → s.done ≡ false
      → (s.reliable ≡ false) ⊎ (length s.queue + suc coming ≤ s.capacity)
      → (s' : Subscription A) × (deliver choice a s ≡ some s')
        × ((s'.reliable ≡ false) ⊎ (length s'.queue + coming ≤ s'.capacity))
  unfolding deliver send
  deliver-returns choice a s coming d (inl u) =
      elim (Bool-cases (ltb (length s.queue) s.capacity)) [
        | inl room ↦ (queued a s, ground arith, inl u)
        | inr full ↦ (s, ground arith, inl u)
      ]
  deliver-returns choice a s coming d (inr room) =
      (queued a s, ground arith, inr (omega (arith, length-append s.queue (a ∷ []))))

  -- The publisher never waits for a viewer; and it does not wait for a recorder as long as the room
  -- in the channel is enough for what is published, even if nothing is received. Either way the
  -- channel holds no more than its capacity.
  pub follow-returns :
      (events : List (Event A)) (got : List A) (s : Subscription A)
      → s.done ≡ false
      → length s.queue ≤ s.capacity
      → (s.reliable ≡ false) ⊎ (length s.queue + length (published events) ≤ s.capacity)
      → (got' : List A) × (s' : Subscription A) × (follow events got s ≡ some (got', s'))
        × (length s'.queue ≤ s.capacity)
  unfolding follow published
  follow-returns [] got s d bound room = (got, s, refl, bound)
  follow-returns (delivers choice a ∷ events) got s d bound room =
      let (s', e, room') = deliver-returns choice a s (length (published events)) d room in
      let (c, same, r, b) = deliver-rest choice a s s' e in
      let (got', s'', e', bound') =
        follow-returns events got s' (same ∙ d) (rw c (b bound)) room' in
      (
        got',
        s'',
        follow-delivers choice a events got s s' e ∙ e',
        subst (λ n. length s''.queue ≤ n) c bound',
      )
  follow-returns (receives ∷ events) got s d bound room =
      let (r, same, c, l) = receive_next-rest s in
      let (got', s'', e', bound') =
        follow-returns events (got ++ (receive_next s).0) (receive_next s).1 (same ∙ d)
          (omega (arith, c, l, bound))
          (elim room [ inl u ↦ inl (r ∙ u) | inr k ↦ inr (omega (arith, c, l, k)) ]) in
      (got', s'', e', subst (λ n. length s''.queue ≤ n) c bound')
