-- ===== src/Requests/Laws.antt =====
-- The cache's invariant, and what its methods change.
use gcosmos.Base.{
  ℕ, suc, ◌<◌, ◌≡◌, ◌≢◌, ◌↔◌, ◌⊎◌, refl, true, List, Option, none, some, arith, Bytes, lookup, put,
  lookup-put, lookup-remove, nat_key, bytes_key, bytes_beq, bytes_beq_iff, if◌then◌else◌, ok, panic,
  Option-cases, inl, inr,
}
use gcosmos.Requests.{
  BlockDataRequest, RequestCache, set_in_flight, set_immediately_available, purge, get, behind,
  request_at,
}

module _ {Tx : Type 0} where
  -- No entry is nil, and pointers lead to objects that were allocated.
  pub record IsSound (c : RequestCache Tx) : Type 0 where
    pub pointers :
        (id : Bytes) (p : Option ℕ)
        → lookup id c.rs ≡ some p
        → (q : ℕ) × (p ≡ some q) × (q < c.next)

  module _ (c : RequestCache Tx) (s : IsSound c) where
    -- A lookup does not panic: it answers with a pointer exactly if there is an entry.
    get_total : (id : Bytes) → (r : Option ℕ) × (get id c ≡ ok r)
    unfolding get
    get_total id = elim (Option-cases (lookup id c.rs)) [
      | inl e ↦ (none, rw e)
      | inr (p, e) ↦ let (q, is, lt) = s.pointers id p e in (some q, rw (e, is))
    ]

  module _ (c : RequestCache Tx) (s : IsSound c) (req : BlockDataRequest Tx) (id : Bytes) where
    -- A new object under a free ID.
    unfoldable with_new : RequestCache Tx
    with_new = record {
      rs = put id (some c.next) c.rs;
      heap = put c.next req c.heap;
      next = suc c.next;
    }

    behind-old :
        (o : Option (Option ℕ))
        → ((p : Option ℕ) → o ≡ some p → (q : ℕ) × (p ≡ some q) × (q < c.next))
        → behind with_new o ≡ behind c o
    unfolding with_new
    behind-old none h = refl
    behind-old (some none) h = refl
    behind-old (some (some p)) h = ground (arith, h (some p), lookup-put c.next p req c.heap)

    request_at-with_new :
        (j : Bytes) → request_at with_new j ≡ (if bytes_beq id j then some req else request_at c j)
    unfolding with_new
    request_at-with_new j = ground (
      arith,
      lookup-put id j (some c.next) c.rs,
      lookup-put c.next c.next req c.heap,
      behind-old (lookup j c.rs) (s.pointers j),
    )

    with_new-IsSound : IsSound with_new
    unfolding with_new
    with_new-IsSound = record {
      pointers = λ j p e. ground (arith, lookup-put id j (some c.next) c.rs, s.pointers j p);
    }

  -- A request that is added to a sound cache without a panic took a free ID. It is found under it
  -- complete and ready, the other IDs lead to what they led to, and the cache stays sound.
  pub set_immediately_available_lem :
      (id j : Bytes) (txs : List Tx) (encoded : Bytes) (c d : RequestCache Tx)
      → IsSound c
      → set_immediately_available id txs encoded c ≡ ok d
      → (lookup id c.rs ≡ none)
        × (request_at d j ≡ (
            if bytes_beq id j
            then some (record { ready = true; transactions = txs; encoded_transactions = encoded })
            else request_at c j))
        × IsSound d
  unfolding set_immediately_available with_new
  set_immediately_available_lem id j txs encoded c d s e =
      let req : BlockDataRequest Tx = record {
        ready = true;
        transactions = txs;
        encoded_transactions = encoded;
      } in
      elim (Option-cases (lookup id c.rs)) [
        | inl free ↦
            let is_new : d ≡ with_new c s req id = ground arith in
            (
              free,
              rw is_new (request_at-with_new c s req id j),
              rw is_new (with_new-IsSound c s req id),
            )
        | inr (old, taken) ↦ absurd (ground arith)
      ]

  -- What was made available once cannot be made available again under the same ID.
  pub set_immediately_available_twice :
      (id : Bytes) (txs txs' : List Tx) (encoded encoded' : Bytes) (c d : RequestCache Tx)
      → set_immediately_available id txs encoded c ≡ ok d
      → set_immediately_available id txs' encoded' d ≡ panic
  unfolding set_immediately_available
  set_immediately_available_twice id txs txs' encoded encoded' c d e =
      elim (Option-cases (lookup id c.rs)) [
        | inl free ↦ ground (arith, lookup-put id id (some c.next) c.rs, bytes_beq_iff id id)
        | inr (old, taken) ↦ absurd (ground arith)
      ]

  -- To set a request in flight panics exactly if the request is nil or the cache has an entry
  -- under the ID.
  set_in_flight_panics :
      (id : Bytes) (p : Option ℕ) (c : RequestCache Tx)
      → (set_in_flight id p c ≡ panic) ↔ ((p ≡ none) ⊎ (lookup id c.rs ≢ none))
  unfolding set_in_flight
  set_in_flight_panics id none c = (λ e. inl refl, λ e. refl)
  set_in_flight_panics id (some p) c = elim (Option-cases (lookup id c.rs)) [
    | inl free ↦ (λ e. ground arith, λ e. ground arith)
    | inr (old, taken) ↦ (λ e. inr (λ f. ground arith), λ e. ground arith)
  ]

  -- A purge of a sound cache that does not panic was of an ID that is there; it removes that entry
  -- and no other, and the cache stays sound.
  pub purge_lem :
      (id j : Bytes) (c d : RequestCache Tx)
      → IsSound c
      → purge id c ≡ ok d
      → (lookup id c.rs ≢ none)
        × (request_at d j ≡ (if bytes_beq id j then none else request_at c j))
        × IsSound d
  unfolding purge
  purge_lem id j c d s e = elim (Option-cases (lookup id c.rs)) [
    | inl free ↦ absurd (ground arith)
    | inr (old, taken) ↦ (
      λ f. ground arith,
      ground (arith, lookup-remove id j c.rs),
      record { pointers = λ k p at. ground (arith, lookup-remove id k c.rs, s.pointers k p) },
    )
  ]
