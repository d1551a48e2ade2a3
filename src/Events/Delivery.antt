-- ===== src/Events/Delivery.antt =====
-- `Publish`, `Subscribe` and `Unsubscribe` of aegis/internal/grpc/eventbus.go: the invariant of a bus.
use abraxis.Base.{
  ℕ, ◌+◌, ◌≤◌, ◌<◌, ◌≡◌, inl, inr, sym, ap, ◌∙◌, Text, true, false, some, length, ◌==◌, lookup,
  IsDict, insert-IsDict, erase-IsDict, All, All-insert, All-erase, if◌then◌else◌, arith, Bool-cases,
  Option-cases,
}
use abraxis.Events.Bus.{Channel, Bus, put, subscribe, unsubscribe, offered, versioned, publish}
use abraxis.Events.Subscribers.{
  uses, Distinct, fresh_unused, uses-insert, uses-erase, Distinct-insert, Distinct-erase, uses_made,
  All-made, lookup-uses, uses-erase_same, uses-insert_same,
}

-- Every key has one channel, of its own, that was made and is open, and no queue exceeds the
-- capacity.
pub record IsValid {A : Type 0} (b : Bus A) : Type 0 where
  pub dict : IsDict b.subscribers
  pub distinct : Distinct b.subscribers
  pub made_before : All (λ p. p.1 < b.made) b.subscribers
  pub open_ : (n : ℕ) → uses n b.subscribers ≡ true → (b.channels n).closed ≡ false
  pub bounded : (n : ℕ) → length (b.channels n).queue ≤ b.capacity

module _ {A : Type 0} where
  put_other :
      (n k : ℕ) (c : Channel A) (channels : ℕ → Channel A)
      → n == k ≡ false
      → put k c channels n ≡ channels n
  put_other n k c channels h = ground arith

  put_same :
      (n k : ℕ) (c : Channel A) (channels : ℕ → Channel A) → n == k ≡ true → put k c channels n ≡ c
  put_same n k c channels h = ground arith

  -- What a publication does to every channel.
  pub record Published (content : A) (b b' : Bus A) : Type 0 where
    pub publishes : publish content b ≡ some b'
    pub valid : IsValid b'
    pub same_subscribers : b'.subscribers ≡ b.subscribers
    pub delivers :
        (n : ℕ)
        → b'.channels n ≡ (
            if uses n b.subscribers
            then offered b.capacity (versioned content b) (b.channels n)
            else b.channels n)

  put_bounded :
      (k : ℕ) (c : Channel A) (b : Bus A)
      → ((n : ℕ) → length (b.channels n).queue ≤ b.capacity)
      → length c.queue ≤ b.capacity
      → (n : ℕ) → length (put k c b.channels n).queue ≤ b.capacity
  put_bounded k c b all one n = elim (Bool-cases (n == k)) [
    | inl same ↦ rw (put_same n k c b.channels same) one
    | inr other ↦ rw (put_other n k c b.channels other) (all n)
  ]

  -- `Subscribe` keeps the bus valid.
  pub subscribe-IsValid : (id : Text) (b : Bus A) → IsValid b → IsValid (subscribe id b).0
  unfolding subscribe
  subscribe-IsValid id b v = record {
    dict = insert-IsDict id b.made b.subscribers v.dict;
    distinct =
        Distinct-insert b.made id b.subscribers (fresh_unused b.made b.subscribers v.made_before)
          v.distinct;
    made_before =
        All-insert (λ p. p.1 < b.made + 1) id b.made b.subscribers (omega arith)
          (All-made b.made b.subscribers v.made_before);
    open_ = λ n h. elim (Bool-cases (n == b.made)) [
      | inl same ↦ ap (λ c. c.closed) (put_same n b.made _ b.channels same)
      | inr other ↦
          ap (λ c. c.closed) (put_other n b.made _ b.channels other)
          ∙ v.open_ n (ground (arith, uses-insert n b.made id b.subscribers h))
    ];
    bounded = put_bounded b.made _ b v.bounded (omega arith);
  }

  -- `Unsubscribe` keeps the bus valid.
  unsubscribe-IsValid : (id : Text) (b : Bus A) → IsValid b → IsValid (unsubscribe id b)
  unfolding unsubscribe
  unsubscribe-IsValid id b v = elim (Option-cases (lookup id b.subscribers)) [
    | inl e ↦ rw (e, unsubscribe) v
    | inr (k, e) ↦
        rw (e, unsubscribe)
          (record {
            dict = erase-IsDict id b.subscribers v.dict;
            distinct = Distinct-erase id b.subscribers v.distinct;
            made_before = All-erase (λ p. p.1 < b.made) id b.subscribers v.made_before;
            open_ = λ n h. elim (Bool-cases (n == k)) [
              | inl same ↦
                  let nk : n ≡ k = ground arith in
                  cc (sym (rw nk at h) ∙ uses-erase_same id k b.subscribers v.distinct e)
              | inr other ↦
                  ap (λ c. c.closed) (put_other n k _ b.channels other)
                  ∙ v.open_ n (uses-erase n id b.subscribers h)
            ];
            bounded = put_bounded k _ b v.bounded (v.bounded k);
          })
  ]

  -- To subscribe again under an id of a valid bus abandons its channel: the old channel then belongs to
  -- no subscriber, and it is left open.
  subscribe-uses :
      (id : Text) (n : ℕ) (b : Bus A)
      → IsValid b
      → lookup id b.subscribers ≡ some n
      → (uses n (subscribe id b).0.subscribers ≡ false)
        × (((subscribe id b).0.channels n).closed ≡ false)
  unfolding subscribe
  subscribe-uses id n b v h =
      let used = lookup-uses id n b.subscribers h in
      let old = uses_made n b.made b.subscribers v.made_before used in
      (
        uses-insert_same id n b.made b.subscribers v.distinct h (omega arith),
        ap (λ c. c.closed) (put_other n b.made _ b.channels (ground arith)) ∙ v.open_ n used,
      )
