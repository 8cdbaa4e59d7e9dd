-- ===== src/Wasm/Events/Attributes.antt =====
-- What the attributes of an event set in its message (relayer/chains/wasm/events.go).
use centralized_relay.Common.{
  ℕ, ◌≡◌, refl, subst, List, [], ◌∷◌, Option, none, some, Text, text_eq, text_eq_sound, ℤ,
  set_string, Result, ok, err, >>=-gives, inl, inr, ◌⊎◌, Bool-cases, Option-cases, In,
  invalid_number, invalid_hex,
}
use centralized_relay.Events
use centralized_relay.Types.Message.{BigInt}
use centralized_relay.Wasm.HexString.{new_from_string, to_byte}
use centralized_relay.Wasm.Events.{
  key_msg, key_target_network, key_conn_sn, key_req_id, key_data, key_from, key_sn, Attribute,
  Draft, number_of, set_emit, set_call, set_rollback, set_all,
}

-- What every attribute keeps, all of them keep.
pub set_all-keeps :
    (P : Draft → Type 0) (set : Attribute → Draft → Result Draft) (attributes : List Attribute)
    (d u : Draft)
    → ((a : Attribute) (x y : Draft) → In a attributes → set a x ≡ ok y → P x → P y)
    → set_all set attributes d ≡ ok u
    → P d
    → P u
unfolding set_all
set_all-keeps P set [] d u keep h p = let same : d ≡ u = cc in subst P same p
set_all-keeps P set (a ∷ rest) d u keep h p = >>=-gives (set a d) _ u h (λ x q g.
    set_all-keeps P set rest x u (λ b y z i. keep b y z (inr i)) g (keep a d x (inl refl) q p))

-- The number is missing, or it is read from an attribute with the key.
abbrev pub IsNumbered : Text → List Attribute → Draft → Type 0
IsNumbered key attributes d =
    (d.sn ≡ none)
    ⊎ ((a : Attribute) × In a attributes
        × (a.key ≡ key)
        × ((n : BigInt) × (d.sn ≡ some n) × (set_string a.value ≡ some n.value)))

number_of-keeps :
    {A : Type 0} (P : A → Type 0) (value : Text) (f : ℤ → A) (y : A)
    → number_of value f ≡ ok y
    → ((v : ℤ) → set_string value ≡ some v → P (f v))
    → P y
number_of-keeps {A = A} P value f y h k = elim (Option-cases (set_string value)) [
  | inl e ↦ absurd (refused (rw (e, number_of) at h))
  | inr (v, e) ↦ found v e (rw (e, number_of) at h)
]
  where
    failed : Result A
    failed = err invalid_number

    refused : failed ≡ ok y → ⊥
    refused g = cc

    found : (v : ℤ) → set_string value ≡ some v → ok (f v) ≡ ok y → P y
    found v e g = let same : f v ≡ y = cc in subst P same (k v e)

module _ (nid : Text) where
  -- The fields that an event of each kind fixes, and where its number comes from.
  abbrev pub IsEmit : List Attribute → Draft → Type 0
  IsEmit attributes d =
      (d.event_type ≡ Events.emit_message) × (d.req_id ≡ none) × IsNumbered key_conn_sn attributes d

  abbrev pub IsCall : List Attribute → Draft → Type 0
  IsCall attributes d =
      (d.event_type ≡ Events.call_message) × (d.dst ≡ nid) × IsNumbered key_sn attributes d

  abbrev pub IsRollback : List Attribute → Draft → Type 0
  IsRollback attributes d =
      (d.event_type ≡ Events.rollback_message)
      × (d.src ≡ nid)
      × (d.dst ≡ nid)
      × (d.bytes ≡ [])
      × IsNumbered key_sn attributes d

  pub set_rollback-keeps :
      (new : ℕ) (attributes : List Attribute) (a : Attribute) (x y : Draft)
      → In a attributes
      → set_rollback new a x ≡ ok y
      → IsRollback attributes x
      → IsRollback attributes y
  unfolding set_rollback
  set_rollback-keeps new attributes a x y i h p = elim (Bool-cases (text_eq a.key key_sn)) [
    | inl e ↦
        number_of-keeps (IsRollback attributes) a.value _ y (rw (e, set_rollback) at h) (λ v r. (
          p.0,
          p.1,
          p.2,
          p.3,
          inr (a, i, text_eq_sound a.key key_sn e, (record { addr = new; value = v }, refl, r)),
        ))
    | inr e ↦ unchanged (rw (e, set_rollback) at h)
  ]
    where
      unchanged : ok x ≡ ok y → IsRollback attributes y
      unchanged g = let same : x ≡ y = cc in subst (IsRollback attributes) same p

  -- A draft with another field set keeps what a predicate says that does not read the field.
  set_to : (P : Draft → Type 0) (x y u : Draft) → ok u ≡ ok y → (P x → P u) → P x → P y
  set_to P x y u g k p = let same : u ≡ y = cc in subst P same (k p)

  pub set_call-keeps :
      (new : ℕ) (attributes : List Attribute) (a : Attribute) (x y : Draft)
      → In a attributes
      → set_call new a x ≡ ok y
      → IsCall attributes x
      → IsCall attributes y
  unfolding set_call
  set_call-keeps new attributes a x y i h p = elim (Bool-cases (text_eq a.key key_req_id)) [
    | inl e ↦
        number_of-keeps (IsCall attributes) a.value _ y (rw (e, set_call) at h)
          (λ v r. (p.0, p.1, p.2))
    | inr e ↦ elim (Bool-cases (text_eq a.key key_data)) [
      | inl f ↦
          set_to (IsCall attributes) x y (record x { bytes = a.value }) (rw (e, f, set_call) at h)
            (λ q. (q.0, q.1, q.2)) p
      | inr f ↦ elim (Bool-cases (text_eq a.key key_from)) [
        | inl g ↦
            set_to (IsCall attributes) x y (record x { src = a.value })
              (rw (e, f, g, set_call) at h) (λ q. (q.0, q.1, q.2)) p
        | inr g ↦ elim (Bool-cases (text_eq a.key key_sn)) [
          | inl k ↦
              number_of-keeps (IsCall attributes) a.value _ y (rw (e, f, g, k, set_call) at h)
                (λ v r. (
                  p.0,
                  p.1,
                  inr (
                    a,
                    i,
                    text_eq_sound a.key key_sn k,
                    (record { addr = new; value = v }, refl, r),
                  ),
                ))
          | inr k ↦ set_to (IsCall attributes) x y x (rw (e, f, g, k, set_call) at h) (λ q. q) p
        ]
      ]
    ]
  ]

  decoded-keeps :
      (P : Draft → Type 0) (o : Option Text) (x y : Draft)
      → (elim o [ some b ↦ ok (record x { bytes = b }) | none ↦ err invalid_hex ]) ≡ ok y
      → ((b : Text) → P (record x { bytes = b }))
      → P y
  decoded-keeps P none x y h k = absurd (cc)
  decoded-keeps P (some b) x y h k =
      let made : Draft = record x { bytes = b } in let same : made ≡ y = cc in subst P same (k b)

  pub set_emit-keeps :
      (new : ℕ) (attributes : List Attribute) (a : Attribute) (x y : Draft)
      → In a attributes
      → set_emit new a x ≡ ok y
      → IsEmit attributes x
      → IsEmit attributes y
  unfolding set_emit
  set_emit-keeps new attributes a x y i h p = elim (Bool-cases (text_eq a.key key_msg)) [
    | inl e ↦
        decoded-keeps (IsEmit attributes) (to_byte (new_from_string a.value)) x y
          (rw (e, set_emit) at h) (λ b. (p.0, p.1, p.2))
    | inr e ↦ elim (Bool-cases (text_eq a.key key_conn_sn)) [
      | inl f ↦ number_of-keeps (IsEmit attributes) a.value _ y (rw (e, f, set_emit) at h) (λ v r. (
        p.0,
        p.1,
        inr (a, i, text_eq_sound a.key key_conn_sn f, (record { addr = new; value = v }, refl, r)),
      ))
      | inr f ↦ elim (Bool-cases (text_eq a.key key_target_network)) [
        | inl g ↦
            set_to (IsEmit attributes) x y (record x { dst = a.value })
              (rw (e, f, g, set_emit) at h) (λ q. (q.0, q.1, q.2)) p
        | inr g ↦ elim (Bool-cases (text_eq a.key key_from)) [
          | inl k ↦
              set_to (IsEmit attributes) x y (record x { src = a.value })
                (rw (e, f, g, k, set_emit) at h) (λ q. (q.0, q.1, q.2)) p
          | inr k ↦ set_to (IsEmit attributes) x y x (rw (e, f, g, k, set_emit) at h) (λ q. q) p
        ]
      ]
    ]
  ]
