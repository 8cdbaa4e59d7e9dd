-- ===== src/Store/Interface.antt =====
-- The `Store` interface of relayer/store/store.go, and what its clients rely on.
use centralized_relay.Common.{
  ◌≡◌, ◌≢◌, ◌↔◌, true, List, Text, text_eq, has_prefix, Result, ok, err, refl, Result-cases, inl,
  inr, ◌∙◌, ap, arith, text_eq_iff, In, if◌then◌else◌,
}

-- What an iterator over a key range yields, and the error that `iter.Error` reports after it.
pub record Entries : Type 0 where
  pub pairs : List (Text × Text)
  pub failure : Result (Unit {0})

-- The methods take the content `D` of the database and return the new content.
pub record Store (D : Type 0) : Type 0 where
  pub get_by_key : D → Text → Result Text
  pub set_by_key : D → Text → Text → D × Result (Unit {0})
  pub new_iterator : D → Text → Entries
  pub clear_store : D → D × Result (Unit {0})
  pub delete_by_key : D → Text → D × Result (Unit {0})

abbrev pub done : Result (Unit {0})
done = ok tt

module _ {D : Type 0} (s : Store D) where
  -- `d` holds the value `v` under the key `k`.
  abbrev pub Holds : D → Text → Text → Type 0
  Holds d k v = s.get_by_key d k ≡ ok v

-- A write that reports no error is seen by the reads after it, one that fails changes nothing, and
-- an iterator that reports no error yields the pairs whose keys have the prefix, in an order that is
-- left open.
pub record StoreLaws {D : Type 0} (s : Store D) : Type 0 where
  pub get-set :
      (d : D) (k j v : Text)
      → (s.set_by_key d k v).1 ≡ done
      → s.get_by_key (s.set_by_key d k v).0 j ≡ (if text_eq k j then ok v else s.get_by_key d j)
  pub set_failed : (d : D) (k v : Text) → (s.set_by_key d k v).1 ≢ done → (s.set_by_key d k v).0 ≡ d
  pub get-delete_ne :
      (d : D) (k j : Text) → k ≢ j → s.get_by_key (s.delete_by_key d k).0 j ≡ s.get_by_key d j
  pub get-delete_self :
      (d : D) (k v : Text)
      → (s.delete_by_key d k).1 ≡ done
      → s.get_by_key (s.delete_by_key d k).0 k ≢ ok v
  pub delete_failed :
      (d : D) (k : Text) → (s.delete_by_key d k).1 ≢ done → (s.delete_by_key d k).0 ≡ d
  pub iterate :
      (d : D) (p k v : Text)
      → (s.new_iterator d p).failure ≡ done
      → In (k, v) (s.new_iterator d p).pairs ↔ ((has_prefix p k ≡ true) × Holds s d k v)

module _ {D : Type 0} (s : Store D) where
  -- The end of the three `Store…` methods: the value is encoded, and written if that succeeds.
  unfoldable pub set_encoded : D → Text → Result Text → D × Result (Unit {0})
  set_encoded d k (ok b) = s.set_by_key d k b
  set_encoded d k (err e) = (d, err e)

  -- A write that succeeds has encoded the value, and only its key is changed.
  pub set_encoded-done :
      (laws : StoreLaws s) (d : D) (k : Text) (r : Result Text)
      → (set_encoded d k r).1 ≡ done
      → (b : Text) × (r ≡ ok b)
        × ((j : Text)
            → s.get_by_key (set_encoded d k r).0 j
              ≡ (if text_eq k j then ok b else s.get_by_key d j))
  unfolding set_encoded
  set_encoded-done laws d k (ok b) h = (b, refl, λ j. laws.get-set d k j b h)
  set_encoded-done laws d k (err e) h = cc

  -- A write that fails leaves the database as it was.
  pub set_encoded_failed :
      (laws : StoreLaws s) (d : D) (k : Text) (r : Result Text)
      → (set_encoded d k r).1 ≢ done
      → (set_encoded d k r).0 ≡ d
  unfolding set_encoded
  set_encoded_failed laws d k (ok b) h = laws.set_failed d k b h
  set_encoded_failed laws d k (err e) h = refl

  -- Whatever its result, a write leaves every other key as it was.
  pub set_encoded_ne :
      (laws : StoreLaws s) (d : D) (k : Text) (r : Result Text) (j : Text)
      → k ≢ j
      → s.get_by_key (set_encoded d k r).0 j ≡ s.get_by_key d j
  set_encoded_ne laws d k r j other = elim (Result-cases (set_encoded d k r).1) [
    | inl (u, e) ↦
        let (b, _, reads) = set_encoded-done laws d k r e in
        reads j ∙ ground (arith, text_eq_iff k j)
    | inr (x, e) ↦ ap (λ c. s.get_by_key c j) (set_encoded_failed laws d k r (λ f. cc))
  ]
