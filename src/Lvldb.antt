-- ===== src/Lvldb.antt =====
-- relayer/lvldb/lvldb.go: the `Store` over LevelDB, whose library is a parameter.
use centralized_relay.Common.{
  ◌≡◌, ◌≢◌, refl, ap, Bool, true, false, List, [], ◌∷◌, Text, text_eq, text_eq_iff, has_prefix,
  Result, ok, err, inl, inr, ◌↔◌, In, if◌then◌else◌, arith,
}
use centralized_relay.Store.Interface.{Store, StoreLaws, Entries, done}

-- The calls of `goleveldb` that the code makes. `range` iterates over the keys with a prefix, and
-- over all keys for the empty one (`NewIterator(nil, nil)`); `write` applies a batch of deletions.
pub record LevelDb (D : Type 0) : Type 0 where
  pub db_get : D → Text → Result Text
  pub db_put : D → Text → Text → D × Result (Unit {0})
  pub db_delete : D → Text → D × Result (Unit {0})
  pub range : D → Text → Entries
  pub write : D → List Text → D × Result (Unit {0})

-- `k` is one of the keys of a batch.
abbrev pub listed : Text → List Text → Bool
listed k [] = false
listed k (j ∷ ks) = if text_eq j k then true else listed k ks

-- What the library documents of its calls.
pub record LevelDbLaws {D : Type 0} (l : LevelDb D) : Type 0 where
  pub get-put :
      (d : D) (k j v : Text)
      → (l.db_put d k v).1 ≡ done
      → l.db_get (l.db_put d k v).0 j ≡ (if text_eq k j then ok v else l.db_get d j)
  pub put_failed : (d : D) (k v : Text) → (l.db_put d k v).1 ≢ done → (l.db_put d k v).0 ≡ d
  pub get-delete :
      (d : D) (k j v : Text)
      → (l.db_delete d k).1 ≡ done
      → (l.db_get (l.db_delete d k).0 j ≡ ok v) ↔ ((text_eq k j ≡ false) × (l.db_get d j ≡ ok v))
  pub get-delete_ne : (d : D) (k j : Text) → k ≢ j → l.db_get (l.db_delete d k).0 j ≡ l.db_get d j
  pub delete_failed : (d : D) (k : Text) → (l.db_delete d k).1 ≢ done → (l.db_delete d k).0 ≡ d
  pub range_lists :
      (d : D) (p k v : Text)
      → (l.range d p).failure ≡ done
      → In (k, v) (l.range d p).pairs ↔ ((has_prefix p k ≡ true) × (l.db_get d k ≡ ok v))
  pub get-write :
      (d : D) (ks : List Text) (j v : Text)
      → (l.write d ks).1 ≡ done
      → (l.db_get (l.write d ks).0 j ≡ ok v) ↔ ((listed j ks ≡ false) × (l.db_get d j ≡ ok v))
  pub write_failed : (d : D) (ks : List Text) → (l.write d ks).1 ≢ done → (l.write d ks).0 ≡ d

-- The loop of `ClearStore`: the batch of all keys that the iterator yields.
unfoldable pub batch_of : List (Text × Text) → List Text
batch_of [] = []
batch_of ((k, v) ∷ rest) = k ∷ batch_of rest

module _ {D : Type 0} (l : LevelDb D) where
  unfoldable pub get_by_key : D → Text → Result Text
  get_by_key d k = l.db_get d k

  unfoldable pub set_by_key : D → Text → Text → D × Result (Unit {0})
  set_by_key d k v = l.db_put d k v

  unfoldable pub delete_by_key : D → Text → D × Result (Unit {0})
  delete_by_key d k = l.db_delete d k

  unfoldable pub new_iterator : D → Text → Entries
  new_iterator d prefix = l.range d prefix

  -- After the loop: an iterator's error is returned before anything is written.
  unfoldable pub write_batch : D → List (Text × Text) → Result (Unit {0}) → D × Result (Unit {0})
  write_batch d pairs (ok _) = l.write d (batch_of pairs)
  write_batch d pairs (err e) = (d, err e)

  unfoldable pub clear_store : D → D × Result (Unit {0})
  unfolding batch_of write_batch
  clear_store d = let it = l.range d [] in write_batch d it.pairs it.failure

  -- `*LVLDB` as a `Store`.
  unfoldable pub lvldb : Store D
  unfolding get_by_key set_by_key delete_by_key new_iterator clear_store
  lvldb = record {
    get_by_key = get_by_key;
    set_by_key = set_by_key;
    new_iterator = new_iterator;
    clear_store = clear_store;
    delete_by_key = delete_by_key;
  }

listed-batch_of :
    (k v : Text) (ps : List (Text × Text)) → In (k, v) ps → listed k (batch_of ps) ≡ true
unfolding batch_of
listed-batch_of k v [] i = absurd i
listed-batch_of k v ((j, w) ∷ ps) (inl e) =
    ground (arith, text_eq_iff j k, ap (λ (q : Text × Text). q.0) e)
listed-batch_of k v ((j, w) ∷ ps) (inr i) = ground (arith, listed-batch_of k v ps i)

module _ {D : Type 0} (l : LevelDb D) (laws : LevelDbLaws l) where
  -- Over LevelDB, the store does what its clients rely on.
  pub lvldb-StoreLaws : StoreLaws (lvldb l)
  unfolding lvldb
  lvldb-StoreLaws = record {
    get-set = laws.get-put;
    set_failed = laws.put_failed;
    get-delete_ne = laws.get-delete_ne;
    get-delete_self =
        λ d k v h e. cc ((text_eq_iff k k).1 refl, ((laws.get-delete d k k v h).0 e).0);
    delete_failed = laws.delete_failed;
    iterate = laws.range_lists;
  }

  write_batch_all :
      (d : D) (pairs : List (Text × Text)) (failure : Result (Unit {0}))
      → (failure ≡ done → (k v : Text) → (l.db_get d k ≡ ok v) → In (k, v) pairs)
      → ((write_batch l d pairs failure).1 ≡ done
          → (k v : Text) → l.db_get (write_batch l d pairs failure).0 k ≢ ok v)
        × ((write_batch l d pairs failure).1 ≢ done → (write_batch l d pairs failure).0 ≡ d)
  unfolding write_batch
  write_batch_all d pairs (ok u) all = (
    λ h k v e.
        let left = (laws.get-write d (batch_of pairs) k v h).0 e in
        cc (left.0, listed-batch_of k v pairs (all refl k v left.1)),
    λ h. laws.write_failed d (batch_of pairs) h,
  )
  write_batch_all d pairs (err x) all = (λ h. cc, λ h. refl)

  -- After a `ClearStore` that reports no error no key has a value, and one that reports an error
  -- has left the database as it was.
  clear_store_all :
      (d : D)
      → ((clear_store l d).1 ≡ done → (k v : Text) → get_by_key l (clear_store l d).0 k ≢ ok v)
        × ((clear_store l d).1 ≢ done → (clear_store l d).0 ≡ d)
  unfolding clear_store get_by_key has_prefix
  clear_store_all d =
      write_batch_all d (l.range d []).pairs (l.range d []).failure
        λ f k v e. (laws.range_lists d [] k v f).1 (refl, e)
