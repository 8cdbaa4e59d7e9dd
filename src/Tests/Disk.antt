-- ===== src/Tests/Disk.antt =====
-- A database as a list of pairs, for relayer/lvldb/lvldb.go: the newest pair of a key counts.
use centralized_relay.Common.{
  zero, suc, ◌≡◌, refl, sym, ◌∙◌, ap, Bool, true, false, List, [], ◌∷◌, Text, text_eq, text_eq_iff,
  has_prefix, Result, ok, err, external, inl, inr, ◌↔◌, In, if◌then◌else◌, arith, Bool-cases,
}
use centralized_relay.Store.Interface.{Store, StoreLaws, done}
use centralized_relay.Lvldb.{LevelDb, LevelDbLaws, listed, lvldb, lvldb-StoreLaws}

abbrev pub Disk : Type 0
Disk = List (Text × Text)

abbrev find : Disk → Text → Result Text
find [] k = err (external 0)
find ((j, v) ∷ d) k = if text_eq j k then ok v else find d k

abbrev drop_key : Text → Disk → Disk
drop_key k [] = []
drop_key k ((j, v) ∷ d) = let rest = drop_key k d in if text_eq k j then rest else (j, v) ∷ rest

abbrev drop_keys : List Text → Disk → Disk
drop_keys [] d = d
drop_keys (k ∷ ks) d = drop_keys ks (drop_key k d)

abbrev visible : Text → Disk → Disk
visible p [] = []
visible p ((k, v) ∷ d) =
    let rest = drop_key k (visible p d) in if has_prefix p k then (k, v) ∷ rest else rest

-- A key that starts with the byte 0 cannot be written.
abbrev is_writable : Text → Bool
is_writable [] = true
is_writable (zero ∷ k) = false
is_writable (suc c ∷ k) = true

find-drop_key :
    (k j : Text) (d : Disk)
    → find (drop_key k d) j ≡ (if text_eq k j then err (external 0) else find d j)
find-drop_key k j [] = ground arith
find-drop_key k j ((i, v) ∷ d) =
    ground (arith, find-drop_key k j d, text_eq_iff k i, text_eq_iff i j, text_eq_iff k j)

find-drop_key_iff :
    (k j v : Text) (d : Disk)
    → (find (drop_key k d) j ≡ ok v) ↔ ((text_eq k j ≡ false) × (find d j ≡ ok v))
find-drop_key_iff k j v d = ground (arith, find-drop_key k j d)

find-drop_keys_iff :
    (ks : List Text) (j v : Text) (d : Disk)
    → (find (drop_keys ks d) j ≡ ok v) ↔ ((listed j ks ≡ false) × (find d j ≡ ok v))
find-drop_keys_iff [] j v d = ground arith
find-drop_keys_iff (k ∷ ks) j v d =
    ground (arith, find-drop_keys_iff ks j v (drop_key k d), find-drop_key_iff k j v d)

In-drop_key :
    (k j v : Text) (d : Disk) → In (j, v) (drop_key k d) ↔ ((text_eq k j ≡ false) × In (j, v) d)
In-drop_key k j v [] = (λ i. absurd i, λ h. h.1)
In-drop_key k j v ((i, w) ∷ d) = elim (Bool-cases (text_eq k i)) [
  | inl t ↦ rw t (
    λ h. let (a, b) = (In-drop_key k j v d).0 h in (a, inr b),
    λ h. elim h.1 [
      | inl e ↦ absurd (ground (arith, h.0, ap (λ (q : Text × Text). text_eq k q.0) e))
      | inr b ↦ (In-drop_key k j v d).1 (h.0, b)
    ],
  )
  | inr f ↦ rw f (
    λ h. elim h [
      | inl e ↦ (sym (ap (λ (q : Text × Text). text_eq k q.0) e) ∙ f, inl e)
      | inr b ↦ let (x, y) = (In-drop_key k j v d).0 b in (x, inr y)
    ],
    λ h. elim h.1 [ inl e ↦ inl e | inr b ↦ inr ((In-drop_key k j v d).1 (h.0, b)) ],
  )
]

module _ (p k v j w : Text) (d : Disk)
    (ih : In (k, v) (visible p d) ↔ ((has_prefix p k ≡ true) × (find d k ≡ ok v))) where
  later : In (k, v) (drop_key j (visible p d)) ↔ ((text_eq j k ≡ false) × In (k, v) (visible p d))
  later = In-drop_key j k v (visible p d)

  visible_same : j ≡ k → In (k, v) (visible p ((j, w) ∷ d)) ↔ ((has_prefix p k ≡ true) × (w ≡ v))
  visible_same e = elim (Bool-cases (has_prefix p j)) [
    | inl h ↦ rw h (
      λ i. elim i [
        | inl q ↦ (ap (has_prefix p) (sym e) ∙ h, ap (λ (z : Text × Text). z.1) q)
        | inr i ↦ absurd (ground (arith, (later.0 i).0, (text_eq_iff j k).1 e))
      ],
      λ g. inl (cc (e, g.1)),
    )
    | inr h ↦ rw h (
      λ i. absurd (ground (arith, (later.0 i).0, (text_eq_iff j k).1 e)),
      λ g. absurd (ground (arith, g.0, h, ap (has_prefix p) e)),
    )
  ]

  visible_other :
      text_eq j k ≡ false
      → In (k, v) (visible p ((j, w) ∷ d)) ↔ ((has_prefix p k ≡ true) × (find d k ≡ ok v))
  visible_other f = elim (Bool-cases (has_prefix p j)) [
    | inl h ↦ rw h (
      λ i. elim i [
        | inl q ↦ absurd (ground (arith, f, (text_eq_iff j k).1 (ap (λ (z : Text × Text). z.0) q)))
        | inr i ↦ ih.0 (later.0 i).1
      ],
      λ g. inr (later.1 (f, ih.1 g)),
    )
    | inr h ↦ rw h (λ i. ih.0 (later.0 i).1, λ g. later.1 (f, ih.1 g))
  ]

  ok_value : (ok w ≡ ok v) ↔ (w ≡ v)
  ok_value = (λ e. cc, λ e. ap ok e)

In-visible :
    (p k v : Text) (d : Disk)
    → In (k, v) (visible p d) ↔ ((has_prefix p k ≡ true) × (find d k ≡ ok v))
In-visible p k v [] = (λ i. absurd i, λ h. cc)
In-visible p k v ((j, w) ∷ d) = elim (Bool-cases (text_eq j k)) [
  | inl t ↦
      let same = visible_same p k v j w d (In-visible p k v d) ((text_eq_iff j k).0 t) in
      let value = ok_value p k v j w d (In-visible p k v d) in
      rw t (λ i. let (a, b) = same.0 i in (a, value.1 b), λ h. same.1 (h.0, value.0 h.1))
  | inr f ↦ rw f (visible_other p k v j w d (In-visible p k v d) f)
]

abbrev pub list_db : LevelDb Disk
list_db = record {
  db_get = find;
  db_put = λ d k v. if is_writable k then ((k, v) ∷ d, done) else (d, err (external 1));
  db_delete = λ d k. (drop_key k d, done);
  range = λ d p. record { pairs = visible p d; failure = done };
  write = λ d ks. (drop_keys ks d, done);
}

pub list_db-LevelDbLaws : LevelDbLaws list_db
list_db-LevelDbLaws = record {
  get-put = λ d k j v h. elim (Bool-cases (is_writable k)) [
    | inl e ↦ rw e refl
    | inr e ↦ absurd (ground arith)
  ];
  put_failed = λ d k v h. elim (Bool-cases (is_writable k)) [
    | inl e ↦ absurd ((rw e at h) refl)
    | inr e ↦ rw e refl
  ];
  get-delete = λ d k j v h. find-drop_key_iff k j v d;
  get-delete_ne = λ d k j h. ground (arith, find-drop_key k j d, text_eq_iff k j);
  delete_failed = λ d k h. absurd (h refl);
  range_lists = λ d p k v h. In-visible p k v d;
  get-write = λ d ks j v h. find-drop_keys_iff ks j v d;
  write_failed = λ d ks h. absurd (h refl);
}

abbrev pub list_store : Store Disk
list_store = lvldb list_db

pub list_store-StoreLaws : StoreLaws list_store
list_store-StoreLaws = lvldb-StoreLaws list_db list_db-LevelDbLaws
