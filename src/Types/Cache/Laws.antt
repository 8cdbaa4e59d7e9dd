-- ===== src/Types/Cache/Laws.antt =====
-- The keys of a message cache in relayer/types/types.go, compared as Go compares them.
use centralized_relay.Common.{
  ℕ, ◌≡◌, refl, sym, ◌∙◌, true, [], ◌∷◌, none, some, arith, text_eq_iff, if◌then◌else◌,
}
use centralized_relay.Types.Message.{MessageKey, key_eq}
use centralized_relay.Types.Cache.{MessageCache, add, remove, get}

-- Two keys are equal for Go.
pub record SameKey (a b : MessageKey) : Type 0 where
  pub addr : a.sn.addr ≡ b.sn.addr
  pub src : a.src ≡ b.src
  pub dst : a.dst ≡ b.dst
  pub event_type : a.event_type ≡ b.event_type

pub key_eq_sound : (a b : MessageKey) → key_eq a b ≡ true → SameKey a b
unfolding key_eq
key_eq_sound a b h =
    ground (
      arith,
      text_eq_iff a.src b.src,
      text_eq_iff a.dst b.dst,
      text_eq_iff a.event_type b.event_type,
    )

pub key_eq_complete : (a b : MessageKey) → SameKey a b → key_eq a b ≡ true
unfolding key_eq
key_eq_complete a b h =
    ground (
      arith,
      text_eq_iff a.src b.src,
      text_eq_iff a.dst b.dst,
      text_eq_iff a.event_type b.event_type,
    )

pub key_eq_refl : (a : MessageKey) → key_eq a a ≡ true
key_eq_refl a =
    key_eq_complete a a (record { addr = refl; src = refl; dst = refl; event_type = refl })

pub key_eq_sym : (a b : MessageKey) → key_eq a b ≡ true → key_eq b a ≡ true
key_eq_sym a b h =
    let s = key_eq_sound a b h in
    key_eq_complete b a (record {
      addr = sym s.addr;
      src = sym s.src;
      dst = sym s.dst;
      event_type = sym s.event_type;
    })

pub key_eq_trans : (a b c : MessageKey) → key_eq a b ≡ true → key_eq b c ≡ true → key_eq a c ≡ true
key_eq_trans a b c h k =
    let s = key_eq_sound a b h in
    let t = key_eq_sound b c k in
    key_eq_complete a c (record {
      addr = s.addr ∙ t.addr;
      src = s.src ∙ t.src;
      dst = s.dst ∙ t.dst;
      event_type = s.event_type ∙ t.event_type;
    })

-- What `Get` returns after `Add`: the added pointer at keys equal to the added key, and what it
-- returned before at every other key.
pub get-add :
    (k j : MessageKey) (r : ℕ) (m : MessageCache)
    → get j (add k r m) ≡ (if key_eq k j then some r else get j m)
unfolding get add
get-add k j r [] = refl
get-add k j r ((i, s) ∷ m) = ground (
  arith,
  get-add k j r m,
  key_eq_trans i k j,
  key_eq_trans k i j,
  key_eq_sym i k,
  key_eq_sym k i,
  key_eq_trans i j k,
  key_eq_sym k j,
)

-- What `Get` returns after `Remove`: nothing at keys equal to the removed key, and what it returned
-- before at every other key.
pub get-remove :
    (k j : MessageKey) (m : MessageCache)
    → get j (remove k m) ≡ (if key_eq k j then none else get j m)
unfolding get remove
get-remove k j [] = ground arith
get-remove k j ((i, s) ∷ m) = ground (
  arith,
  get-remove k j m,
  key_eq_trans i k j,
  key_eq_trans k i j,
  key_eq_sym i k,
  key_eq_sym k i,
  key_eq_trans i j k,
  key_eq_sym k j,
)
