-- ===== src/Evm/Nonce.antt =====
-- `NonceTracker` of relayer/chains/evm/types/types.go. Big integers are objects: `Sub` and `Add`
-- write their result into the receiver, which other fields may share.
use centralized_relay.Common.{
  ℕ, zero, suc, ◌-◌, ◌*◌, ◌≤◌, ◌<◌, ◌≡◌, refl, ◌∙◌, ap, Option, none, some, Bool, true, false, Text,
  ℤ, pos, negsuc, Result, ok, err, ltb, ◌==◌, if◌then◌else◌, arith, text_eq_refl,
}
use centralized_relay.Types.Contracts.{TextMap, lookup}
use centralized_relay.Types.Retry.{second}
use centralized_relay.Chain.{put, lookup-put}

abbrev pub nonce_update_interval : ℕ
nonce_update_interval = 3 * 60 * second

abbrev pub below : ℤ → ℤ
below (pos zero) = negsuc 0
below (pos (suc n)) = pos n
below (negsuc n) = negsuc (suc n)

abbrev pub above : ℤ → ℤ
above (pos n) = pos (suc n)
above (negsuc zero) = pos 0
above (negsuc (suc n)) = negsuc n

-- `a.Cmp(b) == 1`
abbrev pub exceeds : ℤ → ℤ → Bool
exceeds (pos m) (pos n) = ltb n m
exceeds (pos m) (negsuc n) = true
exceeds (negsuc m) (pos n) = false
exceeds (negsuc m) (negsuc n) = ltb m n

-- The fields `previous` and `current` point to big integers.
pub record NonceValue : Type 0 where
  pub last_updated : ℕ
  pub previous : ℕ
  pub current : ℕ

pub record NonceTracker : Type 0 where
  pub numbers : ℕ → ℤ
  pub next : ℕ
  pub values : TextMap NonceValue

abbrev pub write : (ℕ → ℤ) → ℕ → ℤ → ℕ → ℤ
write h p v q = if p == q then v else h q

-- `Set`, for the number at `nonce`: `Sub` writes into the number, and returns it.
unfoldable pub set_nonce : ℕ → Text → ℕ → NonceTracker → NonceTracker
unfolding put
set_nonce now addr nonce t = record t {
  numbers = write t.numbers nonce (below (t.numbers nonce));
  values = put addr (record { last_updated = now; previous = nonce; current = nonce }) t.values;
}

-- The pending nonce of the node is a new number, which `Sub` then writes.
unfoldable pub refresh_nonce : ℕ → Text → Result ℤ → NonceValue → NonceTracker → NonceTracker
unfolding put
refresh_nonce now addr (err e) v t = t
refresh_nonce now addr (ok n) v t = record t {
  numbers = write t.numbers t.next (below n);
  next = suc t.next;
  values = put addr (record { last_updated = now; previous = t.next; current = t.next }) t.values;
}

unfoldable pub advance_nonce : Text → NonceValue → NonceTracker → NonceTracker
unfolding put
advance_nonce addr v t =
    if exceeds (t.numbers v.current) (t.numbers v.previous) then t else record t {
      numbers = write t.numbers v.current (above (t.numbers v.current));
      values = put addr (record v { previous = v.current }) t.values;
    }

-- The number that `Get` returns at the end.
unfoldable pub current_nonce : Text → NonceTracker → Option ℤ
current_nonce addr t = elim (lookup addr t.values) [
  | none ↦ none
  | some v ↦ some (t.numbers v.current)
]

-- The body of `Get` for an entry, before it returns the number.
unfoldable pub touch_nonce : ℕ → Text → Result ℤ → NonceValue → NonceTracker → NonceTracker
unfolding refresh_nonce advance_nonce
touch_nonce now addr pending v t =
    if ltb nonce_update_interval (now - v.last_updated)
    then refresh_nonce now addr pending v t
    else advance_nonce addr v t

abbrev pub with_current : Text → NonceTracker → NonceTracker × Option ℤ
with_current addr u = (u, current_nonce addr u)

-- `Get`; `pending` is what the getter answers. An address that was never set panics: `none`.
unfoldable pub get_nonce : ℕ → Text → Result ℤ → NonceTracker → Option (NonceTracker × Option ℤ)
unfolding touch_nonce current_nonce
get_nonce now addr pending t = elim (lookup addr t.values) [
  | none ↦ none
  | some v ↦ some (with_current addr (touch_nonce now addr pending v t))
]

-- Both fields of the entry of `addr` point to one number, `n`, that was set at `time`.
pub record IsShared (addr : Text) (n : ℤ) (time : ℕ) (t : NonceTracker) : Type 0 where
  pub value : NonceValue
  pub found : lookup addr t.values ≡ some value
  pub shared : value.previous ≡ value.current
  pub number : t.numbers value.current ≡ n
  pub since : value.last_updated ≡ time

pub set_nonce-IsShared :
    (now : ℕ) (addr : Text) (nonce : ℕ) (t : NonceTracker)
    → IsShared addr (below (t.numbers nonce)) now (set_nonce now addr nonce t)
unfolding set_nonce
set_nonce-IsShared now addr nonce t = record {
  value = record { last_updated = now; previous = nonce; current = nonce };
  found = lookup-put addr addr _ t.values ∙ rw (text_eq_refl addr) refl;
  shared = refl;
  number = ground arith;
  since = refl;
}

not_exceeds : (a : ℤ) → exceeds a a ≡ false
not_exceeds (pos n) = ground arith
not_exceeds (negsuc n) = ground arith

-- Within three minutes after an entry was set whose fields share one number, `Get` returns the
-- number after it, and leaves that number in the entry, whose fields share it again.
pub get_nonce_next :
    (now time : ℕ) (addr : Text) (pending : Result ℤ) (n : ℤ) (t : NonceTracker)
    → IsShared addr n time t
    → now - time ≤ nonce_update_interval
    → (u : NonceTracker) × (get_nonce now addr pending t ≡ some (u, some (above n)))
      × IsShared addr (above n) time u
unfolding get_nonce touch_nonce advance_nonce current_nonce
get_nonce_next now time addr pending n t h soon = (
  u,
  taken,
  record {
    value = record v { previous = v.current };
    found = found_u;
    shared = refl;
    number = number_u;
    since = h.since;
  },
)
  where
    v : NonceValue
    v = h.value

    u : NonceTracker
    u = record t {
      numbers = write t.numbers v.current (above (t.numbers v.current));
      values = put addr (record v { previous = v.current }) t.values;
    }

    found_u : lookup addr u.values ≡ some (record v { previous = v.current })
    found_u =
        lookup-put addr addr (record v { previous = v.current }) t.values
        ∙ rw (text_eq_refl addr) refl

    number_u : u.numbers v.current ≡ above n
    number_u = ground (arith, ap above h.number)

    fresh : ltb nonce_update_interval (now - v.last_updated) ≡ false
    fresh = rw h.since (ground arith)

    touched : touch_nonce now addr pending v t ≡ u
    touched = rw (fresh, h.shared, not_exceeds (t.numbers v.current)) refl

    current_u : current_nonce addr u ≡ some (above n)
    current_u = rw (found_u, current_nonce) (ap some number_u)

    taken : get_nonce now addr pending t ≡ some (u, some (above n))
    taken =
        rw (h.found, get_nonce)
          (ap (λ x. some (with_current addr x)) touched ∙ ap (λ c. some (u, c)) current_u)

-- More than three minutes after an entry was set whose fields share one number, `Get` returns the
-- number before the pending nonce that the node reports.
get_nonce_stale :
    (now time : ℕ) (addr : Text) (n pending : ℤ) (t : NonceTracker)
    → IsShared addr n time t
    → nonce_update_interval < now - time
    → (u : NonceTracker) × (get_nonce now addr (ok pending) t ≡ some (u, some (below pending)))
unfolding get_nonce touch_nonce refresh_nonce current_nonce
get_nonce_stale now time addr n pending t h late = (u, taken)
  where
    w : NonceValue
    w = record { last_updated = now; previous = t.next; current = t.next }

    u : NonceTracker
    u = record t {
      numbers = write t.numbers t.next (below pending);
      next = suc t.next;
      values = put addr w t.values;
    }

    found_u : lookup addr u.values ≡ some w
    found_u = lookup-put addr addr w t.values ∙ rw (text_eq_refl addr) refl

    stale : ltb nonce_update_interval (now - h.value.last_updated) ≡ true
    stale = rw h.since (ground arith)

    number_u : u.numbers t.next ≡ below pending
    number_u = ground arith

    touched : touch_nonce now addr (ok pending) h.value t ≡ u
    touched = rw stale refl

    current_u : current_nonce addr u ≡ some (below pending)
    current_u = rw (found_u, current_nonce) (ap some number_u)

    taken : get_nonce now addr (ok pending) t ≡ some (u, some (below pending))
    taken =
        rw (h.found, get_nonce)
          (ap (λ x. some (with_current addr x)) touched ∙ ap (λ c. some (u, c)) current_u)
