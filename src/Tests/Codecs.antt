-- ===== src/Tests/Codecs.antt =====
-- A JSON library for the tests: every field is written as its length and its contents.
use centralized_relay.Common.{
  ℕ, zero, suc, ◌≡◌, refl, sym, ◌∙◌, ap, Bool, true, false, [], ◌∷◌, ◌++◌, Option, none, some, Text,
  Result, ok, err, external, ◌>>=◌, ℤ, pos, negsuc, length,
}
use centralized_relay.Types.Message.{RouteMessage, TransactionObject}
use centralized_relay.Store.Codec.{Codec, CodecLaws, message_at, tx_object_at, height_at}

abbrev Reader : Type 0 → Type 0
Reader A = Text → Result (A × Text)

abbrev pub put_text : Text → Text → Text
put_text t out = length t ∷ (t ++ out)

abbrev read_text : ℕ → Reader Text
read_text zero s = ok ([], s)
read_text (suc n) [] = err (external 2)
read_text (suc n) (c ∷ s) = read_text n s >>= λ r. ok (c ∷ r.0, r.1)

abbrev pub get_text : Reader Text
get_text [] = err (external 2)
get_text (n ∷ s) = read_text n s

abbrev get_number : Reader ℕ
get_number [] = err (external 2)
get_number (n ∷ s) = ok (n, s)

abbrev put_int : ℤ → Text → Text
put_int (pos n) out = 0 ∷ n ∷ out
put_int (negsuc n) out = 1 ∷ n ∷ out

abbrev get_int : Reader ℤ
get_int (zero ∷ n ∷ s) = ok (pos n, s)
get_int (_ ∷ n ∷ s) = ok (negsuc n, s)
get_int _ = err (external 2)

abbrev put_optional : Option ℤ → Text → Text
put_optional none out = 0 ∷ out
put_optional (some z) out = 1 ∷ put_int z out

abbrev get_optional : Reader (Option ℤ)
get_optional (zero ∷ s) = ok (none, s)
get_optional (_ ∷ s) = get_int s >>= λ r. ok (some r.0, r.1)
get_optional [] = err (external 2)

abbrev pub put_bool : Bool → Text → Text
put_bool false out = 0 ∷ out
put_bool true out = 1 ∷ out

abbrev pub get_bool : Reader Bool
get_bool (zero ∷ s) = ok (false, s)
get_bool (_ ∷ s) = ok (true, s)
get_bool [] = err (external 2)

read_text-append : (t out : Text) → read_text (length t) (t ++ out) ≡ ok (t, out)
read_text-append [] out = refl
read_text-append (c ∷ t) out = rw (read_text-append t out) refl

pub get-put_text : (t out : Text) → get_text (put_text t out) ≡ ok (t, out)
get-put_text t out = read_text-append t out

get-put_int : (z : ℤ) (out : Text) → get_int (put_int z out) ≡ ok (z, out)
get-put_int (pos n) out = refl
get-put_int (negsuc n) out = refl

get-put_optional : (z : Option ℤ) (out : Text) → get_optional (put_optional z out) ≡ ok (z, out)
get-put_optional none out = refl
get-put_optional (some z) out = rw (get-put_int z out) refl

pub get-put_bool : (b : Bool) (out : Text) → get_bool (put_bool b out) ≡ ok (b, out)
get-put_bool false out = refl
get-put_bool true out = refl

abbrev put_route : RouteMessage → Text
put_route r = put_text r.message.dst (
    put_text r.message.src (
      put_int r.message.sn.value (
        put_text r.message.bytes (
          put_text r.message.event_type (
            put_optional r.message.req_id
              (put_bool r.processing (r.message.message_height ∷ r.retry ∷ r.last_try ∷ [])))))))

abbrev get_route : ℕ → Text → Result RouteMessage
get_route addr s0 = get_text s0 >>= λ (dst, s1). get_text s1 >>= λ (src, s2).
    get_int s2 >>= λ (sn, s3). get_text s3 >>= λ (bytes, s4). get_text s4 >>= λ (event_type, s5).
    get_optional s5 >>= λ (req_id, s6). get_bool s6 >>= λ (processing, s7).
    get_number s7 >>= λ (height, s8). get_number s8 >>= λ (retry, s9).
    get_number s9 >>= λ (last_try, s10). ok (record {
      message = record {
        dst = dst;
        src = src;
        sn = record { addr = addr; value = sn };
        bytes = bytes;
        message_height = height;
        event_type = event_type;
        req_id = req_id;
      };
      retry = retry;
      processing = processing;
      last_try = last_try;
    })

abbrev pub route_codec : Codec RouteMessage
route_codec = record {
  encode = λ r. ok (put_route r);
  decode = λ addr s. get_route 0 s >>= λ r. ok (message_at addr r);
}

get-put_route : (r : RouteMessage) → get_route 0 (put_route r) ≡ ok (message_at 0 r)
get-put_route r =
    rw
      (
        get-put_text r.message.dst,
        get-put_text r.message.src,
        get-put_int r.message.sn.value,
        get-put_text r.message.bytes,
        get-put_text r.message.event_type,
        get-put_optional r.message.req_id,
        get-put_bool r.processing,
      )
      refl

module _ {A : Type 0} (at : ℕ → A → A) (twice : (i j : ℕ) (a : A) → at i (at j a) ≡ at i a) where
  placed : (r : Result A) (addr : ℕ) (a : A) → (r >>= λ x. ok (at addr x)) ≡ ok a → at addr a ≡ a
  placed (ok x) addr a e =
      let q : at addr x ≡ a = cc in sym (ap (at addr) q) ∙ twice addr addr x ∙ q
  placed (err x) addr a e = cc

pub route_codec-CodecLaws : CodecLaws route_codec message_at
route_codec-CodecLaws = record {
  decode-encode =
      λ a b addr e. let q : put_route a ≡ b = cc in rw (← q) (rw (get-put_route a) refl);
  decode_placed = λ a b addr e. placed message_at (λ i j r. refl) (get_route 0 b) addr a e;
}

abbrev put_object : TransactionObject → Text
put_object t = put_text t.message_key.key.src (
    put_text t.message_key.key.dst (
      put_int t.message_key.key.sn.value (
        put_text t.message_key.key.event_type
          (put_text t.tx_hash (t.message_key.height ∷ t.tx_height ∷ [])))))

abbrev get_object : ℕ → Text → Result TransactionObject
get_object addr s0 = get_text s0 >>= λ (src, s1). get_text s1 >>= λ (dst, s2).
    get_int s2 >>= λ (sn, s3). get_text s3 >>= λ (event_type, s4). get_text s4 >>= λ (tx_hash, s5).
    get_number s5 >>= λ (height, s6). get_number s6 >>= λ (tx_height, s7). ok (record {
      message_key = record {
        key = record {
          sn = record { addr = addr; value = sn };
          src = src;
          dst = dst;
          event_type = event_type;
        };
        height = height;
      };
      tx_hash = tx_hash;
      tx_height = tx_height;
    })

get-put_object : (t : TransactionObject) → get_object 0 (put_object t) ≡ ok (tx_object_at 0 t)
get-put_object t =
    rw
      (
        get-put_text t.message_key.key.src,
        get-put_text t.message_key.key.dst,
        get-put_int t.message_key.key.sn.value,
        get-put_text t.message_key.key.event_type,
        get-put_text t.tx_hash,
      )
      refl

abbrev pub object_codec : Codec TransactionObject
object_codec = record {
  encode = λ t. ok (put_object t);
  decode = λ addr s. get_object 0 s >>= λ t. ok (tx_object_at addr t);
}

pub object_codec-CodecLaws : CodecLaws object_codec tx_object_at
object_codec-CodecLaws = record {
  decode-encode =
      λ a b addr e. let q : put_object a ≡ b = cc in rw (← q) (rw (get-put_object a) refl);
  decode_placed = λ a b addr e. placed tx_object_at (λ i j r. refl) (get_object 0 b) addr a e;
}

abbrev pub height_codec : Codec ℕ
height_codec = record {
  encode = λ h. ok (h ∷ []);
  decode = λ addr s. get_number s >>= λ (h, rest). ok h;
}

pub height_codec-CodecLaws : CodecLaws height_codec height_at
height_codec-CodecLaws = record {
  decode-encode = λ a b addr e. let q : a ∷ [] ≡ b = cc in rw (← q) refl;
  decode_placed = λ a b addr e. refl;
}
