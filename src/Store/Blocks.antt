-- ===== src/Store/Blocks.antt =====
-- `BlockStore` of relayer/store/blockStore.go.
use centralized_relay.Common.{ℕ, ◌≡◌, Text, Result, ok, ◌>>=◌, text_eq_refl}
use centralized_relay.Store.Interface.{Store, StoreLaws, done, set_encoded, set_encoded-done}
use centralized_relay.Store.Keys.{chain_key}
use centralized_relay.Store.Codec.{Codec, CodecLaws, height_at}

module _ {D : Type 0} (db : Store D) (c : Codec ℕ) (prefix : Text) where
  abbrev pub block_key : Text → Text
  block_key nid = chain_key prefix nid

  unfoldable pub store_block : D → ℕ → Text → D × Result (Unit {0})
  store_block d height nid = set_encoded db d (block_key nid) (c.encode height)

  -- `return height, jsoniter.Unmarshal(v, &height)`: Go leaves open which comes first; here the height
  -- is read after the call has set it, as blockStore_test.go expects.
  unfoldable pub get_last_stored_block : D → Text → Result ℕ
  get_last_stored_block d nid = db.get_by_key d (block_key nid) >>= λ v. c.decode 0 v

  module _ (laws : StoreLaws db) (codec_laws : CodecLaws c height_at) where
    -- A height that was stored with no error is the one that is read back for its chain.
    pub get_last_stored_block-store_block :
        (d : D) (height : ℕ) (nid : Text)
        → (store_block d height nid).1 ≡ done
        → get_last_stored_block (store_block d height nid).0 nid ≡ ok height
    unfolding store_block get_last_stored_block
    get_last_stored_block-store_block d height nid h =
        let (b, e, reads) = set_encoded-done db laws d (block_key nid) (c.encode height) h in
        rw (reads (block_key nid), text_eq_refl (block_key nid))
          (codec_laws.decode-encode height b 0 e)
