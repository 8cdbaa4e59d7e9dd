-- ===== src/Tests/Stores.antt =====
-- Runs of the stores over the database of the tests.
use centralized_relay.Common.{
  ℕ, ◌+◌, ◌*◌, ◌≡◌, ◌↔◌, refl, true, false, [], ◌∷◌, ◌++◌, some, Text, codes, ok, pos, has_prefix,
  int_string, In, arith, take, if◌then◌else◌, ◌==◌, leb,
}
use centralized_relay.Types.Retry.{
  retry_interval, increment_retry, toggle_processing, is_processing,
}
use centralized_relay.Types.Message.{RouteMessage}
use centralized_relay.Types.Retry.Laws.{increment_retry_waits}
use centralized_relay.Store.Interface.{Holds, done, set_encoded}
use centralized_relay.Store.Keys.{entry_key, chain_key, get_key, entry_key_injective}
use centralized_relay.Store.Pagination.{Pagination}
use centralized_relay.Store.Codec.{message_at}
use centralized_relay.Store.Messages.{store_message, get_message, get_messages, read_messages}
use centralized_relay.Store.Messages.Laws.{get_message-store_message}
use centralized_relay.Store.Messages.Scan.{Decodes, get_messages-Decodes, scanned, scanned_iff}
use centralized_relay.Lvldb.{lvldb, set_by_key, new_iterator}
use centralized_relay.Tests.Disk.{Disk, list_store, list_store-StoreLaws}
use centralized_relay.Tests.Codecs.{route_codec, route_codec-CodecLaws}
use centralized_relay.Tests.World.{icon, today, hello_key, queued}

abbrev box : Text
box = codes "message"

-- The database after `hello` was stored.
abbrev stocked : Disk
stocked = (store_message list_store route_codec box [] (some queued)).0

stored_well : (store_message list_store route_codec box [] (some queued)).1 ≡ done
unfolding store_message set_encoded lvldb set_by_key get_key
stored_well = refl

get_message-store_message_example :
    get_message list_store route_codec box stocked 5 hello_key ≡ ok (message_at 5 queued)
get_message-store_message_example =
    get_message-store_message list_store route_codec box list_store-StoreLaws route_codec-CodecLaws
      [] queued 5 hello_key stored_well refl refl

abbrev page : Pagination
page = record { limit = 10; offset = 0; is_all = false }

page_read :
    get_messages list_store route_codec box stocked 5 icon page ≡ ok (message_at 5 queued ∷ [])
unfolding get_messages read_messages store_message set_encoded lvldb set_by_key new_iterator get_key
    has_prefix
page_read = refl

get_messages-Decodes_example :
    Decodes route_codec 5
      (if page.limit == 0
        then scanned list_store route_codec box stocked icon
        else take page.limit (scanned list_store route_codec box stocked icon))
      (message_at 5 queued ∷ [])
get_messages-Decodes_example =
    get_messages-Decodes list_store route_codec box stocked 5 icon page _ page_read

no_failure : (list_store.new_iterator stocked (chain_key box (codes "ic"))).failure ≡ done
unfolding lvldb new_iterator
no_failure = refl

scanned_iff_example :
    In
      (entry_key box icon (pos 7), codes "v")
      (scanned list_store route_codec box stocked (codes "ic"))
    ↔ ((has_prefix (codes "ic") (icon ++ (b'-' ∷ int_string (pos 7))) ≡ true)
        × Holds list_store stocked (entry_key box icon (pos 7)) (codes "v"))
scanned_iff_example =
    scanned_iff list_store route_codec box list_store-StoreLaws stocked (codes "ic") icon (pos 7)
      (codes "v") no_failure

abbrev seven : ℕ
seven = 7

entry_key_injective_example : (icon ≡ icon) × (seven ≡ seven)
entry_key_injective_example = entry_key_injective box icon icon 7 7 refl

abbrev marked : RouteMessage
marked = toggle_processing queued

increment_retry_waits_example :
    ((increment_retry today marked).retry ≡ marked.retry + 1)
    × (is_processing (today + 5) (increment_retry today marked) ≡ true)
    × (is_processing (today + 5) (toggle_processing (increment_retry today marked))
        ≡ leb (today + 5) (today + retry_interval * 2))
unfolding toggle_processing
increment_retry_waits_example = increment_retry_waits today (today + 5) marked (omega arith) refl
