-- ===== src/Tests/Relay.antt =====
-- Runs of the relayer's operations on the two chains of the tests.
use centralized_relay.Common.{
  ◌≡◌, ◌≢◌, refl, false, [], ◌∷◌, none, some, Text, ok, err, external, inl, arith, has_prefix,
  text_eq, if◌then◌else◌,
}
use centralized_relay.Types.Message.{RouteMessage, MessageKey, key_eq, message_key}
use centralized_relay.Types.Retry.{toggle_processing}
use centralized_relay.Types.Cache
use centralized_relay.Types.Contracts.{lookup}
use centralized_relay.Store.Interface.{done, set_encoded}
use centralized_relay.Store.Keys.{get_key}
use centralized_relay.Store.Messages.{store_message, get_message, get_messages, read_messages}
use centralized_relay.Store.Finality.{store_tx_object, get_tx_object}
use centralized_relay.Store.Codec.{message_at, tx_object_at}
use centralized_relay.Store.Pagination.{new_pagination, with_limit}
use centralized_relay.Lvldb.{lvldb, set_by_key, delete_by_key, new_iterator}
use centralized_relay.Relayer.State.{
  Env, State, assign, cached_in, find_chain_runtime, prefix_message_store, prefix_finality_store,
  max_flush_message,
}
use centralized_relay.Relayer.Process.{process_message}
use centralized_relay.Relayer.Process.Dispatch.{
  IsDispatchable, process_message_sends, process_message_sent,
}
use centralized_relay.Relayer.Route.{callback, handle_message_failed, tx_object_of}
use centralized_relay.Relayer.Route.Failure.{
  failure_write, handle_message_failed_exhausted, handle_message_failed_stays,
}
use centralized_relay.Relayer.Route.Laws.{callback_final}
use centralized_relay.Tests.Disk.{Disk, list_store-StoreLaws}
use centralized_relay.Tests.Codecs.{route_codec-CodecLaws, object_codec-CodecLaws}
use centralized_relay.Tests.World.{
  icon, eth, today, world, hello, hello_key, queued, tried, icon_provider, eth_provider, runtime,
  waiting, delivery,
}

abbrev ready : State Disk
ready = waiting queued icon_provider eth_provider []

-- `hello` can be sent from `ready`.
ready-IsDispatchable : IsDispatchable today icon_provider hello_key 0 ready
unfolding find_chain_runtime lookup text_eq
ready-IsDispatchable = record {
  dst = runtime eth_provider [];
  found = refl;
  idle = refl;
  due = inl refl;
  receives = refl;
  sends = refl;
  missing = refl;
}

process_message_sends_example :
    process_message world today icon icon_provider hello_key 0 ready ≡ record ready {
      heap = assign ready.heap 0 (toggle_processing queued);
      spawned = record { object = 0; src = icon; dst = eth } ∷ [];
    }
process_message_sends_example =
    process_message_sends world today icon icon_provider hello_key 0 ready ready-IsDispatchable

ready_sent :
    (process_message world today icon icon_provider hello_key 0 ready).spawned ≢ ready.spawned
ready_sent =
    rw (process_message_sends world today icon icon_provider hello_key 0 ready ready-IsDispatchable)
      (λ e. cc)

process_message_sent_example : IsDispatchable today icon_provider hello_key 0 ready
process_message_sent_example =
    process_message_sent world today icon icon_provider hello_key 0 ready ready_sent

abbrev worn : State Disk
worn = waiting tried icon_provider eth_provider []

worn_written : (failure_write world list_store-StoreLaws today 0 worn).1 ≡ done
unfolding store_message set_encoded lvldb set_by_key get_key
worn_written = refl

handle_message_failed_exhausted_example :
    (get_message world.store world.messages prefix_message_store
        (handle_message_failed world today 0 icon worn).disk
        5
        (message_key hello)
      ≡ ok (message_at 5 (toggle_processing tried)))
    × ((key : MessageKey)
        → cached_in icon key (handle_message_failed world today 0 icon worn).chains
          ≡ (if key_eq (message_key hello) key then none else cached_in icon key worn.chains))
handle_message_failed_exhausted_example =
    handle_message_failed_exhausted world list_store-StoreLaws today route_codec-CodecLaws 0 icon
      worn 5 (omega arith) worn_written

abbrev early : State Disk
early = waiting (record tried { retry = 2 }) icon_provider eth_provider []

handle_message_failed_stays_example :
    ((handle_message_failed world today 0 icon early).chains ≡ early.chains)
    × ((handle_message_failed world today 0 icon early).disk ≡ early.disk)
    × (((handle_message_failed world today 0 icon early).heap 0).processing ≡ false)
handle_message_failed_stays_example =
    handle_message_failed_stays world list_store-StoreLaws today 0 icon early (inl (omega arith))
      refl

hello_cached : cached_in icon hello_key worn.chains ≡ some 0
unfolding Cache.get key_eq lookup text_eq
hello_cached = refl

object_written :
    (store_tx_object world.store world.tx_objects prefix_finality_store worn.disk
      (some (tx_object_of hello_key tried delivery))).1
    ≡ done
unfolding store_tx_object set_encoded lvldb set_by_key get_key
object_written = refl

callback_final_example :
    (get_tx_object world.store world.tx_objects prefix_finality_store
        (callback world today icon (runtime eth_provider []) hello_key delivery worn).disk
        5
        hello_key
      ≡ ok (tx_object_at 5 (tx_object_of hello_key tried delivery)))
    × (cached_in icon hello_key
          (callback world today icon (runtime eth_provider []) hello_key delivery worn).chains
        ≡ none)
callback_final_example =
    callback_final world list_store-StoreLaws today object_codec-CodecLaws icon
      (runtime eth_provider []) hello_key delivery worn 0 5 hello_cached refl (omega arith)
      object_written

-- A JSON library that cannot write transaction objects.
abbrev broken : Env Disk
broken = record world { tx_objects = record world.tx_objects { encode = λ t. err (external 3) } }

-- `hello` in the database as well as in the cache.
abbrev stocked : State Disk
stocked =
    waiting queued icon_provider eth_provider
      (store_message world.store world.messages prefix_message_store [] (some queued)).0

abbrev read_back : RouteMessage
read_back = message_at 1 queued

page_read :
    get_messages world.store world.messages prefix_message_store stocked.disk 1 icon
      (with_limit max_flush_message new_pagination)
    ≡ ok (read_back ∷ [])
unfolding get_messages read_messages store_message set_encoded lvldb set_by_key new_iterator get_key
    has_prefix with_limit new_pagination
page_read = refl

deletes : (d : Disk) (k : Text) → (world.store.delete_by_key d k).1 ≡ done
unfolding lvldb delete_by_key
deletes d k = refl
