-- ===== src/Tests/Loops.antt =====
-- Runs of the relayer's loops on the two chains of the tests: flushes, blocks, finality, and a whole
-- run of events.
use centralized_relay.Common.{
  ℕ, ◌≡◌, refl, true, false, List, [], ◌∷◌, some, Text, codes, ok, pos, int_string, Bool, inl, In,
  ◌≢◌, arith, has_prefix, text_eq,
}
use centralized_relay.Types.Message.{RouteMessage, message_key, Receipt, BlockInfo}
use centralized_relay.Types.Contracts.{lookup}
use centralized_relay.Store.Interface.{done, set_encoded}
use centralized_relay.Store.Keys.{get_key}
use centralized_relay.Store.Messages.{store_message, get_messages, read_messages}
use centralized_relay.Store.Blocks.{store_block, get_last_stored_block}
use centralized_relay.Store.Finality.{delete_tx_object, get_tx_object}
use centralized_relay.Store.Codec.{message_at}
use centralized_relay.Store.Pagination.{new_pagination, with_limit}
use centralized_relay.Lvldb.{lvldb, set_by_key, get_by_key, delete_by_key, new_iterator}
use centralized_relay.Chain.{chain_nid, put}
use centralized_relay.Provider.{Provider}
use centralized_relay.Runtime.{new_chain_runtime}
use centralized_relay.Relayer.State.{
  State, prefix_message_store, prefix_finality_store, max_flush_message,
}
use centralized_relay.Relayer.State.Cached.{IsCached, IsKnown}
use centralized_relay.Relayer.Flush.{read_active, flush_chain}
use centralized_relay.Relayer.Flush.Laws.{flush_chain_caches}
use centralized_relay.Relayer.Blocks.{process_block_info, save_block_height}
use centralized_relay.Relayer.Blocks.Laws.{process_block_info_caches}
use centralized_relay.Relayer.Blocks.Restart.{save_block_height_restart}
use centralized_relay.Relayer.Finality.Laws.{
  IsReverted, IsDeep, record_key, checked, check_tx_object_final, check_tx_object_regenerates,
}
use centralized_relay.Relayer.Start.{
  Event, new_relayer, start_chain_listeners, run, chain_runtimes, with_saved_height, relayer_over,
  started, block, route_timer, route_begins, route_ends,
}
use centralized_relay.Relayer.Flight.{IsSingleFlight}
use centralized_relay.Relayer.Flight.Run.{run-IsSingleFlight}
use centralized_relay.Tests.Disk.{Disk, list_store-StoreLaws}
use centralized_relay.Tests.Codecs.{height_codec-CodecLaws}
use centralized_relay.Tests.World.{
  icon, eth, today, world, hello, hello_key, queued, open_chain, icon_provider, eth_provider,
  runtime, waiting, delivery, tx_object, both, chain,
}

abbrev stocked : State Disk
stocked =
    waiting queued icon_provider eth_provider
      (store_message world.store world.messages prefix_message_store [] (some queued)).0

abbrev read_back : RouteMessage
read_back = message_at 1 queued

page_read : read_active world stocked icon max_flush_message ≡ ok (read_back ∷ [])
unfolding read_active get_messages read_messages store_message set_encoded lvldb set_by_key
    new_iterator get_key has_prefix with_limit new_pagination
page_read = refl

icon-IsKnown : IsKnown icon stocked
unfolding lookup text_eq
icon-IsKnown = (runtime icon_provider ((hello_key, 0) ∷ []), refl)

flush_chain_caches_example :
    IsCached icon (message_key read_back.message) (flush_chain world icon icon stocked)
flush_chain_caches_example =
    flush_chain_caches world icon icon stocked (read_back ∷ []) read_back page_read (inl refl)
      (omega arith) icon-IsKnown

abbrev hello_block : BlockInfo
hello_block = record { height = 100; messages = hello ∷ [] }

process_block_info_caches_example :
    IsCached icon (message_key hello) (process_block_info world icon hello_block stocked)
process_block_info_caches_example =
    process_block_info_caches world icon hello_block hello stocked icon-IsKnown (inl refl)

height_saved : (save_block_height world icon icon 400 stocked).1 ≡ done
unfolding save_block_height store_block set_encoded lvldb set_by_key get_key store_message
height_saved = refl

abbrev restarted : State Disk
restarted =
    started world (save_block_height world icon icon 400 stocked).0.disk (λ p. queued)
      ((icon, record (runtime icon_provider []) { last_saved_height = 400 })
        ∷ (eth, runtime eth_provider [])
        ∷ [])

restart :
    new_relayer world
      (save_block_height world icon icon 400 stocked).0.disk
      (λ p. queued)
      both
      false
    ≡ ok restarted
unfolding save_block_height store_block set_encoded lvldb set_by_key get_key store_message
    new_relayer relayer_over chain_runtimes with_saved_height new_chain_runtime chain_nid put
    get_last_stored_block get_by_key text_eq
restart = refl

save_block_height_restart_example : In (icon, 400) (start_chain_listeners world restarted.chains)
unfolding chain_nid
save_block_height_restart_example =
    save_block_height_restart world list_store-StoreLaws height_codec-CodecLaws
      (chain icon_provider) 400 icon icon stocked restarted (λ p. queued) both height_saved
      (inl refl) restart

-- A database with the record of the delivery of `hello` on `eth`.
abbrev object_key : Text
object_key = get_key (prefix_finality_store ∷ eth ∷ int_string (pos 7) ∷ [])

abbrev recorded : Provider → State Disk
recorded from = waiting queued from eth_provider ((object_key, codes "{}") ∷ [])

abbrev receipt_of : Text → Bool → Receipt
receipt_of hash status = record { tx_hash = hash; height = 120; status = status }

good : text_eq (codes "good") (codes "good") ≡ true
unfolding text_eq
good = refl

deep : (hash : Text) (s : State Disk) → IsDeep world today eth_provider 10 500 (tx_object hash) s
deep hash s = (omega arith, omega arith)

record_deleted :
    (world.store.delete_by_key (recorded icon_provider).disk (
      record_key world today eth_provider 10 500
        (tx_object (codes "good"))
        (recorded icon_provider))).1
    ≡ done
unfolding lvldb delete_by_key
record_deleted = refl

other_key :
    record_key world today eth_provider 10 500 (tx_object (codes "good")) (recorded icon_provider)
    ≢ []
unfolding get_key
other_key e = cc

check_tx_object_final_example :
    (get_tx_object world.store world.tx_objects prefix_finality_store
        (checked world today eth_provider 10 500
          (tx_object (codes "good"))
          (recorded icon_provider)).disk
        1
        (tx_object (codes "good")).message_key.key
      ≢ ok (tx_object (codes "good")))
    × (world.store.get_by_key
          (checked world today eth_provider 10 500
            (tx_object (codes "good"))
            (recorded icon_provider)).disk
          []
        ≡ world.store.get_by_key (recorded icon_provider).disk [])
    × (checked world today eth_provider 10 500 (tx_object (codes "good")) (recorded icon_provider)
        ≡ record (recorded icon_provider) {
          disk =
              (checked world today eth_provider 10 500
                (tx_object (codes "good"))
                (recorded icon_provider)).disk;
        })
check_tx_object_final_example =
    check_tx_object_final world today eth_provider 10 500 (tx_object (codes "good"))
      (recorded icon_provider) list_store-StoreLaws (deep (codes "good") (recorded icon_provider))
      (receipt_of (codes "good") (text_eq (codes "good") (codes "good"))) refl good record_deleted
      (tx_object (codes "good")).message_key.key 1 (tx_object (codes "good")) [] refl refl other_key

-- The transaction is no longer there, and the source can or cannot make the message again.
reverted :
    (lost : Bool)
    → IsReverted world today eth_provider 10 500
        (tx_object (codes "lost"))
        (recorded (open_chain icon 10 lost))
        (runtime (open_chain icon 10 lost) ((hello_key, 0) ∷ []))
unfolding lookup delete_tx_object lvldb delete_by_key text_eq
reverted lost = record {
  deep = deep (codes "lost") (recorded (open_chain icon 10 lost));
  receipt = receipt_of (codes "lost") false;
  answered = refl;
  status = refl;
  known = refl;
  deletes = refl;
}

check_tx_object_regenerates_example :
    IsCached icon
      (message_key hello)
      (checked world today eth_provider 10 500 (tx_object (codes "lost")) (recorded icon_provider))
check_tx_object_regenerates_example =
    check_tx_object_regenerates world today eth_provider 10 500 (tx_object (codes "lost"))
      (recorded icon_provider) (runtime icon_provider ((hello_key, 0) ∷ [])) (hello ∷ []) hello
      (reverted false) refl (inl refl)

-- A block, a round of `processMessages`, and the routing goroutine that it starts.
abbrev events : List (ℕ × Event)
events =
    (today, block icon hello_block)
    ∷ (today, route_timer)
    ∷ (today, route_begins 0)
    ∷ (today, route_timer)
    ∷ (today, route_ends 0 (record { calls = (hello_key, delivery) ∷ []; returned = ok tt }))
    ∷ []

abbrev begun : State Disk
begun =
    started world [] (λ p. queued)
      ((icon, runtime icon_provider []) ∷ (eth, runtime eth_provider []) ∷ [])

relayer_begun : new_relayer world [] (λ p. queued) both false ≡ ok begun
unfolding new_relayer relayer_over chain_runtimes with_saved_height new_chain_runtime chain_nid put
    get_last_stored_block lvldb get_by_key text_eq
relayer_begun = refl

run-IsSingleFlight_example : IsSingleFlight (run world begun events)
run-IsSingleFlight_example =
    run-IsSingleFlight world [] (λ p. queued) both false begun events relayer_begun
