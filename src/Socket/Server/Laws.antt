-- ===== src/Socket/Server/Laws.antt =====
-- What the requests to remove and to relay a message do to the relayer (relayer/socket/server.go).
use centralized_relay.Common.{
  ℕ, ◌≡◌, ◌≢◌, refl, List, [], ◌∷◌, none, some, false, Text, map, Result, Error, ok, err, ◌>>=◌,
  ◌==◌, In, inl, inr, Result-cases,
}
use centralized_relay.Types.Message.{Message, RouteMessage, message_key, new_route_message}
use centralized_relay.Store.Interface.{StoreLaws, done}
use centralized_relay.Store.Messages.{get_message, delete_message}
use centralized_relay.Store.Messages.Laws.{get_message-delete_message}
use centralized_relay.Runtime.{ChainRuntime}
use centralized_relay.Relayer.State.{Env, State, find_chain_runtime, prefix_message_store}
use centralized_relay.Relayer.State.Cached.{IsCached, IsKnown, add_messages-IsCached}
use centralized_relay.Relayer.Finality.Laws.{In-map}
use centralized_relay.Socket.Wire.{Wire, SocketMessage, ReqMessageRemove, ReqRelayMessage}
use centralized_relay.Socket.Server.Handlers.{
  Reply, request_key, handle_message_remove, remove_message, handle_relay_message, relay_from,
  relay_generated,
}

abbrev refusal : Error → Reply
refusal x = some (err x)

deletion_done :
    {B : Type 0} (r : Result (Unit {0})) (f : Unit {0} → Result B) (b : B)
    → some (r >>= f) ≡ some (ok b)
    → r ≡ done
deletion_done (ok u) f b e = refl
deletion_done (err x) f b e = cc

module _ {D : Type 0} (env : Env D) (w : Wire) (now : ℕ) where
  -- A request to remove a message that is answered without an error has removed it from the
  -- database, where no key with its chain and number reads it; the caches and the message objects
  -- are as they were.
  handle_message_remove_removes :
      (laws : StoreLaws env.store) (bytes : Text) (s : State D) (req : ReqMessageRemove)
      (answer : SocketMessage) (addr : ℕ) (r : RouteMessage)
      → w.req_message_remove.decode s.next bytes ≡ ok req
      → (handle_message_remove env w now bytes s).1 ≡ some (ok answer)
      → (get_message env.store env.messages prefix_message_store
            (handle_message_remove env w now bytes s).0.disk
            addr
            (request_key req.chain req.sn)
          ≢ ok r)
        × ((handle_message_remove env w now bytes s).0.chains ≡ s.chains)
        × ((handle_message_remove env w now bytes s).0.heap ≡ s.heap)
  unfolding handle_message_remove remove_message
  handle_message_remove_removes laws bytes s req answer addr r decoded answered =
      elim (Result-cases stored) [
        | inl (m, e) ↦
            rw (decoded, e, handle_message_remove)
              (
                get_message-delete_message env.store env.messages prefix_message_store laws s.disk
                    addr (request_key req.chain req.sn) (request_key req.chain req.sn) r
                    (deleted m (rw (decoded, e, handle_message_remove) at answered)) refl refl,
                refl,
                refl,
              )
        | inr (x, e) ↦ absurd (refused x (rw (decoded, e, handle_message_remove) at answered))
      ]
    where
      stored : Result RouteMessage
      stored =
          get_message env.store env.messages prefix_message_store s.disk s.next
            (request_key req.chain req.sn)

      deleted :
          (m : RouteMessage)
          → (remove_message env w now req m s).1 ≡ some (ok answer)
          → (delete_message env.store env.messages prefix_message_store s.disk
              (request_key req.chain req.sn)).1
            ≡ done
      deleted m h = deletion_done _ _ answer h

      refused : (x : Error) → refusal x ≡ some (ok answer) → ⊥
      refused x h = cc

  -- A request to relay a message with a height, for a known chain that finds messages at that
  -- height: every one of them is in the cache of the chain afterwards.
  handle_relay_message_caches :
      (bytes : Text) (s : State D) (req : ReqRelayMessage) (src : ChainRuntime) (first : Message)
      (more : List Message) (m : Message)
      → w.req_relay_message.decode s.next bytes ≡ ok req
      → (req.height == 0) ≡ false
      → find_chain_runtime s req.chain ≡ ok src
      → IsKnown req.chain s
      → src.provider.generate_messages now
          (record { key = request_key req.chain req.sn; height = req.height })
        ≡ ok (first ∷ more)
      → In m (first ∷ more)
      → IsCached req.chain (message_key m) (handle_relay_message env w now bytes s).0
  unfolding handle_relay_message relay_from relay_generated new_route_message
  handle_relay_message_caches bytes s req src first more m decoded high known listed generated i =
      rw (decoded, known, high, generated, handle_relay_message, relay_from)
        (add_messages-IsCached req.chain (map new_route_message (first ∷ more))
          (new_route_message m) s listed (In-map m (first ∷ more) i))

  -- When the chain finds no message at the height and no error, the request makes the server panic:
  -- it reads the first of no messages.
  handle_relay_message_panics :
      (bytes : Text) (s : State D) (req : ReqRelayMessage) (src : ChainRuntime)
      → w.req_relay_message.decode s.next bytes ≡ ok req
      → (req.height == 0) ≡ false
      → find_chain_runtime s req.chain ≡ ok src
      → src.provider.generate_messages now
          (record { key = request_key req.chain req.sn; height = req.height })
        ≡ ok []
      → handle_relay_message env w now bytes s ≡ (s, none)
  unfolding handle_relay_message relay_from relay_generated
  handle_relay_message_panics bytes s req src decoded high known generated =
      rw (decoded, known, high, generated, handle_relay_message, relay_from) refl
