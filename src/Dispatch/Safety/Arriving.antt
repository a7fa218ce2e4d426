-- ===== src/Dispatch/Safety/Arriving.antt =====
-- The `Enqueue` methods of src/impl/core/CallbackManager.cpp and the blocks of received data, be it
-- between two frames or while an event is executed.
use sm_ext_socket.Base.{ℕ, ◌≡◌, refl, sym, subst, Bool, true, false, List, ◌++◌}
use sm_ext_socket.SocketTypes.{RemoteEndpoint, GlobalOptions}
use sm_ext_socket.Spsc.Queue.{push}
use sm_ext_socket.CallbackManager.{enqueue_receive}
use sm_ext_socket.CallbackManager.Enqueue.{Event, arrive, enqueue, enqueue-Settled}
use sm_ext_socket.CallbackManager.Buffers.{Owned}
use sm_ext_socket.CallbackManager.Buffers.Receive.{
  data_event, enqueue_receive-no_memory, enqueue_receive-Owned_behind,
}
use sm_ext_socket.Dispatch.{Game, Queued}
use sm_ext_socket.Dispatch.Safety.{data_of, Safe}

module _ (g : GlobalOptions) (hand : List Queued) (w : Game) (s : Safe hand w) where
  arrive-receives : (e : Event) → (arrive e s.now).0.receives ≡ s.now.receives
  arrive-receives (Event.connected p x) = refl
  arrive-receives (Event.disconnected p) = refl
  arrive-receives (Event.listening p x) = refl
  arrive-receives (Event.accepted p n x) = refl
  arrive-receives (Event.failed p t text) = refl

  pub enqueue-Safe : (e : Event) → Safe hand (record w { events = enqueue g e w.events })
  enqueue-Safe e =
      let settled = enqueue-Settled g e w.events s.now s.holds in
      record {
        now = (arrive e s.now).0;
        holds = settled.holds;
        owned =
            subst (λ m. Owned m (data_of hand ++ (arrive e s.now).0.receives))
              (sym settled.memory_is)
              (subst (λ ds. Owned w.events.memory (data_of hand ++ ds)) (sym (arrive-receives e))
                s.owned);
      }

  pub enqueue_receive-Safe :
      (available : Bool) (p : ℕ) (bytes : List ℕ) (sender : RemoteEndpoint)
      → Safe hand (record w { events = enqueue_receive g available p bytes sender w.events })
  enqueue_receive-Safe false p bytes sender =
      let settled = enqueue_receive-no_memory g p bytes sender w.events s.now s.holds in
      record {
        now = s.now;
        holds = settled.holds;
        owned =
            subst (λ m. Owned m (data_of hand ++ s.now.receives)) (sym settled.memory_is) s.owned;
      }
  enqueue_receive-Safe true p bytes sender =
      let (owned, holds, _) =
        enqueue_receive-Owned_behind g p bytes sender w.events s.now s.holds (data_of hand)
          s.owned in
      record {
        now = record s.now {
          receives = (push 1024 s.now.receives (data_event p bytes sender w.events.memory)).0;
        };
        holds = holds;
        owned = owned;
      }
