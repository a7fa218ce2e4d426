-- ===== src/Dispatch/Frame/Takes.antt =====
-- What `try_dequeue` on the queue of a kind takes, by the lists that the queues hold.
pub mod Connections
use sm_ext_socket.Base.{ℕ, ◌≡◌, refl, ap, ◌∙◌, ◌⊎◌, inl, inr, List, [], ◌∷◌, ◌++◌, map}
use sm_ext_socket.Spsc.{Spsc, Taken, nothing, item, try_dequeue}
use sm_ext_socket.Spsc.Queue.{try_dequeue-Dequeued}
use sm_ext_socket.CallbackManager.{
  CallbackManager, ConnectEvent, DisconnectEvent, ListenEvent, IncomingEvent, DataEvent, ErrorEvent,
}
use sm_ext_socket.CallbackManager.Contents.{Waiting, Queue, Holds}
use sm_ext_socket.Dispatch.{Queued, connected, disconnected, listening, accepted, received, failed}
use sm_ext_socket.Dispatch.Frame.Kinds.{pending, only}
use sm_ext_socket.Dispatch.Frame.{
  Kind, connects, listens, incomings, receives, disconnects, errors, take_from, as_queued,
}
use sm_ext_socket.Dispatch.Frame.Took.{pop_Queue, Took, none_left, one_less}
use sm_ext_socket.Dispatch.Frame.Takes.Connections.{take_connects, take_listens, take_incomings}

take_receives :
    (m : CallbackManager) (x : Waiting)
    → Holds m x
    → Took receives x (take_from receives m).0 (take_from receives m).1
unfolding take_from
take_receives m x h = elim (pop_Queue 1024 m.data_queue x.receives h.data_queue) [
  | inl (empty, found, q) ↦
      none_left (ap (map received) empty) (ap (as_queued received) found) (put x.receives q)
  | inr (e, rest, split, found, q) ↦
      one_less (received e) (record x { receives = rest }) (ap (as_queued received) found)
        (put rest q) refl (by_kind e rest split)
]
  where
    put :
        {q : Spsc DataEvent} (xs : List DataEvent)
        → Queue 1024 q xs
        → Holds (record m { data_queue = q }) (record x { receives = xs })
    put xs kept = record {
      connect_queue = h.connect_queue;
      disconnect_queue = h.disconnect_queue;
      listen_queue = h.listen_queue;
      incoming_queue = h.incoming_queue;
      data_queue = kept;
      error_queue = h.error_queue;
    }

    by_kind :
        (e : DataEvent) (rest : List DataEvent)
        → x.receives ≡ e ∷ rest
        → (j : Kind) → pending j x ≡ only j (received e) ++ pending j (record x { receives = rest })
    by_kind e rest split receives = ap (map received) split
    by_kind e rest split j = refl

take_disconnects :
    (m : CallbackManager) (x : Waiting)
    → Holds m x
    → Took disconnects x (take_from disconnects m).0 (take_from disconnects m).1
unfolding take_from
take_disconnects m x h = elim (pop_Queue 256 m.disconnect_queue x.disconnects h.disconnect_queue) [
  | inl (empty, found, q) ↦
      none_left (ap (map disconnected) empty) (ap (as_queued disconnected) found)
        (put x.disconnects q)
  | inr (e, rest, split, found, q) ↦
      one_less (disconnected e) (record x { disconnects = rest })
        (ap (as_queued disconnected) found) (put rest q) refl (by_kind e rest split)
]
  where
    put :
        {q : Spsc DisconnectEvent} (xs : List DisconnectEvent)
        → Queue 256 q xs
        → Holds (record m { disconnect_queue = q }) (record x { disconnects = xs })
    put xs kept = record {
      connect_queue = h.connect_queue;
      disconnect_queue = kept;
      listen_queue = h.listen_queue;
      incoming_queue = h.incoming_queue;
      data_queue = h.data_queue;
      error_queue = h.error_queue;
    }

    by_kind :
        (e : DisconnectEvent) (rest : List DisconnectEvent)
        → x.disconnects ≡ e ∷ rest
        → (j : Kind)
        → pending j x ≡ only j (disconnected e) ++ pending j (record x { disconnects = rest })
    by_kind e rest split disconnects = ap (map disconnected) split
    by_kind e rest split j = refl

take_errors :
    (m : CallbackManager) (x : Waiting)
    → Holds m x
    → Took errors x (take_from errors m).0 (take_from errors m).1
unfolding take_from
take_errors m x h = elim (pop_Queue 256 m.error_queue x.errors h.error_queue) [
  | inl (empty, found, q) ↦
      none_left (ap (map failed) empty) (ap (as_queued failed) found) (put x.errors q)
  | inr (e, rest, split, found, q) ↦
      one_less (failed e) (record x { errors = rest }) (ap (as_queued failed) found) (put rest q)
        refl (by_kind e rest split)
]
  where
    put :
        {q : Spsc ErrorEvent} (xs : List ErrorEvent)
        → Queue 256 q xs
        → Holds (record m { error_queue = q }) (record x { errors = xs })
    put xs kept = record {
      connect_queue = h.connect_queue;
      disconnect_queue = h.disconnect_queue;
      listen_queue = h.listen_queue;
      incoming_queue = h.incoming_queue;
      data_queue = h.data_queue;
      error_queue = kept;
    }

    by_kind :
        (e : ErrorEvent) (rest : List ErrorEvent)
        → x.errors ≡ e ∷ rest
        → (j : Kind) → pending j x ≡ only j (failed e) ++ pending j (record x { errors = rest })
    by_kind e rest split errors = ap (map failed) split
    by_kind e rest split j = refl

pub take_from-Took :
    (k : Kind) (m : CallbackManager) (x : Waiting)
    → Holds m x
    → Took k x (take_from k m).0 (take_from k m).1
take_from-Took connects = take_connects
take_from-Took listens = take_listens
take_from-Took incomings = take_incomings
take_from-Took receives = take_receives
take_from-Took disconnects = take_disconnects
take_from-Took errors = take_errors
