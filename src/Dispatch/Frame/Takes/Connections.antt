-- ===== src/Dispatch/Frame/Takes/Connections.antt =====
-- The queues of src/impl/core/CallbackManager.cpp for what becomes of connections.
use sm_ext_socket.Base.{◌≡◌, refl, ap, inl, inr, List, ◌∷◌, ◌++◌, map}
use sm_ext_socket.Spsc.{Spsc}
use sm_ext_socket.CallbackManager.{CallbackManager, ConnectEvent, ListenEvent, IncomingEvent}
use sm_ext_socket.CallbackManager.Contents.{Waiting, Queue, Holds}
use sm_ext_socket.Dispatch.{connected, listening, accepted}
use sm_ext_socket.Dispatch.Frame.Kinds.{pending, only}
use sm_ext_socket.Dispatch.Frame.{Kind, connects, listens, incomings, take_from, as_queued}
use sm_ext_socket.Dispatch.Frame.Took.{pop_Queue, Took, none_left, one_less}

pub take_connects :
    (m : CallbackManager) (x : Waiting)
    → Holds m x
    → Took connects x (take_from connects m).0 (take_from connects m).1
unfolding take_from
take_connects m x h = elim (pop_Queue 256 m.connect_queue x.connects h.connect_queue) [
  | inl (empty, found, q) ↦
      none_left (ap (map connected) empty) (ap (as_queued connected) found) (put x.connects q)
  | inr (e, rest, split, found, q) ↦
      one_less (connected e) (record x { connects = rest }) (ap (as_queued connected) found)
        (put rest q) refl (by_kind e rest split)
]
  where
    put :
        {q : Spsc ConnectEvent} (xs : List ConnectEvent)
        → Queue 256 q xs
        → Holds (record m { connect_queue = q }) (record x { connects = xs })
    put xs kept = record {
      connect_queue = kept;
      disconnect_queue = h.disconnect_queue;
      listen_queue = h.listen_queue;
      incoming_queue = h.incoming_queue;
      data_queue = h.data_queue;
      error_queue = h.error_queue;
    }

    by_kind :
        (e : ConnectEvent) (rest : List ConnectEvent)
        → x.connects ≡ e ∷ rest
        → (j : Kind)
        → pending j x ≡ only j (connected e) ++ pending j (record x { connects = rest })
    by_kind e rest split connects = ap (map connected) split
    by_kind e rest split j = refl

pub take_listens :
    (m : CallbackManager) (x : Waiting)
    → Holds m x
    → Took listens x (take_from listens m).0 (take_from listens m).1
unfolding take_from
take_listens m x h = elim (pop_Queue 64 m.listen_queue x.listens h.listen_queue) [
  | inl (empty, found, q) ↦
      none_left (ap (map listening) empty) (ap (as_queued listening) found) (put x.listens q)
  | inr (e, rest, split, found, q) ↦
      one_less (listening e) (record x { listens = rest }) (ap (as_queued listening) found)
        (put rest q) refl (by_kind e rest split)
]
  where
    put :
        {q : Spsc ListenEvent} (xs : List ListenEvent)
        → Queue 64 q xs
        → Holds (record m { listen_queue = q }) (record x { listens = xs })
    put xs kept = record {
      connect_queue = h.connect_queue;
      disconnect_queue = h.disconnect_queue;
      listen_queue = kept;
      incoming_queue = h.incoming_queue;
      data_queue = h.data_queue;
      error_queue = h.error_queue;
    }

    by_kind :
        (e : ListenEvent) (rest : List ListenEvent)
        → x.listens ≡ e ∷ rest
        → (j : Kind) → pending j x ≡ only j (listening e) ++ pending j (record x { listens = rest })
    by_kind e rest split listens = ap (map listening) split
    by_kind e rest split j = refl

pub take_incomings :
    (m : CallbackManager) (x : Waiting)
    → Holds m x
    → Took incomings x (take_from incomings m).0 (take_from incomings m).1
unfolding take_from
take_incomings m x h = elim (pop_Queue 256 m.incoming_queue x.incomings h.incoming_queue) [
  | inl (empty, found, q) ↦
      none_left (ap (map accepted) empty) (ap (as_queued accepted) found) (put x.incomings q)
  | inr (e, rest, split, found, q) ↦
      one_less (accepted e) (record x { incomings = rest }) (ap (as_queued accepted) found)
        (put rest q) refl (by_kind e rest split)
]
  where
    put :
        {q : Spsc IncomingEvent} (xs : List IncomingEvent)
        → Queue 256 q xs
        → Holds (record m { incoming_queue = q }) (record x { incomings = xs })
    put xs kept = record {
      connect_queue = h.connect_queue;
      disconnect_queue = h.disconnect_queue;
      listen_queue = h.listen_queue;
      incoming_queue = kept;
      data_queue = h.data_queue;
      error_queue = h.error_queue;
    }

    by_kind :
        (e : IncomingEvent) (rest : List IncomingEvent)
        → x.incomings ≡ e ∷ rest
        → (j : Kind)
        → pending j x ≡ only j (accepted e) ++ pending j (record x { incomings = rest })
    by_kind e rest split incomings = ap (map accepted) split
    by_kind e rest split j = refl
