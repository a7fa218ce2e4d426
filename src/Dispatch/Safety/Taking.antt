-- ===== src/Dispatch/Safety/Taking.antt =====
-- Taking an event from a queue of src/impl/core/CallbackManager.cpp, and the blocks of received data.
use sm_ext_socket.Base.{◌≡◌, refl, sym, ap, subst, ◌∙◌, List, [], ◌∷◌, ◌++◌, map}
use sm_ext_socket.Spsc.{Taken, nothing, item, raw}
use sm_ext_socket.CallbackManager.{CallbackManager, DataEvent}
use sm_ext_socket.CallbackManager.Contents.{Waiting, Holds}
use sm_ext_socket.CallbackManager.Buffers.{Owned}
use sm_ext_socket.Dispatch.{
  Game, Queued, connected, disconnected, listening, accepted, received, failed,
}
use sm_ext_socket.Dispatch.Safety.{data_of, Safe}
use sm_ext_socket.Dispatch.Frame.{
  Kind, connects, listens, incomings, receives, disconnects, errors, take_from,
}
use sm_ext_socket.Dispatch.Frame.Kinds.{only}
use sm_ext_socket.Dispatch.Frame.Took.{Took, none_left, one_less}
use sm_ext_socket.Dispatch.Frame.Takes.{take_from-Took}
use sm_ext_socket.Dispatch.Frame.Answers.{take_from-empty, take_from-item}

take_from-memory : (k : Kind) (m : CallbackManager) → (take_from k m).1.memory ≡ m.memory
unfolding take_from
take_from-memory connects m = refl
take_from-memory listens m = refl
take_from-memory incomings m = refl
take_from-memory receives m = refl
take_from-memory disconnects m = refl
take_from-memory errors m = refl

data_of-map : (ds : List DataEvent) → data_of (map received ds) ≡ ds
data_of-map [] = refl
data_of-map (d ∷ ds) = ap (λ l. d ∷ l) (data_of-map ds)

-- The data events after one of any kind was taken.
data_of-only :
    (e : Queued) (ds : List DataEvent)
    → data_of (only receives e ++ map received ds) ≡ data_of (e ∷ []) ++ ds
data_of-only (received e) ds = ap (λ l. e ∷ l) (data_of-map ds)
data_of-only (connected e) ds = data_of-map ds
data_of-only (disconnected e) ds = data_of-map ds
data_of-only (listening e) ds = data_of-map ds
data_of-only (accepted e) ds = data_of-map ds
data_of-only (failed e) ds = data_of-map ds

-- No queue gives a raw slot.
pub take_from-raw :
    (k : Kind) (m : CallbackManager) (x : Waiting) → Holds m x → (take_from k m).0 ≡ raw → ⊥
take_from-raw k m x h found = by_case (take_from-Took k m x h)
  where
    nothing-ne : ◌≡◌ {A = Taken Queued} nothing raw → ⊥
    nothing-ne q = cc q

    item-ne : (e : Queued) → item e ≡ raw → ⊥
    item-ne e q = cc q

    by_case : Took k x (take_from k m).0 (take_from k m).1 → ⊥
    by_case (none_left z t h') = nothing-ne (sym t ∙ found)
    by_case (one_less e x' t h' same split) = item-ne e (sym t ∙ found)

-- An event that was taken is at hand.
pub taken_in_hand :
    (k : Kind) (w : Game) (e : Queued)
    → Safe [] w
    → (take_from k w.events).0 ≡ item e
    → Safe (e ∷ []) (record w { events = (take_from k w.events).1 })
taken_in_hand k w e s found =
    let (x', h', split, same) = take_from-item k w.events s.now e s.holds found in
    let receives_left : s.now.receives ≡ data_of (e ∷ []) ++ x'.receives =
      sym (data_of-map s.now.receives) ∙ ap data_of (split receives) ∙ data_of-only e x'.receives in
    record {
      now = x';
      holds = h';
      owned =
          subst (λ m. Owned m (data_of (e ∷ []) ++ x'.receives)) (sym (take_from-memory k w.events))
            (subst (Owned w.events.memory) receives_left s.owned);
    }

pub taken_nothing :
    (k : Kind) (w : Game)
    → Safe [] w
    → (take_from k w.events).0 ≡ nothing
    → Safe [] (record w { events = (take_from k w.events).1 })
taken_nothing k w s dry =
    let (_, h) = take_from-empty k w.events s.now s.holds dry in
    record {
      now = s.now;
      holds = h;
      owned = subst (λ m. Owned m s.now.receives) (sym (take_from-memory k w.events)) s.owned;
    }
