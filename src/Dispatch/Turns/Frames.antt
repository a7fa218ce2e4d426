-- ===== src/Dispatch/Turns/Frames.antt =====
-- Every order of the two threads at the queues of src/impl/core/CallbackManager.cpp.
use sm_ext_socket.Base.{◌≡◌, ◌≤◌, refl, sym, subst, ◌∙◌, ◌⊎◌, inl, inr, List, [], ◌∷◌, arith}
use sm_ext_socket.Base.Int.{pos_part}
use sm_ext_socket.SocketTypes.{GlobalOptions, get_global, callbacks_per_frame}
use sm_ext_socket.CallbackManager.{new_manager}
use sm_ext_socket.CallbackManager.Contents.{new_manager-Holds}
use sm_ext_socket.CallbackManager.Buffers.{Owned}
use sm_ext_socket.Dispatch.{Game, Host, Queued, returned, fault}
use sm_ext_socket.Dispatch.Safety.{Safe, Gentle, Safe-sockets}
use sm_ext_socket.Dispatch.Safety.Arriving.{enqueue-Safe, enqueue_receive-Safe}
use sm_ext_socket.Dispatch.Frame.{Progress, process_pending_callbacks}
use sm_ext_socket.Dispatch.Frame.Safety.{process_pending_callbacks-Safe}
use sm_ext_socket.Dispatch.Turns.{
  Arrival, event, bytes, arrive, arrive_all, with_arrivals, put, clear, Turn, arrives, makes,
  deletes, frames, Reach, new, next, start,
}

arrive-Safe : (hand : List Queued) (a : Arrival) (w : Game) → Safe hand w → Safe hand (arrive a w)
arrive-Safe hand (event e) w s = enqueue-Safe w.options hand w s e
arrive-Safe hand (bytes available p text sender) w s =
    enqueue_receive-Safe w.options hand w s available p text sender

arrive_all-Safe :
    (hand : List Queued) (arrivals : List Arrival) (w : Game)
    → Safe hand w
    → Safe hand (arrive_all arrivals w)
arrive_all-Safe hand [] w s = s
arrive_all-Safe hand (a ∷ rest) w s =
    arrive_all-Safe hand rest (arrive a w) (arrive-Safe hand a w s)

pub with_arrivals-Gentle :
    (host : Host) (arrivals : Game → List Arrival)
    → Gentle host
    → Gentle (with_arrivals host arrivals)
with_arrivals-Gentle host arrivals gentle = record {
  execute = λ i hand w s. arrive_all-Safe hand (arrivals _) _ (gentle.execute i hand w s);
  create_handle =
      λ p hand w s. arrive_all-Safe hand (arrivals _) _ (gentle.create_handle p hand w s);
  free_handle = λ h w s. arrive_all-Safe [] (arrivals _) _ (gentle.free_handle h w s);
}

new_manager-Owned : Owned new_manager.memory []
unfolding new_manager
new_manager-Owned = record { blocks = tt; rising = omega arith; no_leak = λ p. inl refl }

start-Safe : (g : GlobalOptions) → Safe [] (start g)
start-Safe g = record {
  now = record {
    connects = [];
    disconnects = [];
    listens = [];
    incomings = [];
    receives = [];
    errors = [];
  };
  holds = new_manager-Holds;
  owned = new_manager-Owned;
}

module _ (host : Host) (gentle : Gentle host) where
  Turn-Safe : (v w : Game) → Turn host v w → Safe [] v → Safe [] w
  Turn-Safe v w (arrives a e) s = subst (Safe []) (sym e) (arrive-Safe [] a v s)
  Turn-Safe v w (makes p b e) s = subst (Safe []) (sym e) (Safe-sockets [] v (put p b v.sockets) s)
  Turn-Safe v w (deletes p e) s = subst (Safe []) (sym e) (Safe-sockets [] v (clear p v.sockets) s)
  Turn-Safe v w (frames p e) s = elim (process_pending_callbacks-Safe host gentle v s) [
    | inl faults ↦ absurd (not_both (sym faults ∙ e))
    | inr (p', w', run, _, safe) ↦ subst (Safe []) (same_end (sym run ∙ e)) safe
  ]
    where
      not_both : {p : Progress} {a : Game} → fault ≡ returned p a → ⊥
      not_both q = cc q

      same_end : {p p' : Progress} {a b : Game} → returned p a ≡ returned p' b → a ≡ b
      same_end q = cc q

  Reach-Safe : (w : Game) → Reach host w → Safe [] w
  Reach-Safe w (new g) = start-Safe g
  Reach-Safe w (next r turn) = Turn-Safe _ w turn (Reach-Safe _ r)

  -- However the two threads take turns from the start on, the libuv thread enqueueing events and bytes
  -- between frames and within the host's calls, the game thread making and deleting any sockets, and
  -- whatever the plugins do that takes no event and frees no block: in every state that is reached, the
  -- blocks of received data are those of the waiting events, one each. The next frame reads a socket or
  -- a function that is gone, or it comes back within its budget, in such a state again; it uses no block
  -- that was freed, frees none twice, and reads no raw slot.
  pub process_pending_callbacks-Reach :
      (w : Game)
      → Reach host w
      → Safe [] w
        × ((process_pending_callbacks host w ≡ fault)
            ⊎ ((p : Progress) × (w' : Game) × (process_pending_callbacks host w ≡ returned p w')
                × (p.processed ≤ pos_part (get_global w.options callbacks_per_frame))
                × Safe [] w'))
  process_pending_callbacks-Reach w r =
      let s = Reach-Safe w r in
      (
        s,
        elim (process_pending_callbacks-Safe host gentle w s) [
          | inl faults ↦ inl faults
          | inr (p, w', run, counts, s') ↦ inr (p, w', run, counts.1, s')
        ],
      )
