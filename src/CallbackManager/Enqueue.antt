-- ===== src/CallbackManager/Enqueue.antt =====
-- Each `Enqueue` method of src/impl/core/CallbackManager.cpp but that for data: where its event goes.
use sm_ext_socket.Base.{
  ℕ, ◌≡◌, refl, ◌∙◌, Bool, true, false, List, if◌then◌else◌, Bool-cases, inl, inr,
}
use sm_ext_socket.Base.Int.{nonzero}
use sm_ext_socket.SocketTypes.{SocketError, RemoteEndpoint, GlobalOptions, get_global, debug_mode}
use sm_ext_socket.Spsc.{Spsc, try_enqueue}
use sm_ext_socket.Spsc.Queue.{push, try_enqueue-Enqueued}
use sm_ext_socket.CallbackManager.{
  Memory, Message, connect_queue_full, disconnect_queue_full, listen_queue_full,
  incoming_queue_full, error_queue_full, CallbackManager, log_error, enqueue_connect,
  enqueue_disconnect, enqueue_listen, enqueue_incoming, enqueue_error,
}
use sm_ext_socket.CallbackManager.Contents.{Waiting, Queue, Holds, logged}

-- A queue after `try_enqueue`, and its answer.
pub put_Queue :
    {A : Type 0} (c : ℕ) (q : Spsc A) (xs : List A) (x : A)
    → Queue c q xs
    → Queue c (try_enqueue q x).0 (push c xs x).0 × ((try_enqueue q x).1 ≡ (push c xs x).1)
put_Queue c q xs x (e, v) =
    let r = try_enqueue-Enqueued q xs x v in
    ((r.same_capacity ∙ e, rw (← e) r.holds), rw (← e) r.answer)

-- A manager with these events in its queues, this log and this memory.
pub record Settled (m : CallbackManager) (w : Waiting) (log : List Message) (h : Memory)
    : Type 0 where
  pub holds : Holds m w
  pub log_is : m.log ≡ log
  pub memory_is : m.memory ≡ h

-- The events that these methods make.
pub data Event : Type 0 where
  connected : ℕ → RemoteEndpoint → Event
  disconnected : ℕ → Event
  listening : ℕ → RemoteEndpoint → Event
  accepted : ℕ → ℕ → RemoteEndpoint → Event
  failed : ℕ → SocketError → List ℕ → Event

-- Where an event goes: the lists after it, whether it was taken, and the message if not.
abbrev pub arrive : Event → Waiting → Waiting × Bool × Message
arrive (connected s e) w =
    let (xs, taken) = push 256 w.connects (record { socket = s; remote_endpoint = e }) in
    (record w { connects = xs }, taken, connect_queue_full)
arrive (disconnected s) w =
    let (xs, taken) = push 256 w.disconnects (record { socket = s }) in
    (record w { disconnects = xs }, taken, disconnect_queue_full)
arrive (listening s e) w =
    let (xs, taken) = push 64 w.listens (record { socket = s; local_endpoint = e }) in
    (record w { listens = xs }, taken, listen_queue_full)
arrive (accepted s n e) w =
    let (xs, taken) =
      push 256 w.incomings (record { socket = s; new_socket = n; remote_endpoint = e }) in
    (record w { incomings = xs }, taken, incoming_queue_full)
arrive (failed s t text) w =
    let (xs, taken) = push 256 w.errors (record { socket = s; error_type = t; error_msg = text }) in
    (record w { errors = xs }, taken, error_queue_full)

module _ (g : GlobalOptions) where
  pub log_error-Settled :
      (message : Message) (m : CallbackManager) (w : Waiting)
      → Holds m w
      → Settled (log_error g message m) w (logged g m.log false message) m.memory
  unfolding log_error
  log_error-Settled message m w h = elim (Bool-cases (nonzero (get_global g debug_mode))) [
    | inl debug ↦
        rw (debug, log_error)
          (record {
            holds = record {
              connect_queue = h.connect_queue;
              disconnect_queue = h.disconnect_queue;
              listen_queue = h.listen_queue;
              incoming_queue = h.incoming_queue;
              data_queue = h.data_queue;
              error_queue = h.error_queue;
            };
            log_is = refl;
            memory_is = refl;
          })
    | inr quiet ↦ rw (quiet, log_error) (record { holds = h; log_is = refl; memory_is = refl })
  ]

  -- The end of each method: the answer of `try_enqueue` decides on the message.
  settle :
      (queued : Bool) (message : Message) (m : CallbackManager) (w : Waiting)
      → Holds m w
      → Settled
          (if queued then m else log_error g message m)
          w
          (logged g m.log queued message)
          m.memory
  settle true message m w h = record { holds = h; log_is = refl; memory_is = refl }
  settle false message m w h = log_error-Settled message m w h

  -- The method for each event.
  abbrev pub enqueue : Event → CallbackManager → CallbackManager
  enqueue (connected s e) m = enqueue_connect g s e m
  enqueue (disconnected s) m = enqueue_disconnect g s m
  enqueue (listening s e) m = enqueue_listen g s e m
  enqueue (accepted s n e) m = enqueue_incoming g s n e m
  enqueue (failed s t text) m = enqueue_error g s t text m

  -- Each method puts its event behind those of its kind if its queue has room, and else drops it,
  -- which debug mode logs with the message of that queue. No other queue and no block changes.
  pub enqueue-Settled :
      (e : Event) (m : CallbackManager) (w : Waiting)
      → Holds m w
      → let (w', taken, message) = arrive e w in
        Settled (enqueue e m) w' (logged g m.log taken message) m.memory
  unfolding enqueue_connect enqueue_disconnect enqueue_listen enqueue_incoming enqueue_error
  enqueue-Settled (connected s x) m w h =
      let (kept, answer) =
        put_Queue 256 m.connect_queue w.connects (record { socket = s; remote_endpoint = x })
          h.connect_queue in
      rw (← answer) (
        settle _ connect_queue_full _ _ (record {
          connect_queue = kept;
          disconnect_queue = h.disconnect_queue;
          listen_queue = h.listen_queue;
          incoming_queue = h.incoming_queue;
          data_queue = h.data_queue;
          error_queue = h.error_queue;
        }))
  enqueue-Settled (disconnected s) m w h =
      let (kept, answer) =
        put_Queue 256 m.disconnect_queue w.disconnects (record { socket = s }) h.disconnect_queue in
      rw (← answer) (
        settle _ disconnect_queue_full _ _ (record {
          connect_queue = h.connect_queue;
          disconnect_queue = kept;
          listen_queue = h.listen_queue;
          incoming_queue = h.incoming_queue;
          data_queue = h.data_queue;
          error_queue = h.error_queue;
        }))
  enqueue-Settled (listening s x) m w h =
      let (kept, answer) =
        put_Queue 64 m.listen_queue w.listens (record { socket = s; local_endpoint = x })
          h.listen_queue in
      rw (← answer) (
        settle _ listen_queue_full _ _ (record {
          connect_queue = h.connect_queue;
          disconnect_queue = h.disconnect_queue;
          listen_queue = kept;
          incoming_queue = h.incoming_queue;
          data_queue = h.data_queue;
          error_queue = h.error_queue;
        }))
  enqueue-Settled (accepted s n x) m w h =
      let (kept, answer) =
        put_Queue 256 m.incoming_queue w.incomings
          (record { socket = s; new_socket = n; remote_endpoint = x }) h.incoming_queue in
      rw (← answer) (
        settle _ incoming_queue_full _ _ (record {
          connect_queue = h.connect_queue;
          disconnect_queue = h.disconnect_queue;
          listen_queue = h.listen_queue;
          incoming_queue = kept;
          data_queue = h.data_queue;
          error_queue = h.error_queue;
        }))
  enqueue-Settled (failed s t text) m w h =
      let (kept, answer) =
        put_Queue 256 m.error_queue w.errors
          (record { socket = s; error_type = t; error_msg = text }) h.error_queue in
      rw (← answer) (
        settle _ error_queue_full _ _ (record {
          connect_queue = h.connect_queue;
          disconnect_queue = h.disconnect_queue;
          listen_queue = h.listen_queue;
          incoming_queue = h.incoming_queue;
          data_queue = h.data_queue;
          error_queue = kept;
        }))
