-- ===== src/Dispatch/Frame/Took.antt =====
-- What `try_dequeue` on a queue of src/impl/core/CallbackManager.cpp may come to.
use sm_ext_socket.Base.{ℕ, ◌≡◌, refl, ◌∙◌, ◌⊎◌, inl, inr, List, [], ◌∷◌, ◌++◌}
use sm_ext_socket.Spsc.{Spsc, Taken, nothing, item, try_dequeue}
use sm_ext_socket.Spsc.Queue.{try_dequeue-Dequeued}
use sm_ext_socket.CallbackManager.{CallbackManager}
use sm_ext_socket.CallbackManager.Contents.{Waiting, Queue, Holds}
use sm_ext_socket.Dispatch.{Queued}
use sm_ext_socket.Dispatch.Frame.Kinds.{pending, only}
use sm_ext_socket.Dispatch.Frame.{Kind}

-- One queue.
pub pop_Queue :
    {A : Type 0} (c : ℕ) (q : Spsc A) (xs : List A)
    → Queue c q xs
    → ((xs ≡ []) × ((try_dequeue q).0 ≡ nothing) × Queue c (try_dequeue q).1 xs)
      ⊎ ((x : A) × (rest : List A) × (xs ≡ x ∷ rest)
          × ((try_dequeue q).0 ≡ item x)
          × Queue c (try_dequeue q).1 rest)
pop_Queue c q [] (e, v) =
    let d = try_dequeue-Dequeued q [] v in inl (refl, d.answer, (d.same_capacity ∙ e, d.holds))
pop_Queue c q (x ∷ rest) (e, v) =
    let d = try_dequeue-Dequeued q (x ∷ rest) v in
    inr (x, rest, refl, d.answer, (d.same_capacity ∙ e, d.holds))

-- A manager after taking: nothing, from an empty queue, or an event, the first of its kind.
pub data Took (k : Kind) (x : Waiting) (t : Taken Queued) (m : CallbackManager) : Type 0 where
  none_left : pending k x ≡ [] → t ≡ nothing → Holds m x → Took k x t m
  one_less :
      (e : Queued) (x' : Waiting)
      → t ≡ item e
      → Holds m x'
      → only k e ≡ e ∷ []
      → ((j : Kind) → pending j x ≡ only j e ++ pending j x')
      → Took k x t m
