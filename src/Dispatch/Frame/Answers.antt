-- ===== src/Dispatch/Frame/Answers.antt =====
-- What the answer of `try_dequeue` on the queue of a kind says about the lists.
use sm_ext_socket.Base.{◌≡◌, sym, ap, ◌∙◌, [], ◌∷◌, ◌++◌, subst}
use sm_ext_socket.Spsc.{nothing, item}
use sm_ext_socket.CallbackManager.{CallbackManager}
use sm_ext_socket.CallbackManager.Contents.{Waiting, Holds}
use sm_ext_socket.Dispatch.{Queued}
use sm_ext_socket.Dispatch.Frame.{Kind, take_from}
use sm_ext_socket.Dispatch.Frame.Kinds.{pending, only}
use sm_ext_socket.Dispatch.Frame.Took.{Took, none_left, one_less}
use sm_ext_socket.Dispatch.Frame.Takes.{take_from-Took}

-- A queue that holds nothing gives nothing.
pub take_from-nothing :
    (k : Kind) (m : CallbackManager) (x : Waiting)
    → Holds m x
    → pending k x ≡ []
    → (take_from k m).0 ≡ nothing
take_from-nothing k m x h empty = by_case (take_from-Took k m x h)
  where
    by_case : Took k x (take_from k m).0 (take_from k m).1 → (take_from k m).0 ≡ nothing
    by_case (none_left z t h') = t
    by_case (one_less e x' t h' same split) =
        let shown : e ∷ pending k x' ≡ [] =
          ap (λ l. l ++ pending k x') (sym same) ∙ sym (split k) ∙ empty in
        cc shown

-- A queue that gives nothing holds nothing, and holds nothing afterwards.
pub take_from-empty :
    (k : Kind) (m : CallbackManager) (x : Waiting)
    → Holds m x
    → (take_from k m).0 ≡ nothing
    → (pending k x ≡ []) × Holds (take_from k m).1 x
take_from-empty k m x h dry = by_case (take_from-Took k m x h)
  where
    item-ne : (e : Queued) → item e ≡ nothing → ⊥
    item-ne e q = cc q

    by_case :
        Took k x (take_from k m).0 (take_from k m).1
        → (pending k x ≡ []) × Holds (take_from k m).1 x
    by_case (none_left z t h') = (z, h')
    by_case (one_less e x' t h' same split) = absurd (item-ne e (sym t ∙ dry))

pub take_from-item :
    (k : Kind) (m : CallbackManager) (x : Waiting) (e : Queued)
    → Holds m x
    → (take_from k m).0 ≡ item e
    → (x' : Waiting) × Holds (take_from k m).1 x'
      × ((j : Kind) → pending j x ≡ only j e ++ pending j x')
      × (only k e ≡ e ∷ [])
take_from-item k m x e h found = by_case (take_from-Took k m x h)
  where
    by_case :
        Took k x (take_from k m).0 (take_from k m).1
        → (x' : Waiting) × Holds (take_from k m).1 x'
          × ((j : Kind) → pending j x ≡ only j e ++ pending j x')
          × (only k e ≡ e ∷ [])
    by_case (none_left z t h') = absurd (nothing-ne (sym t ∙ found))
      where
        nothing-ne : nothing ≡ item e → ⊥
        nothing-ne q = cc q
    by_case (one_less e' x' t h' same split) = (
      x',
      h',
      subst (λ c. (j : Kind) → pending j x ≡ only j c ++ pending j x') (same_item (sym t ∙ found))
          split,
      subst (λ c. only k c ≡ c ∷ []) (same_item (sym t ∙ found)) same,
    )
      where
        same_item : item e' ≡ item e → e' ≡ e
        same_item q = cc q
