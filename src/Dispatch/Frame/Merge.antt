-- ===== src/Dispatch/Frame/Merge.antt =====
-- The order in which a frame of src/impl/core/CallbackManager.cpp is to execute the events that wait: the
-- first of each queue, then the second of each, and so on.
use sm_ext_socket.Base.{
  ℕ, zero, suc, ◌-◌, ◌≤◌, ◌≡◌, refl, ap, ◌∙◌, List, [], ◌∷◌, ◌++◌, length, take, arith,
}
use sm_ext_socket.CallbackManager.Contents.{Waiting}
use sm_ext_socket.Dispatch.{Queued}
use sm_ext_socket.Dispatch.Frame.{connects, listens, incomings, receives, disconnects, errors}
use sm_ext_socket.Dispatch.Frame.Kinds.{pending}

module _ {A : Type 0} where
  abbrev pub first : List A → List A
  first [] = []
  first (x ∷ xs) = x ∷ []

  abbrev pub rest : List A → List A
  rest [] = []
  rest (x ∷ xs) = xs

  abbrev pub firsts : List (List A) → List A
  firsts [] = []
  firsts (l ∷ ls) = first l ++ firsts ls

  abbrev pub rests : List (List A) → List (List A)
  rests [] = []
  rests (l ∷ ls) = rest l ∷ rests ls

  -- So many rounds over the queues.
  unfoldable pub rounds : ℕ → List (List A) → List A
  rounds zero ls = []
  rounds (suc n) ls = firsts ls ++ rounds n (rests ls)

  firsts-nil : (ls : List (List A)) → firsts ls ≡ [] → rests ls ≡ ls
  firsts-nil [] h = refl
  firsts-nil ([] ∷ ls) h = ap (λ m. [] ∷ m) (firsts-nil ls h)
  firsts-nil ((x ∷ xs) ∷ ls) h = absurd (ground (arith, h))

  -- With nothing in the queues there is nothing to execute.
  pub rounds-nil : (n : ℕ) (ls : List (List A)) → firsts ls ≡ [] → rounds n ls ≡ []
  unfolding rounds
  rounds-nil zero ls h = refl
  rounds-nil (suc n) ls h = rw (h, firsts-nil ls h) (rounds-nil n ls h)

  pub take-nil : (n : ℕ) → take {A = A} n [] ≡ []
  take-nil zero = refl
  take-nil (suc n) = refl

  pub take-append : (xs ys : List A) → take (length xs) (xs ++ ys) ≡ xs
  take-append [] ys = refl
  take-append (x ∷ xs) ys = ap (λ l. x ∷ l) (take-append xs ys)

  pub take-append_le :
      (n : ℕ) (xs ys : List A) → length xs ≤ n → take n (xs ++ ys) ≡ xs ++ take (n - length xs) ys
  take-append_le n [] ys h = ap (λ k. take k ys) (omega arith)
  take-append_le zero (x ∷ xs) ys h = absurd (omega (arith, h))
  take-append_le (suc n) (x ∷ xs) ys h =
      ap (λ l. x ∷ l)
        (take-append_le n xs ys (omega (arith, h)) ∙ ap (λ k. xs ++ take k ys) (omega arith))

-- The six queues, in the order in which a round looks at them.
abbrev pub queues : Waiting → List (List Queued)
queues x =
    pending connects x
    ∷ pending listens x
    ∷ pending incomings x
    ∷ pending receives x
    ∷ pending disconnects x
    ∷ pending errors x
    ∷ []

-- What a frame with this budget is to execute. Each round but the last has an event at least, so that as
-- many rounds as the budget are enough.
unfoldable pub merged : ℕ → Waiting → List Queued
unfolding rounds
merged limit x = take limit (rounds limit (queues x))
