-- ===== src/Dispatch/Frame/Kinds.antt =====
-- Events by their kind, among those that wait and among those that were executed.
use sm_ext_socket.Base.{
  Bool, true, false, subst, ◌≡◌, refl, sym, ap, ◌∙◌, List, [], ◌∷◌, ◌++◌, map, append_assoc,
  append-nil,
}
use sm_ext_socket.CallbackManager.Contents.{Waiting}
use sm_ext_socket.Dispatch.{Queued, connected, disconnected, listening, accepted, received, failed}
use sm_ext_socket.Dispatch.Frame.{Kind, connects, listens, incomings, receives, disconnects, errors}

-- The latest that a round looks at first.
abbrev pub all_kinds : List Kind
all_kinds = errors ∷ disconnects ∷ receives ∷ incomings ∷ listens ∷ connects ∷ []

-- The events of a kind that wait.
abbrev pub pending : Kind → Waiting → List Queued
pending connects x = map connected x.connects
pending listens x = map listening x.listens
pending incomings x = map accepted x.incomings
pending receives x = map received x.receives
pending disconnects x = map disconnected x.disconnects
pending errors x = map failed x.errors

-- An event, if it is of this kind.
abbrev pub only : Kind → Queued → List Queued
only connects (connected e) = connected e ∷ []
only listens (listening e) = listening e ∷ []
only incomings (accepted e) = accepted e ∷ []
only receives (received e) = received e ∷ []
only disconnects (disconnected e) = disconnected e ∷ []
only errors (failed e) = failed e ∷ []
only _ _ = []

-- The events of a kind among these.
unfoldable pub of_kind : Kind → List Queued → List Queued
of_kind k [] = []
of_kind k (e ∷ es) = only k e ++ of_kind k es

pub of_kind-append :
    (k : Kind) (es fs : List Queued) → of_kind k (es ++ fs) ≡ of_kind k es ++ of_kind k fs
unfolding of_kind
of_kind-append k [] fs = refl
of_kind-append k (e ∷ es) fs =
    ap (λ l. only k e ++ l) (of_kind-append k es fs)
    ∙ sym (append_assoc (only k e) (of_kind k es) (of_kind k fs))

pub of_kind-only : (k : Kind) (e : Queued) → of_kind k (e ∷ []) ≡ only k e
unfolding of_kind
of_kind-only k e = append-nil (only k e)

abbrev pub kind_of : Queued → Kind
kind_of (connected e) = connects
kind_of (listening e) = listens
kind_of (accepted e) = incomings
kind_of (received e) = receives
kind_of (disconnected e) = disconnects
kind_of (failed e) = errors

abbrev pub eqb_kind : Kind → Kind → Bool
eqb_kind connects connects = true
eqb_kind listens listens = true
eqb_kind incomings incomings = true
eqb_kind receives receives = true
eqb_kind disconnects disconnects = true
eqb_kind errors errors = true
eqb_kind _ _ = false

pub eqb_kind-eq : (j k : Kind) → eqb_kind j k ≡ true → j ≡ k
eqb_kind-eq connects connects h = refl
eqb_kind-eq listens listens h = refl
eqb_kind-eq incomings incomings h = refl
eqb_kind-eq receives receives h = refl
eqb_kind-eq disconnects disconnects h = refl
eqb_kind-eq errors errors h = refl
eqb_kind-eq _ _ h = cc h

-- An event is of no kind but its own.
only_other : (j : Kind) (e : Queued) → eqb_kind j (kind_of e) ≡ false → only j e ≡ []
only_other connects (connected e) h = cc h
only_other listens (listening e) h = cc h
only_other incomings (accepted e) h = cc h
only_other receives (received e) h = cc h
only_other disconnects (disconnected e) h = cc h
only_other errors (failed e) h = cc h
only_other _ _ h = refl

kind_of-only : (k : Kind) (e : Queued) → only k e ≡ e ∷ [] → kind_of e ≡ k
kind_of-only connects (connected e) h = refl
kind_of-only listens (listening e) h = refl
kind_of-only incomings (accepted e) h = refl
kind_of-only receives (received e) h = refl
kind_of-only disconnects (disconnected e) h = refl
kind_of-only errors (failed e) h = refl
kind_of-only _ _ h = cc h

pub only-nil : (j k : Kind) (e : Queued) → only k e ≡ e ∷ [] → eqb_kind j k ≡ false → only j e ≡ []
only-nil j k e same other =
    only_other j e (subst (λ i. eqb_kind j i ≡ false) (sym (kind_of-only k e same)) other)
