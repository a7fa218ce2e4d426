-- ===== src/Extension.antt =====
-- src/extension.cpp: loading, unloading, the frame hook, and the end of a handle. SourceMod is a parameter:
-- what its functions answer is given, and its table of the handles of this extension is in the state.
pub mod Unloading
use sm_ext_socket.Base.{
  ℕ, ◌+◌, Bool, true, false, Option, none, some, List, [], ◌∷◌, ◌==◌, if◌then◌else◌,
}
use sm_ext_socket.Base.Int.{ℤ, pos, nonzero}
use sm_ext_socket.Dispatch.{Host, M}
use sm_ext_socket.Dispatch.Frame.{Progress, process_pending_callbacks}
use sm_ext_socket.SocketManager.{SocketManager, Lifecycle, start, destroy_socket, shutdown}

-- The frame hook.
abbrev pub on_game_frame : Host → M Progress
on_game_frame host = process_pending_callbacks host

-- `handle_type` is 0 before it is created. `hooked` is whether the frame hook is there, `natives`
-- whether the natives are. `objects` lists the sockets of the handles that are open.
pub record Extension (X E : Type 0) : Type 0 where
  pub manager : SocketManager X E
  pub handle_type : ℤ
  pub hooked : Bool
  pub natives : Bool
  pub objects : List ℕ

module _ {X E : Type 0} (ops : Lifecycle X E) where
  -- `created` is what `CreateType` answers. The answer false refuses to load.
  unfoldable pub on_load : (created : ℤ) → Extension X E → Extension X E × Bool
  on_load created e =
      if nonzero created
      then (
        record e {
          handle_type = created;
          natives = true;
          hooked = true;
          manager = start ops e.manager;
        },
        true,
      )
      else (record e { handle_type = created }, false)

  -- SourceMod has closed the handle of an object.
  unfoldable pub on_handle_destroy : ℕ → SocketManager X E → Option (SocketManager X E)
  on_handle_destroy p m = if p == 0 then some m else destroy_socket ops p m

  -- `RemoveType` closes the handles of the type one after the other.
  unfoldable pub remove_type : List ℕ → SocketManager X E → Option (SocketManager X E)
  unfolding on_handle_destroy
  remove_type [] m = some m
  remove_type (p ∷ ps) m = elim (on_handle_destroy p m) [
    | none ↦ none
    | some m' ↦ remove_type ps m'
  ]

  -- `none` is a delete of no object.
  unfoldable pub on_unload : Extension X E → Option (Extension X E)
  unfolding remove_type
  on_unload e = elim (remove_type e.objects e.manager) [
    | none ↦ none
    | some m ↦ elim (shutdown ops m) [
      | none ↦ none
      | some m' ↦ some (record e { hooked = false; objects = []; manager = m' })
    ]
  ]
