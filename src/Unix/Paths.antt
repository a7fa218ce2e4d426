-- ===== src/Unix/Paths.antt =====
-- The path of src/impl/socket/UnixSocket.cpp, which a posted job reads when it runs.
use sm_ext_socket.Base.{ℕ, ◌+◌, ◌≡◌, true, false, none, some, List, [], ◌∷◌, ◌++◌, arith}
use sm_ext_socket.SocketTypes.{GlobalOptions}
use sm_ext_socket.Uv.{pipe_init, pipe_connect, Uv, post_job}
use sm_ext_socket.Unix.{World, init_pipe, connect, run_connect}

-- Two calls of `Connect` on a live socket with no pipe, before their jobs run: both jobs connect the one
-- pipe that the first of them makes, and both to the second path.
pub run_connect-connect :
    (uv : Uv) (g : GlobalOptions) (w : World) (first second : List ℕ)
    → w.base.deleted ≡ false
    → w.own.pipe ≡ none
    → let (w1, answer1) = connect uv g first w in
      let (w2, answer2) = connect uv g second w1 in
      let w3 = run_connect uv g (run_connect uv g w2) in
      (answer1 ≡ true)
      × (answer2 ≡ true)
      × (w3.own.pipe ≡ some w.next)
      × (w3.calls
          ≡ ((w.calls ++ pipe_init w.next ∷ []) ++ pipe_connect w.next second ∷ [])
            ++ pipe_connect w.next second ∷ [])
      × (w3.contexts ≡ w.contexts + 1 + 1)
unfolding connect run_connect init_pipe post_job
run_connect-connect uv g w first second live closed = ground arith
