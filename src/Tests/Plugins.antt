-- ===== src/Tests/Plugins.antt =====
-- Concrete calls of the natives of src/natives/socket_natives.cpp.
use sm_ext_socket.Base.{ℕ, ◌+◌, ◌≡◌, refl, none, some, List, [], ◌∷◌, ◌++◌, length, arith}
use sm_ext_socket.Base.Int.{ℤ, pos, negsuc}
use sm_ext_socket.Base.Text.{codes}
use sm_ext_socket.SocketTypes.{SocketType}
use sm_ext_socket.SocketManager.{SocketManager, Lifecycle, new_manager}
use sm_ext_socket.SocketManager.Tracking.{Tracked}
use sm_ext_socket.Natives.{
  Answer, returned, thrown, SourceMod, socket_bind, socket_connect, socket_send, socket_send_to,
}
use sm_ext_socket.Natives.Sockets.{Socket, tcp_socket, udp_socket, Resolver, methods, run_loop}
use sm_ext_socket.Natives.Sockets.Freed.{destroy_object, run_loop_freed, fault}
use sm_ext_socket.Natives.Sockets.Freed.Shutting.{Shuts}
use sm_ext_socket.Natives.Sockets.Freed.Faulting.{socket_send-destroy_object}
use sm_ext_socket.Natives.Sockets.Sending.{Handed, socket_send-run_loop}
use sm_ext_socket.SocketBase.{new_base}
use sm_ext_socket.CallbackManager
use sm_ext_socket.Spsc.{new}
use sm_ext_socket.Spsc.Queue.{new-Represents}
use sm_ext_socket.EventLoop.{fresh}
use sm_ext_socket.Tcp.{new_tcp}
use sm_ext_socket.Udp.{new_udp}
use sm_ext_socket.Tests.{globals, uv, connecting}
use sm_ext_socket.Natives.Texts.{size_of, drop, c_string, overwrite, copy_out}
use sm_ext_socket.Natives.Copying.{copy_out-c_string, copy_out-overwrite}
use sm_ext_socket.Natives.Creation.{Handles, Created, socket_create, socket_create-Tracked}
use sm_ext_socket.Natives.Ports.{socket_send_to-socket_connect}

copy_out-c_string_example :
    (m : List ℕ) × (copy_out (codes "127.0.0.1") (pos 4) (codes "xxxxxx") ≡ some m)
    × (c_string m ≡ codes "127")
    × (length m ≡ 6)
    × (drop 4 m ≡ codes "xx")
copy_out-c_string_example =
    copy_out-c_string (codes "127.0.0.1") 3 (codes "xxxxxx") (ground arith) (omega arith)

copy_out-overwrite_example :
    copy_out (codes "::1") (pos 0) (codes "xxxxxx") ≡ some (codes "::1" ++ 0 ∷ codes "xx")
unfolding overwrite
copy_out-overwrite_example =
    copy_out-overwrite (codes "::1") (pos 0) (codes "xxxxxx") refl (omega arith) (omega arith)

-- The resolver finds nothing at once and answers later.
abbrev resolver : Resolver
resolver = record { lookup = λ type host port. none; started = λ type host port. pos 0 }

abbrev sourcemod : SourceMod Socket
sourcemod = record { read_handle = λ handle s. some 1; function_by_id = λ id. some 5 }

abbrev datagrams : Socket
datagrams = udp_socket (record {
  self = 1;
  base = new_base SocketType.udp;
  own = new_udp;
  events = CallbackManager.new_manager;
  jobs = fresh;
  calls = [];
  contexts = 0;
  next = 10;
})

socket_send_to-socket_connect_example :
    let c = methods uv globals resolver in
    (socket_bind c sourcemod (pos 9) (codes "h") (pos 65543) datagrams
      ≡ (thrown (codes "Invalid port specified"), datagrams))
    × (socket_connect c sourcemod (pos 9) (codes "h") (pos 65543) datagrams
        ≡ (thrown (codes "Invalid port specified"), datagrams))
    × (socket_send_to c sourcemod (pos 9) (codes "hi") (negsuc 0) (codes "h") (pos 65543) datagrams
        ≡ socket_send_to c sourcemod (pos 9) (codes "hi") (negsuc 0) (codes "h") (pos 7) datagrams)
socket_send_to-socket_connect_example =
    socket_send_to-socket_connect (methods uv globals resolver) sourcemod (pos 9) 1 7 (codes "hi")
      (codes "h") (negsuc 0) datagrams refl

-- The plugin's text ends at the zero byte.
socket_send-run_loop_example :
    (s1 s2 : Socket) × (socket_send
        (methods uv globals resolver)
        sourcemod
        (pos 9)
        (codes "hi" ++ 0 ∷ codes "there")
        (negsuc 0)
        (tcp_socket connecting)
      ≡ (returned (pos 1), s1))
    × (run_loop uv globals 128 s1 ≡ some s2)
    × Handed uv globals 7 (codes "hi") (tcp_socket connecting) s2
unfolding fresh new new_tcp new_base
socket_send-run_loop_example =
    socket_send-run_loop uv globals resolver 128 sourcemod (pos 9) 1 7
      (codes "hi" ++ 0 ∷ codes "there") (codes "hi") (negsuc 0) (tcp_socket connecting) refl
      (
        refl,
        refl,
        refl,
        (refl, new-Represents 1024 (record { big = omega arith; power = refl }), refl),
      )
      refl

socket_send-destroy_object_example :
    let s = tcp_socket connecting in
    Shuts uv globals 128 7 s
    × ((s1 : Socket) × (socket_send
            (methods uv globals resolver)
            sourcemod
            (pos 9)
            (codes "hi")
            (pos 2)
            s
          ≡ (returned (pos 1), s1))
        × (run_loop_freed uv globals 128 (destroy_object uv globals s1) ≡ fault))
unfolding fresh new new_tcp new_base size_of
socket_send-destroy_object_example =
    socket_send-destroy_object uv globals resolver 128 sourcemod (pos 9) 1 7 (codes "hi")
      (codes "hi") (pos 2) (tcp_socket connecting) refl
      (
        refl,
        refl,
        refl,
        (refl, new-Represents 1024 (record { big = omega arith; power = refl }), refl),
      )
      refl refl

-- A socket is its type and its handle; SourceMod has no handle left.
abbrev ops : Lifecycle (SocketType × ℤ) ℕ
ops = record {
  mark_deleted = λ x. x;
  dispose = λ x n. n + 1;
  start_loop = λ n. n;
  stop_loop = λ n. n;
}

abbrev no_handles : Handles ℕ
no_handles = record {
  create_handle = λ p n. (pos 0, n);
  failure = λ p n. codes "Failed to create handle (error 4)";
}

abbrev empty_set : SocketManager (SocketType × ℤ) ℕ
empty_set = new_manager ops 0

empty_set-Tracked : Tracked empty_set
unfolding new_manager
empty_set-Tracked = record {
  same = λ p. refl;
  unused = λ p h. refl;
  null = refl;
  begun = omega arith;
}

socket_create-Tracked_example :
    (a : Answer) × (m' : SocketManager (SocketType × ℤ) ℕ) × (socket_create ops no_handles
        (λ t. (t, pos 0))
        (λ h x. (x.0, h))
        (pos 2)
        empty_set
      ≡ some (a, m'))
    × Tracked m'
    × Created ops no_handles (λ t. (t, pos 0)) (λ h x. (x.0, h)) (pos 2) empty_set a m'
socket_create-Tracked_example =
    socket_create-Tracked ops no_handles (λ t. (t, pos 0)) (λ h x. (x.0, h)) (pos 2) empty_set
      empty_set-Tracked
