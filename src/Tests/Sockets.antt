-- ===== src/Tests/Sockets.antt =====
-- Concrete options and ports.
use sm_ext_socket.Base.{ℕ, ◌≡◌, none, some, List, [], ◌∷◌, arith}
use sm_ext_socket.SocketTypes.{ntohs, inet, inet6, other_family, no_endpoint, extract_endpoint}
use sm_ext_socket.SocketTypes.Laws.{extract_endpoint-ntohs}

abbrev name : ℕ → List ℕ
name a = a ∷ []

extract_endpoint-ntohs_example :
    (extract_endpoint name name (some (inet 7 (ntohs 27015)))
      ≡ record { address = 7 ∷ []; port = 27015 })
    × (extract_endpoint name name (some (inet6 7 (ntohs 27015)))
        ≡ record { address = 7 ∷ []; port = 27015 })
    × (extract_endpoint name name none ≡ no_endpoint)
    × (extract_endpoint name name (some other_family) ≡ no_endpoint)
extract_endpoint-ntohs_example = extract_endpoint-ntohs name name 7 27015 (omega arith)
