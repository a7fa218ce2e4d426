-- ===== src/Natives/Sockets/Payloads.antt =====
-- The data of `SocketSend` of src/natives/socket_natives.cpp, and what the native answers.
use sm_ext_socket.Base.{
  ℕ, ◌≤◌, ◌≡◌, refl, ap, true, Option, none, some, List, [], ◌∷◌, length, take, leb, ◌==◌, arith,
  if◌then◌else◌, Bool-cases, inl, inr,
}
use sm_ext_socket.Base.Int.{ℤ, pos, negsuc, eqb_ℤ}
use sm_ext_socket.Natives.{Class, returned, SourceMod, with_socket, view_of, socket_send}
use sm_ext_socket.Natives.Texts.{c_string, strlen, size_of}
use sm_ext_socket.Natives.Sockets.{bytes_of}

-- What a plugin sends: the text up to its zero byte, or as many bytes as it says and has.
abbrev pub payload : List ℕ → ℤ → Option (List ℕ)
payload memory size =
    if eqb_ℤ size (negsuc 0)
    then some (c_string memory)
    else if leb (size_of size) (length memory)
    then some (take (size_of size) memory)
    else none

strlen-length : (m : List ℕ) → strlen m ≤ length m
strlen-length [] = omega arith
strlen-length (b ∷ m) = ground (arith, strlen-length m)

take-strlen : (m : List ℕ) → take (strlen m) m ≡ c_string m
take-strlen [] = refl
take-strlen (b ∷ m) = elim (Bool-cases (b == 0)) [
  | inl zero_byte ↦ rw zero_byte refl
  | inr other ↦ rw other (ap (λ l. b ∷ l) (take-strlen m))
]

pub bytes_of-view_of :
    (memory : List ℕ) (size : ℤ) → bytes_of (view_of memory size) ≡ payload memory size
unfolding bytes_of view_of
bytes_of-view_of memory size = elim (Bool-cases (eqb_ℤ size (negsuc 0))) [
  | inl whole ↦
      let short : leb (strlen memory) (length memory) ≡ true =
        ground (arith, strlen-length memory) in
      rw (whole, short) (ap some (take-strlen memory))
  | inr other ↦ rw other refl
]

-- On an open socket the native answers as the method does.
pub socket_send-send :
    {W : Type 0} (c : Class W) (sourcemod : SourceMod W) (handle : ℤ) (p : ℕ) (memory : List ℕ)
    (size : ℤ) (w w' : W)
    → sourcemod.read_handle handle w ≡ some p
    → c.is_open p w ≡ true
    → c.send p (view_of memory size) w ≡ some (w', true)
    → socket_send c sourcemod handle memory size w ≡ (returned (pos 1), w')
unfolding socket_send with_socket
socket_send-send c sourcemod handle p memory size w w' good open_w sent =
    ground (arith, good, open_w, sent)
