-- ===== src/Natives/Texts.antt =====
-- The texts and buffers of src/natives/socket_natives.cpp: bytes of the plugin's memory.
use sm_ext_socket.Base.{
  ℕ, zero, suc, ◌-◌, ◌^◌, Option, none, some, List, [], ◌∷◌, ◌++◌, length, take, ltb, ◌==◌,
  if◌then◌else◌,
}
use sm_ext_socket.Base.Int.{ℤ, pos, negsuc}

-- A `std::string_view`: the memory from its first byte on, and its length.
pub record View : Type 0 where
  pub memory : List ℕ
  pub size : ℕ

abbrev pub drop : {A : Type 0} → ℕ → List A → List A
drop zero xs = xs
drop (suc n) [] = []
drop (suc n) (x ∷ xs) = drop n xs

-- The bytes before the first zero byte. Every text of a plugin has one.
abbrev pub c_string : List ℕ → List ℕ
c_string [] = []
c_string (b ∷ m) = if b == 0 then [] else b ∷ c_string m

abbrev pub strlen : List ℕ → ℕ
strlen m = length (c_string m)

-- The conversion of an `int` to `size_t`.
unfoldable pub size_of : ℤ → ℕ
size_of (pos n) = n
size_of (negsuc n) = 2 ^ 64 - suc n

-- `size - 1`, as `size_t`.
unfoldable pub room : ℤ → ℕ
room (pos zero) = 2 ^ 64 - 1
room (pos (suc n)) = n
room (negsuc n) = 2 ^ 64 - suc (suc n)

-- These bytes are written to the memory. `none` where it ends too early.
unfoldable pub overwrite : List ℕ → List ℕ → Option (List ℕ)
overwrite [] m = some m
overwrite (x ∷ xs) [] = none
overwrite (x ∷ xs) (b ∷ m) = elim (overwrite xs m) [ none ↦ none | some m' ↦ some (x ∷ m') ]

-- The end of the natives that fill a buffer of `size` bytes.
unfoldable pub copy_out : List ℕ → (size : ℤ) → List ℕ → Option (List ℕ)
copy_out text size memory =
    let n = if ltb (room size) (length text) then room size else length text in
    overwrite (take n text ++ 0 ∷ []) memory
