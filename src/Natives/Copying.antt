-- ===== src/Natives/Copying.antt =====
-- How the natives of src/natives/socket_natives.cpp fill a plugin's buffer.
use sm_ext_socket.Base.{
  ℕ, zero, suc, ◌^◌, ◌≤◌, ◌<◌, ◌≡◌, ◌≢◌, refl, ap, ◌∙◌, some, List, [], ◌∷◌, ◌++◌, length,
  length-append, take, All, arith, append_assoc,
}
use sm_ext_socket.Base.Int.{ℤ, pos, pos_part, neg_part}
use sm_ext_socket.Natives.Texts.{drop, c_string, room, overwrite, copy_out}

-- Bytes written at the start of a memory.
abbrev pub over : List ℕ → List ℕ → List ℕ
over xs memory = xs ++ drop (length xs) memory

overwrite-over :
    (xs memory : List ℕ) → length xs ≤ length memory → overwrite xs memory ≡ some (over xs memory)
unfolding overwrite
overwrite-over [] memory h = refl
overwrite-over (x ∷ xs) [] h = absurd (omega (arith, h))
overwrite-over (x ∷ xs) (b ∷ memory) h = rw (overwrite-over xs memory (omega (arith, h))) refl

length-over :
    (xs memory : List ℕ) → length xs ≤ length memory → length (over xs memory) ≡ length memory
length-over [] memory h = refl
length-over (x ∷ xs) [] h = absurd (omega (arith, h))
length-over (x ∷ xs) (b ∷ memory) h = ap suc (length-over xs memory (omega (arith, h)))

drop-over :
    (xs memory : List ℕ) (i : ℕ)
    → length xs ≤ length memory
    → length xs ≤ i
    → drop i (over xs memory) ≡ drop i memory
drop-over [] memory i h k = refl
drop-over (x ∷ xs) [] i h k = absurd (omega (arith, h))
drop-over (x ∷ xs) (b ∷ memory) zero h k = absurd (omega (arith, k))
drop-over (x ∷ xs) (b ∷ memory) (suc i) h k =
    drop-over xs memory i (omega (arith, h)) (omega (arith, k))

c_string-append : (xs zs : List ℕ) → All (λ b. b ≢ 0) xs → c_string (xs ++ 0 ∷ zs) ≡ xs
c_string-append [] zs h = refl
c_string-append (x ∷ xs) zs (h, hs) = ground (arith, c_string-append xs zs hs, h)

length-take : (n : ℕ) (xs : List ℕ) → length (take n xs) ≤ n
length-take zero xs = omega arith
length-take (suc n) [] = omega arith
length-take (suc n) (x ∷ xs) = omega (arith, length-take n xs)

take-All : (P : ℕ → Type 0) (n : ℕ) (xs : List ℕ) → All P xs → All P (take n xs)
take-All P zero xs h = tt
take-All P (suc n) [] h = tt
take-All P (suc n) (x ∷ xs) (h, hs) = (h, take-All P n xs hs)

take-all : (n : ℕ) (xs : List ℕ) → length xs ≤ n → take n xs ≡ xs
take-all zero [] h = refl
take-all zero (x ∷ xs) h = absurd (omega (arith, h))
take-all (suc n) [] h = refl
take-all (suc n) (x ∷ xs) h = ap (λ l. x ∷ l) (take-all n xs (omega (arith, h)))

-- What is copied is as many bytes as fit.
copy_out_lem :
    (text : List ℕ) (size : ℤ) (memory : List ℕ)
    → copy_out text size memory ≡ overwrite (take (room size) text ++ 0 ∷ []) memory
unfolding copy_out
copy_out_lem text size memory =
    ground (arith, take-all (room size) text, take-all (length text) text)

-- In a buffer of `k + 1` bytes, which the plugin's memory holds, the plugin reads the first `k` bytes of
-- the text, all of it if it is shorter, and no byte after the buffer changes. The text has no zero
-- byte.
pub copy_out-c_string :
    (text : List ℕ) (k : ℕ) (memory : List ℕ)
    → All (λ b. b ≢ 0) text
    → suc k ≤ length memory
    → (m : List ℕ) × (copy_out text (pos (suc k)) memory ≡ some m)
      × (c_string m ≡ take k text)
      × (length m ≡ length memory)
      × (drop (suc k) m ≡ drop (suc k) memory)
unfolding room
copy_out-c_string text k memory nonzero_bytes fits =
    let xs = take k text ++ 0 ∷ [] in
    let below : length xs ≤ suc k =
      omega (arith, length-append (take k text) (0 ∷ []), length-take k text) in
    let inside : length xs ≤ length memory = omega (arith, below, fits) in
    (
      over xs memory,
      copy_out_lem text (pos (suc k)) memory ∙ overwrite-over xs memory inside,
      ap c_string (append_assoc (take k text) (0 ∷ []) (drop (length xs) memory))
          ∙ c_string-append (take k text) (drop (length xs) memory)
              (take-All (λ b. b ≢ 0) k text nonzero_bytes),
      length-over xs memory inside,
      drop-over xs memory (suc k) inside below,
    )

-- With a buffer of no byte, or of a negative size, the whole text and a zero byte are written, as far as
-- the plugin's memory goes on. The size is one of 32 bits, and the text is shorter than 2^63 bytes.
pub copy_out-overwrite :
    (text : List ℕ) (size : ℤ) (memory : List ℕ)
    → pos_part size ≡ 0
    → neg_part size ≤ 2 ^ 31
    → length text < 2 ^ 63
    → copy_out text size memory ≡ overwrite (text ++ 0 ∷ []) memory
unfolding room
copy_out-overwrite text size memory no_room small short =
    copy_out_lem text size memory
    ∙ ap (λ t. overwrite (t ++ 0 ∷ []) memory) (take-all (room size) text enough)
  where
    enough : length text ≤ room size
    enough = ground (arith, no_room, small, short)
