-- ===== src/Udp/Buffer.antt =====
-- `char buffer[1024]`: what is read into it, and the string that stands in it.
use cpp_backend.Prelude.{
  ℕ, ◌<◌, ◌≤◌, ◌≡◌, refl, Option, none, some, List, [], ◌∷◌, ◌++◌, ltb, if◌then◌else◌, length, set,
  drop, replicate, length-append, length-drop, arith,
}
use cpp_backend.Texts.{c_str}

-- sizeof(buffer)
abbrev pub capacity : ℕ
capacity = 1024

-- memset(buffer, 0, sizeof(buffer)), and char buffer[1024] = {0}
unfoldable pub zeros : List ℕ
zeros = replicate capacity 0

-- The first bytes are overwritten.
unfoldable pub fill : List ℕ → List ℕ → List ℕ
fill bytes buffer = bytes ++ drop (length bytes) buffer

-- buffer[i] = '\0'; `none` is a write out of its bounds.
unfoldable pub terminate : ℕ → List ℕ → Option (List ℕ)
terminate i buffer = if ltb i (length buffer) then some (set buffer i 0) else none

pub length-zeros : length zeros ≡ capacity
unfolding zeros
length-zeros = refl

pub length-fill :
    (bytes buffer : List ℕ)
    → length bytes ≤ length buffer
    → length (fill bytes buffer) ≡ length buffer
unfolding fill
length-fill bytes buffer fits =
    omega
      (arith, length-append bytes (drop (length bytes) buffer), length-drop (length bytes) buffer)

c_str-cut : (bs rest : List ℕ) → 0 < length rest → c_str (set (bs ++ rest) (length bs) 0) ≡ c_str bs
unfolding c_str
c_str-cut [] [] more = absurd (omega arith)
c_str-cut [] (b ∷ rest) more = refl
c_str-cut (b ∷ bs) rest more = ground (arith, c_str-cut bs rest more)

-- The string that stands in the buffer after a read, whatever was in it before.
pub terminate-fill :
    (bytes buffer : List ℕ)
    → length bytes < length buffer
    → (b : List ℕ) × (terminate (length bytes) (fill bytes buffer) ≡ some b)
      × (c_str b ≡ c_str bytes)
unfolding terminate fill
terminate-fill bytes buffer fits =
    let more : 0 < length (drop (length bytes) buffer) =
      omega (arith, length-drop (length bytes) buffer) in
    (
      set (bytes ++ drop (length bytes) buffer) (length bytes) 0,
      ground (arith, length-append bytes (drop (length bytes) buffer)),
      c_str-cut bytes (drop (length bytes) buffer) more,
    )
