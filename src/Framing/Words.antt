-- ===== src/Framing/Words.antt =====
-- htonl and ntohl: a uint32_t as its four bytes, the most significant first.
use cpp_backend.Prelude.{ℕ, ◌+◌, ◌*◌, ◌/◌, ◌%◌, ◌^◌, ◌<◌, ◌≡◌, refl, List, [], ◌∷◌, length, arith}

-- uint32_t
abbrev pub word : ℕ
word = 2 ^ 32

-- The bytes in memory of htonl(n).
unfoldable pub htonl : ℕ → List ℕ
htonl n = n / 2 ^ 24 % 256 ∷ n / 2 ^ 16 % 256 ∷ n / 2 ^ 8 % 256 ∷ n % 256 ∷ []

-- ntohl of the word with these bytes in memory.
unfoldable pub ntohl : List ℕ → ℕ
ntohl (a ∷ b ∷ c ∷ d ∷ []) = (a * 2 ^ 24 + b * 2 ^ 16 + c * 2 ^ 8 + d) % word
ntohl _ = 0

pub length-htonl : (n : ℕ) → length (htonl n) ≡ 4
unfolding htonl
length-htonl n = refl

pub ntohl-htonl : (n : ℕ) → n < word → ntohl (htonl n) ≡ n
unfolding htonl ntohl
ntohl-htonl n h = omega arith

pub ntohl-bound : (bs : List ℕ) → ntohl bs < word
unfolding ntohl
ntohl-bound [] = omega arith
ntohl-bound (a ∷ []) = omega arith
ntohl-bound (a ∷ b ∷ []) = omega arith
ntohl-bound (a ∷ b ∷ c ∷ []) = omega arith
ntohl-bound (a ∷ b ∷ c ∷ d ∷ []) = omega arith
ntohl-bound (a ∷ b ∷ c ∷ d ∷ e ∷ bs) = omega arith
