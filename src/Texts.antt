-- ===== src/Texts.antt =====
-- The texts that the servers make of what they receive, as lists of bytes.
use cpp_backend.Prelude.{
  ℕ, ◌<◌, ◌≡◌, refl, arith, Bool, true, false, ◌&&◌, List, [], ◌∷◌, ◌++◌, ◌==◌, if◌then◌else◌,
}

-- std::string(buffer): up to the first zero byte
unfoldable pub c_str : List ℕ → List ℕ
c_str [] = []
c_str (b ∷ bs) = let rest = c_str bs in if b == 0 then [] else b ∷ rest

-- "Server received: "
abbrev pub short_greeting : List ℕ
short_greeting =
    83 ∷ 101 ∷ 114 ∷ 118 ∷ 101 ∷ 114 ∷ 32 ∷ 114 ∷ 101 ∷ 99 ∷ 101 ∷ 105 ∷ 118 ∷ 101 ∷ 100 ∷ 58 ∷ 32
    ∷ []

-- "Server received message : "
abbrev pub greeting : List ℕ
greeting =
    83 ∷ 101 ∷ 114 ∷ 118 ∷ 101 ∷ 114 ∷ 32 ∷ 114 ∷ 101 ∷ 99 ∷ 101 ∷ 105 ∷ 118 ∷ 101 ∷ 100 ∷ 32 ∷ 109
    ∷ 101 ∷ 115 ∷ 115 ∷ 97 ∷ 103 ∷ 101 ∷ 32 ∷ 58 ∷ 32 ∷ []

-- "Message received : "
abbrev pub message_received : List ℕ
message_received =
    77 ∷ 101 ∷ 115 ∷ 115 ∷ 97 ∷ 103 ∷ 101 ∷ 32 ∷ 114 ∷ 101 ∷ 99 ∷ 101 ∷ 105 ∷ 118 ∷ 101 ∷ 100 ∷ 32
    ∷ 58 ∷ 32 ∷ []

-- "Message received: "
abbrev pub message_received_cpp : List ℕ
message_received_cpp =
    77 ∷ 101 ∷ 115 ∷ 115 ∷ 97 ∷ 103 ∷ 101 ∷ 32 ∷ 114 ∷ 101 ∷ 99 ∷ 101 ∷ 105 ∷ 118 ∷ 101 ∷ 100 ∷ 58
    ∷ 32 ∷ []

-- "[EMPTY INPUT]"
abbrev pub empty_input : List ℕ
empty_input = 91 ∷ 69 ∷ 77 ∷ 80 ∷ 84 ∷ 89 ∷ 32 ∷ 73 ∷ 78 ∷ 80 ∷ 85 ∷ 84 ∷ 93 ∷ []

-- std::string's ==
abbrev pub equals : List ℕ → List ℕ → Bool
equals [] [] = true
equals (x ∷ xs) (y ∷ ys) = (x == y) && equals xs ys
equals _ _ = false

-- No byte is zero.
abbrev pub AllNonzero : List ℕ → Type 0
AllNonzero [] = Unit {0}
AllNonzero (b ∷ bs) = (0 < b) × AllNonzero bs

pub c_str-all : (bs : List ℕ) → AllNonzero bs → c_str bs ≡ bs
unfolding c_str
c_str-all [] all = refl
c_str-all (b ∷ bs) (pos, all) = ground (arith, c_str-all bs all)

pub AllNonzero-front : (xs bs : List ℕ) → AllNonzero (xs ++ bs) → AllNonzero xs
AllNonzero-front [] bs all = tt
AllNonzero-front (x ∷ xs) bs (pos, all) = (pos, AllNonzero-front xs bs all)

pub AllNonzero-rest : (xs bs : List ℕ) → AllNonzero (xs ++ bs) → AllNonzero bs
AllNonzero-rest [] bs all = all
AllNonzero-rest (x ∷ xs) bs (pos, all) = AllNonzero-rest xs bs all
