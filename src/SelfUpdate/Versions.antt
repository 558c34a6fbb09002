-- ===== src/SelfUpdate/Versions.antt =====
-- The order of versions.
use stt_server.Prelude.{ℕ, ◌<◌, ◌≡◌, ◌≢◌, ◌⊎◌, List, ◌∷◌, ◌++◌, Option, none, some, Text}

-- Behind what two lists share, the second goes on where the first ends, or has the greater number.
abbrev pub Later : List ℕ → List ℕ → Type 0
Later a b =
    (shared : List ℕ) × (((n : ℕ) × (rest : List ℕ) × (a ≡ shared) × (b ≡ shared ++ n ∷ rest))
      ⊎ ((m n : ℕ) × (old new : List ℕ) × (a ≡ shared ++ m ∷ old)
          × (b ≡ shared ++ n ∷ new)
          × (m < n)))

-- Which candidates replace this version.
abbrev pub Replaces : Text → Text → Option (List ℕ) → Option (List ℕ) → Type 0
Replaces current candidate (some a) (some b) = Later a b
Replaces current candidate none b = current ≢ candidate
Replaces current candidate (some a) none = current ≢ candidate
