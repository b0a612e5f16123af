-- ===== src/Provisioner/Snapshots/Chunks.antt =====
-- pkg/provisioner/provisioner.go: the chunks of handleRestore.
use agentry.Base.{
  ℕ, zero, suc, ◌≤◌, ◌<◌, ◌≡◌, refl, ap, ◌∙◌, List, [], ◌∷◌, ◌++◌, arith, Text, take, drop, length,
  length-take, length-drop, All,
}
use agentry.Provisioner.Snapshots.{chunk_size, chunks_from, chunks_of}

abbrev pub concat : List Text → Text
concat [] = []
concat (s ∷ ss) = s ++ concat ss

take-append-drop : (n : ℕ) (s : Text) → take n s ++ drop n s ≡ s
take-append-drop zero s = refl
take-append-drop (suc n) [] = refl
take-append-drop (suc n) (c ∷ s) = ap (λ t. c ∷ t) (take-append-drop n s)

chunks_from-concat : (fuel : ℕ) (s : Text) → length s ≤ fuel → concat (chunks_from fuel s) ≡ s
unfolding chunks_from
chunks_from-concat zero [] h = refl
chunks_from-concat zero (c ∷ s) h = absurd (omega arith)
chunks_from-concat (suc fuel) [] h = refl
chunks_from-concat (suc fuel) (c ∷ s) h =
    ap (λ t. take chunk_size (c ∷ s) ++ t)
      (chunks_from-concat fuel (drop chunk_size (c ∷ s))
        (omega (arith, length-drop chunk_size (c ∷ s))))
    ∙ take-append-drop chunk_size (c ∷ s)

chunks_from-short :
    (fuel : ℕ) (s : Text)
    → All (λ (t : Text). (0 < length t) × (length t ≤ chunk_size)) (chunks_from fuel s)
unfolding chunks_from
chunks_from-short zero s = tt
chunks_from-short (suc fuel) [] = tt
chunks_from-short (suc fuel) (c ∷ s) = (
  (omega (arith, length-take chunk_size (c ∷ s)), omega (arith, length-take chunk_size (c ∷ s))),
  chunks_from-short fuel (drop chunk_size (c ∷ s)),
)

-- The chunks make up the snapshot, in its order, and none is empty or longer than 50,000 bytes.
pub chunks_of-concat :
    (s : Text)
    → (concat (chunks_of s) ≡ s)
      × All (λ (t : Text). (0 < length t) × (length t ≤ chunk_size)) (chunks_of s)
unfolding chunks_of
chunks_of-concat s = (chunks_from-concat (length s) s (omega arith), chunks_from-short (length s) s)
