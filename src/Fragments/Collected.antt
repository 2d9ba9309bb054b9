-- ===== src/Fragments/Collected.antt =====
-- What a collector holds: distinct indexes below the total, so that as many pieces as the total
-- are all the pieces.
use rfmpd.Base.{
  Bool-cases, [], ap, arith, if◌then◌else◌, inl, inr, length, none, refl, suc, sym, zero, ℕ, ◌<◌,
  ◌==◌, ◌∙◌, ◌∷◌, ◌≡◌, ◌≢◌, ◌≤◌,
}
use rfmpd.Fragments.{Pieces, find_piece}

-- Every index is below `n` and occurs once.
abbrev pub IsPieces : ℕ → Pieces → Type 0
IsPieces n [] = Unit
IsPieces n ((i, b) ∷ ps) = (i < n) × (find_piece i ps ≡ none) × IsPieces n ps

delete : ℕ → Pieces → Pieces
delete k [] = []
delete k ((i, b) ∷ ps) = if i == k then ps else (i, b) ∷ delete k ps

length-delete : (k : ℕ) (ps : Pieces) → length ps ≤ suc (length (delete k ps))
unfolding delete
length-delete k [] = omega arith
length-delete k ((i, b) ∷ ps) = ground (arith, length-delete k ps)

find-delete : (k i : ℕ) (ps : Pieces) → find_piece i ps ≡ none → find_piece i (delete k ps) ≡ none
unfolding delete
find-delete k i [] h = refl
find-delete k i ((j, b) ∷ ps) h = ground (arith, find-delete k i ps)

-- Without index `n` all indexes below `n + 1` are below `n`.
delete-IsPieces : (n : ℕ) (ps : Pieces) → IsPieces (suc n) ps → IsPieces n (delete n ps)
unfolding delete
delete-IsPieces n [] h = tt
delete-IsPieces n ((i, b) ∷ ps) h = elim (Bool-cases (i == n)) [
  | inl e ↦ rw e (below n ps (ground arith) h.2)
  | inr e ↦ rw e (ground arith, find-delete n i ps h.1, delete-IsPieces n ps h.2)
]
  where
    below : (n : ℕ) (ps : Pieces) → find_piece n ps ≡ none → IsPieces (suc n) ps → IsPieces n ps
    below n [] e h = tt
    below n ((i, b) ∷ ps) e h = (ground arith, h.1, below n ps (ground arith) h.2)

length-IsPieces : (n : ℕ) (ps : Pieces) → IsPieces n ps → length ps ≤ n
length-IsPieces zero [] h = omega arith
length-IsPieces zero ((i, b) ∷ ps) h = absurd (omega (arith, h.0))
length-IsPieces (suc n) ps h =
    omega (arith, length-delete n ps, length-IsPieces n (delete n ps) (delete-IsPieces n ps h))

-- A full collector has every index.
pub find-full :
    (n i : ℕ) (ps : Pieces) → IsPieces n ps → length ps ≡ n → i < n → find_piece i ps ≢ none
find-full n i ps h full lt e = absurd (omega (arith, length-IsPieces n ((i, []) ∷ ps) (lt, e, h)))

length-delete_found :
    (k : ℕ) (ps : Pieces) → find_piece k ps ≢ none → length ps ≡ suc (length (delete k ps))
unfolding delete
length-delete_found k [] h = absurd (h refl)
length-delete_found k ((i, b) ∷ ps) h = elim (Bool-cases (i == k)) [
  | inl e ↦ rw e
  | inr e ↦ rw e (ap suc (length-delete_found k ps (λ q. h (rw e q))))
]

find-delete_ne : (k i : ℕ) (ps : Pieces) → k ≢ i → find_piece i (delete k ps) ≡ find_piece i ps
unfolding delete
find-delete_ne k i [] h = refl
find-delete_ne k i ((j, b) ∷ ps) h = ground (arith, find-delete_ne k i ps h)

le-length : (n : ℕ) (ps : Pieces) → ((j : ℕ) → j < n → find_piece j ps ≢ none) → n ≤ length ps
le-length zero ps h = omega arith
le-length (suc n) ps h = omega (
  arith,
  length-delete_found n ps (h n (omega arith)),
  le-length n (delete n ps)
      (λ j lt e. h j (omega arith) (sym (find-delete_ne n j ps (omega arith)) ∙ e)),
)

-- A collector with every index is full.
pub full-of-all :
    (n : ℕ) (ps : Pieces)
    → IsPieces n ps
    → ((j : ℕ) → j < n → find_piece j ps ≢ none)
    → length ps ≡ n
full-of-all n ps v h = omega (arith, le-length n ps h, length-IsPieces n ps v)
