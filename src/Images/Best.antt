-- ===== src/Images/Best.antt =====
-- What the two loops of `findBestImage` find.
use mathlib.Core.List.{Memᴰ}
use mathlib.Core.List.Memᴰ.{head, tail}
use commerce_core_api.Common.{
  ℕ, ◌≤◌, ◌≡◌, refl, true, false, Option, none, some, List, [], ◌∷◌, All, Text, arith, length, ltb,
  Bool-cases, Option-cases, inl, inr, ◌⊎◌, text_eq, text_eq→eq, text_eq_refl,
}
use commerce_core_api.Images.{ImageSignature, entry, has_entry, match_score, better, best_match}

-- A score that is not above the one that was chosen; with a score there is a choice.
abbrev pub IsBeaten : Option ℕ → Option (ℕ × ImageSignature) → Type 0
IsBeaten none best = Unit
IsBeaten (some n) none = ⊥
IsBeaten (some n) (some (best, img)) = n ≤ best

abbrev score_of : Option (ℕ × ImageSignature) → Option ℕ
score_of none = none
score_of (some (n, img)) = some n

-- Every pair of the list is an entry of the options.
abbrev pub Agrees : List (Text × Text) → List (Text × Text) → Type 0
Agrees normalized = All (λ kv. entry kv.0 normalized ≡ some kv.1)

-- A choice of a picture that meets `In` and agrees, with the number of its signatures.
abbrev IsScored :
    (ImageSignature → Type 0) → List (Text × Text) → Option (ℕ × ImageSignature) → Type 0
IsScored In normalized none = Unit
IsScored In normalized (some (n, img)) =
    In img × Agrees normalized img.signatures × (n ≡ length img.signatures)

-- The best of the pictures: one of them that agrees, with the number of its signatures, which no picture
-- that agrees exceeds; or none, where no picture agrees.
abbrev pub IsBest : List (Text × Text) → List ImageSignature → Option (ℕ × ImageSignature) → Type 0
IsBest normalized images none = All (λ img. ¬ Agrees normalized img.signatures) images
IsBest normalized images (some (n, best)) =
    Memᴰ best images
    × Agrees normalized best.signatures
    × (n ≡ length best.signatures)
    × All (λ img. ¬ Agrees normalized img.signatures ⊎ (length img.signatures ≤ n)) images

abbrev pub chosen :
    List (Text × Text) → Option (ℕ × ImageSignature) → ImageSignature → Option (ℕ × ImageSignature)
chosen normalized best img = elim (match_score normalized img.signatures) [
  | none ↦ best
  | some score ↦ better best score img
]

module _ (normalized : List (Text × Text)) where
  round-IsBeaten :
      (best : Option (ℕ × ImageSignature)) (img : ImageSignature) (r : Option (ℕ × ImageSignature))
      → IsBeaten (score_of (chosen normalized best img)) r
      → IsBeaten (score_of best) r × IsBeaten (match_score normalized img.signatures) r
  round-IsBeaten none img none h = ground arith
  round-IsBeaten none img (some (k, x)) h = ground arith
  round-IsBeaten (some (b, old)) img none h = ground arith
  round-IsBeaten (some (b, old)) img (some (k, x)) h = ground arith

  has_entry-cases :
      (key value : Text)
      → ((has_entry normalized key value ≡ true) × (entry key normalized ≡ some value))
        ⊎ ((has_entry normalized key value ≡ false) × ¬ (entry key normalized ≡ some value))
  has_entry-cases key value = elim (Option-cases (entry key normalized)) [
    | inl e ↦ inr (rw (e, has_entry) refl, λ h. absurd (ground arith))
    | inr (v, e) ↦ elim (Bool-cases (text_eq v value)) [
      | inl c ↦ inl (rw (e, has_entry) c, rw (e, text_eq→eq v value c) refl)
      | inr c ↦ inr (rw (e, has_entry) c, λ h. absurd (ground (arith, text_eq_refl value)))
    ]
  ]

  match_score-cases :
      (signatures : List (Text × Text))
      → (Agrees normalized signatures
          × (match_score normalized signatures ≡ some (length signatures)))
        ⊎ (¬ Agrees normalized signatures × (match_score normalized signatures ≡ none))
  match_score-cases [] = inl (tt, refl)
  match_score-cases ((key, value) ∷ t) = elim (has_entry-cases key value) [
    | inr (off, differs) ↦ inr (λ a. differs a.0, rw off refl)
    | inl (on, same) ↦ elim (match_score-cases t) [
      | inl (rest, score) ↦ inl ((same, rest), rw (on, score) refl)
      | inr (rest, score) ↦ inr (λ a. rest a.1, rw (on, score) refl)
    ]
  ]

  module _ (In : ImageSignature → Type 0) where
    round-IsScored :
        (best : Option (ℕ × ImageSignature)) (img : ImageSignature)
        → In img
        → IsScored In normalized best
        → IsScored In normalized (chosen normalized best img)
    round-IsScored best img i h = elim (match_score-cases img.signatures) [
      | inr (off, score) ↦ rw (score, IsScored, chosen) h
      | inl (agrees, score) ↦ rw (score, IsScored, chosen) (take_it agrees best h)
    ]
      where
        take_it :
            Agrees normalized img.signatures
            → (best : Option (ℕ × ImageSignature)) → IsScored In normalized best
            → IsScored In normalized (better best (length img.signatures) img)
        take_it agrees none h = (i, agrees, refl)
        take_it agrees (some (b, old)) h = elim (Bool-cases (ltb b (length img.signatures))) [
          | inl c ↦ rw c (i, agrees, refl)
          | inr c ↦ rw c h
        ]

    best_match-IsScored :
        (best : Option (ℕ × ImageSignature)) (images : List ImageSignature)
        → All In images
        → IsScored In normalized best
        → IsScored In normalized (best_match normalized best images)
    unfolding best_match
    best_match-IsScored best [] all h = h
    best_match-IsScored best (img ∷ t) all h =
        best_match-IsScored (chosen normalized best img) t all.1 (round-IsScored best img all.0 h)

  IsBeaten-refl : (best : Option (ℕ × ImageSignature)) → IsBeaten (score_of best) best
  IsBeaten-refl none = tt
  IsBeaten-refl (some (n, img)) = omega arith

  best_match-IsBeaten :
      (best : Option (ℕ × ImageSignature)) (images : List ImageSignature)
      → IsBeaten (score_of best) (best_match normalized best images)
        × All
            (λ img.
              IsBeaten (match_score normalized img.signatures) (best_match normalized best images))
            images
  unfolding best_match
  best_match-IsBeaten best [] = (IsBeaten-refl best, tt)
  best_match-IsBeaten best (img ∷ t) =
      let (old, rest) = best_match-IsBeaten (chosen normalized best img) t in
      let both =
        round-IsBeaten best img (best_match normalized (chosen normalized best img) t) old in
      (both.0, (both.1, rest))

  -- A picture is among those of a longer list, too.
  All-widen :
      (x : ImageSignature) (l t : List ImageSignature)
      → All (λ img. Memᴰ img t) l
      → All (λ img. Memᴰ img (x ∷ t)) l
  All-widen x [] t h = tt
  All-widen x (y ∷ l) t h = (tail h.0, All-widen x l t h.1)

  All-members : (l : List ImageSignature) → All (λ img. Memᴰ img l) l
  All-members [] = tt
  All-members (x ∷ l) = (head refl, All-widen x l l (All-members l))

  none_fits :
      (l : List ImageSignature)
      → All (λ img. IsBeaten (match_score normalized img.signatures) none) l
      → All (λ img. ¬ Agrees normalized img.signatures) l
  none_fits [] h = tt
  none_fits (img ∷ l) h = elim (match_score-cases img.signatures) [
    | inl (agrees, score) ↦ absurd (rw score at h.0)
    | inr (off, score) ↦ (off, none_fits l h.1)
  ]

  none_exceeds :
      (n : ℕ) (best : ImageSignature) (l : List ImageSignature)
      → All (λ img. IsBeaten (match_score normalized img.signatures) (some (n, best))) l
      → All (λ img. ¬ Agrees normalized img.signatures ⊎ (length img.signatures ≤ n)) l
  none_exceeds n best [] h = tt
  none_exceeds n best (img ∷ l) h = elim (match_score-cases img.signatures) [
    | inl (agrees, score) ↦ (inr (rw score at h.0), none_exceeds n best l h.1)
    | inr (off, score) ↦ (inl off, none_exceeds n best l h.1)
  ]

  found-IsBest :
      (images : List ImageSignature) (r : Option (ℕ × ImageSignature))
      → IsScored (λ img. Memᴰ img images) normalized r
      → All (λ img. IsBeaten (match_score normalized img.signatures) r) images
      → IsBest normalized images r
  found-IsBest images none s b = none_fits images b
  found-IsBest images (some (n, best)) s b = (s.0, s.1, s.2, none_exceeds n best images b)

  -- The search of pictures returns one of them whose signatures are all entries of the options, with the
  -- number of its signatures, and no picture whose signatures are all entries has more; it returns none
  -- only where there is no such picture.
  pub best_match_lem :
      (images : List ImageSignature) → IsBest normalized images (best_match normalized none images)
  best_match_lem images =
      found-IsBest images (best_match normalized none images)
        (best_match-IsScored (λ img. Memᴰ img images) none images (All-members images) tt)
        (best_match-IsBeaten none images).1
