-- ===== src/Text/Sorting.antt =====
-- Sorting texts keeps what is in the list.
use sni_gate.Prelude.{List, [], ◌∷◌, Bool-cases, inl, inr, All}
use sni_gate.Text.{Text, text_leb, insert_sorted, sort}

module _ {ℓ} (P : Text → Type ℓ) where
  All-insert_sorted : (t : Text) (us : List Text) → All P (insert_sorted t us) → P t × All P us
  unfolding insert_sorted
  All-insert_sorted t [] h = h
  All-insert_sorted t (u ∷ us) h = elim (Bool-cases (text_leb t u)) [
    | inl first ↦ rw first at h
    | inr later ↦
        let h' : P u × All P (insert_sorted t us) = rw later at h in
        let (here, rest) = All-insert_sorted t us h'.1 in (here, (h'.0, rest))
  ]

  -- What holds of every text of the sorted list holds of every text of the list.
  pub All-sort : (ts : List Text) → All P (sort ts) → All P ts
  unfolding sort
  All-sort [] h = tt
  All-sort (t ∷ ts) h =
      let (here, rest) = All-insert_sorted t (sort ts) h in (here, All-sort ts rest)

  insert_sorted-All : (t : Text) (us : List Text) → P t → All P us → All P (insert_sorted t us)
  unfolding insert_sorted
  insert_sorted-All t [] p h = (p, tt)
  insert_sorted-All t (u ∷ us) p h = elim (Bool-cases (text_leb t u)) [
    | inl first ↦ rw first (p, h)
    | inr later ↦ rw later (h.0, insert_sorted-All t us p h.1)
  ]

  pub sort-All : (ts : List Text) → All P ts → All P (sort ts)
  unfolding sort
  sort-All [] h = tt
  sort-All (t ∷ ts) h = insert_sorted-All t (sort ts) h.0 (sort-All ts h.1)
