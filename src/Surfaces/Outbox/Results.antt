-- ===== src/Surfaces/Outbox/Results.antt =====
-- crates/surfaces/src/outbox.rs: the rows of _results of one request.
use rsntr.Base.{
  ℕ, suc, ◌≡◌, refl, ap, ◌∙◌, inl, inr, false, List, [], ◌∷◌, ◌++◌, if◌then◌else◌, arith, Str, ◌=s◌,
  =s_iff, =s_refl, Bool-cases,
}
use rsntr.Surfaces.Outbox.{delete_results, numbered}

-- The rows of _results of a request.
unfoldable pub results_of : Str → List (Str × ℕ × Str) → List (ℕ × Str)
results_of id [] = []
results_of id ((k, n, row) ∷ rows) =
    if k =s id then (n, row) ∷ results_of id rows else results_of id rows

unfoldable pub count_from : ℕ → List Str → List (ℕ × Str)
count_from n [] = []
count_from n (row ∷ rows) = (n, row) ∷ count_from (suc n) rows

pub results_of-append :
    (id : Str) (rows rows' : List (Str × ℕ × Str))
    → results_of id (rows ++ rows') ≡ results_of id rows ++ results_of id rows'
unfolding results_of
results_of-append id [] rows' = refl
results_of-append id ((k, n, row) ∷ rows) rows' = ground (arith, results_of-append id rows rows')

pub results_of-numbered :
    (id : Str) (n : ℕ) (rows : List Str) → results_of id (numbered id n rows) ≡ count_from n rows
unfolding results_of numbered count_from
results_of-numbered id n [] = refl
results_of-numbered id n (row ∷ rows) =
    rw (=s_refl id) (ap (λ rest. (n, row) ∷ rest) (results_of-numbered id (suc n) rows))

pub results_of-numbered_ne :
    (id id' : Str) (n : ℕ) (rows : List Str)
    → (id' =s id) ≡ false
    → results_of id (numbered id' n rows) ≡ []
unfolding results_of numbered
results_of-numbered_ne id id' n [] h = refl
results_of-numbered_ne id id' n (row ∷ rows) h = rw h (results_of-numbered_ne id id' (suc n) rows h)

pub results_of-delete_results :
    (id : Str) (rows : List (Str × ℕ × Str)) → results_of id (delete_results id rows) ≡ []
unfolding results_of delete_results
results_of-delete_results id [] = refl
results_of-delete_results id ((k, n, row) ∷ rows) = elim (Bool-cases (k =s id)) [
  | inl same ↦ rw same (results_of-delete_results id rows)
  | inr differs ↦ rw differs (rw differs (results_of-delete_results id rows))
]

pub results_of-delete_results_ne :
    (id id' : Str) (rows : List (Str × ℕ × Str))
    → (id' =s id) ≡ false
    → results_of id (delete_results id' rows) ≡ results_of id rows
unfolding results_of delete_results
results_of-delete_results_ne id id' [] h = refl
results_of-delete_results_ne id id' ((k, n, row) ∷ rows) h = elim (Bool-cases (k =s id')) [
  | inl same ↦
      let k_eq = (=s_iff k id').0 same in
      let other_key : (k =s id) ≡ false = ap (λ x. x =s id) k_eq ∙ h in
      rw same (rw other_key (results_of-delete_results_ne id id' rows h))
  | inr differs ↦ rw differs (
      ap (λ rest. if k =s id then (n, row) ∷ rest else rest)
        (results_of-delete_results_ne id id' rows h))
]
