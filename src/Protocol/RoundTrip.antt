-- ===== src/Protocol/RoundTrip.antt =====
-- The run lengths of server/app/protocol/messages.py lose nothing, and are the shortest.
use mathlib.Core.List.{reverse_aux, reverse-reverse, append_assoc, append-nil, reverse-cons}
use patrolbot_dashboard.Base.{
  ℕ, zero, suc, ◌+◌, ℤ, pos, eqb_ℤ, eqb_ℤ_iff, ◌+ℤ◌, Bool, true, false≢true, not, List, [], ◌∷◌,
  ◌++◌, reverse, if-split, not-true, ◌≡◌, refl, sym, ap, ◌∙◌, arith,
}
use patrolbot_dashboard.Protocol.Rle.{
  Run, add_cell, add_cells, encode_rle, repeat, times, decode_rle,
}

abbrev Positive : Run → Type 0
Positive r = (n : ℕ) × (r.count ≡ pos (suc n))

abbrev differs : ℤ → List Run → Bool
differs v [] = true
differs v (r ∷ runs) = not (eqb_ℤ r.value v)

-- Every run is of at least one cell, and runs next to each other differ in value.
abbrev pub Canonical : List Run → Type 0
Canonical [] = Unit
Canonical (r ∷ runs) = Positive r × (differs r.value runs ≡ true) × Canonical runs

decode_rle-append : (xs ys : List Run) → decode_rle (xs ++ ys) ≡ decode_rle xs ++ decode_rle ys
unfolding decode_rle
decode_rle-append [] ys = refl
decode_rle-append (r ∷ xs) ys =
    ap (λ t. times r.count r.value ++ t) (decode_rle-append xs ys)
    ∙ sym (append_assoc (times r.count r.value) (decode_rle xs) (decode_rle ys))

repeat-suc : (n : ℕ) (v : ℤ) → repeat (suc n) v ≡ repeat n v ++ (v ∷ [])
repeat-suc zero v = refl
repeat-suc (suc n) v = ap (λ t. v ∷ t) (repeat-suc n v)

decode_rle-snoc :
    (r : Run) (runs : List Run)
    → decode_rle (reverse (r ∷ runs)) ≡ decode_rle (reverse runs) ++ times r.count r.value
unfolding decode_rle
decode_rle-snoc r runs =
    ap decode_rle (reverse-cons r runs)
    ∙ decode_rle-append (reverse runs) (r ∷ [])
    ∙ ap (λ t. decode_rle (reverse runs) ++ t) (append-nil (times r.count r.value))

next_count : (n : ℕ) → pos (suc n) +ℤ pos 1 ≡ pos (suc (suc n))
unfolding ◌+ℤ◌
next_count n = ground arith

-- A run that grows by one cell.
times-suc :
    (c v w : ℤ) (n : ℕ) → c ≡ pos (suc n) → v ≡ w → times (c +ℤ pos 1) w ≡ times c v ++ (w ∷ [])
times-suc c v w n e f =
    let grown : c +ℤ pos 1 ≡ pos (suc (suc n)) = ap (λ k. k +ℤ pos 1) e ∙ next_count n in
    let cells : times c v ≡ repeat (suc n) w = ap (λ k. times k v) e ∙ ap (repeat (suc n)) f in
    ap (λ k. times k w) grown ∙ repeat-suc (suc n) w ∙ ap (λ t. t ++ (w ∷ [])) (sym cells)

add_cell-Canonical : (v : ℤ) (runs : List Run) → Canonical runs → Canonical (add_cell v runs)
unfolding add_cell
add_cell-Canonical v [] c = ((0, refl), refl, tt)
add_cell-Canonical v (r ∷ runs) ((n, e), d, c) =
    if-split Canonical (eqb_ℤ r.value v) _ _
      (λ same. ((suc n, rw e (next_count n)), rw (← (eqb_ℤ_iff r.value v).0 same) d, c))
      (λ other. ((0, refl), rw other refl, ((n, e), d, c)))

decode_rle-add_cell :
    (v : ℤ) (runs : List Run)
    → Canonical runs
    → decode_rle (reverse (add_cell v runs)) ≡ decode_rle (reverse runs) ++ (v ∷ [])
unfolding add_cell
decode_rle-add_cell v [] c = unfold decode_rle in refl
decode_rle-add_cell v (r ∷ runs) ((n, e), d, c) =
    if-split
      (λ (t : List Run). decode_rle (reverse t) ≡ decode_rle (reverse (r ∷ runs)) ++ (v ∷ []))
      (eqb_ℤ r.value v) _ _
      (λ same.
        decode_rle-snoc _ runs
        ∙ ap (λ t. decode_rle (reverse runs) ++ t)
            (times-suc r.count r.value v n e ((eqb_ℤ_iff r.value v).0 same))
        ∙ sym (append_assoc (decode_rle (reverse runs)) (times r.count r.value) (v ∷ []))
        ∙ ap (λ t. t ++ (v ∷ [])) (sym (decode_rle-snoc r runs)))
      (λ other. decode_rle-snoc _ (r ∷ runs))

decode_rle-add_cells :
    (cells : List ℤ) (runs : List Run)
    → Canonical runs
    → decode_rle (reverse (add_cells cells runs)) ≡ decode_rle (reverse runs) ++ cells
unfolding add_cells
decode_rle-add_cells [] runs c = sym (append-nil (decode_rle (reverse runs)))
decode_rle-add_cells (v ∷ cells) runs c =
    decode_rle-add_cells cells (add_cell v runs) (add_cell-Canonical v runs c)
    ∙ ap (λ t. t ++ cells) (decode_rle-add_cell v runs c)
    ∙ append_assoc (decode_rle (reverse runs)) (v ∷ []) cells

-- Decoding the runs of any cells gives the cells back.
pub decode_rle-encode_rle : (cells : List ℤ) → decode_rle (encode_rle cells) ≡ cells
unfolding encode_rle decode_rle
decode_rle-encode_rle cells = decode_rle-add_cells cells [] tt

eqb_ℤ_sym : (a b : ℤ) → eqb_ℤ a b ≡ eqb_ℤ b a
eqb_ℤ_sym a b = ground arith

-- The first runs of two lists differ in value.
abbrev joins : List Run → List Run → Bool
joins [] after = true
joins (r ∷ runs) after = differs r.value after

joins_next :
    (r : Run) (runs after : List Run) → differs r.value runs ≡ true → joins runs (r ∷ after) ≡ true
joins_next r [] after d = refl
joins_next r (q ∷ runs) after d = rw (eqb_ℤ_sym r.value q.value) d

-- The runs that are put before a canonical list, last first.
reverse_aux-Canonical :
    (runs after : List Run)
    → Canonical runs
    → Canonical after
    → joins runs after ≡ true
    → Canonical (reverse_aux runs after)
reverse_aux-Canonical [] after c d j = d
reverse_aux-Canonical (r ∷ runs) after (p, n, c) d j =
    reverse_aux-Canonical runs (r ∷ after) c (p, j, d) (joins_next r runs after n)

joins_none : (runs : List Run) → joins runs [] ≡ true
joins_none [] = refl
joins_none (r ∷ runs) = refl

one_more : (n : ℕ) → pos n +ℤ pos 1 ≡ pos (n + 1)
unfolding ◌+ℤ◌
one_more n = ground arith

one_and : (n : ℕ) → pos (1 + n) ≡ pos (suc n)
one_and n = ap pos (omega arith)

-- A cell that differs from the last run opens one.
opens :
    (v : ℤ) (runs : List Run)
    → differs v runs ≡ true
    → add_cell v runs ≡ record { value = v; count = pos 1 } ∷ runs
unfolding add_cell
opens v [] d = refl
opens v (r ∷ runs) d = rw (not-true (eqb_ℤ r.value v) d) refl

add_cells-Canonical :
    (cells : List ℤ) (runs : List Run) → Canonical runs → Canonical (add_cells cells runs)
unfolding add_cells
add_cells-Canonical [] runs c = c
add_cells-Canonical (v ∷ cells) runs c =
    add_cells-Canonical cells (add_cell v runs) (add_cell-Canonical v runs c)

-- The runs of any cells are canonical: each is of at least one cell, and no two that are next to
-- each other have the same value.
pub encode_rle-Canonical : (cells : List ℤ) → Canonical (encode_rle cells)
unfolding encode_rle
encode_rle-Canonical cells =
    reverse_aux-Canonical (add_cells cells []) [] (add_cells-Canonical cells [] tt) tt
      (joins_none (add_cells cells []))

lengthens :
    (n : ℕ) (v : ℤ) (runs : List Run)
    → add_cell v (record { value = v; count = pos n } ∷ runs)
      ≡ record { value = v; count = pos (n + 1) } ∷ runs
unfolding add_cell
lengthens n v runs =
    if-split (λ (t : List Run). t ≡ record { value = v; count = pos (n + 1) } ∷ runs) (eqb_ℤ v v) _
      _ (λ _. ap (λ c. record { value = v; count = c } ∷ runs) (one_more n))
      (λ h. absurd (false≢true (sym h ∙ (eqb_ℤ_iff v v).1 refl)))

-- Cells of the value of the last run lengthen it.
add_cells-repeat :
    (k n : ℕ) (v : ℤ) (cells : List ℤ) (runs : List Run)
    → add_cells (repeat k v ++ cells) (record { value = v; count = pos n } ∷ runs)
      ≡ add_cells cells (record { value = v; count = pos (n + k) } ∷ runs)
unfolding add_cells add_cell
add_cells-repeat zero n v cells runs =
    ap (λ m. add_cells cells (record { value = v; count = pos m } ∷ runs)) (omega arith)
add_cells-repeat (suc k) n v cells runs =
    ap (add_cells (repeat k v ++ cells)) (lengthens n v runs)
    ∙ add_cells-repeat k (n + 1) v cells runs
    ∙ ap (λ m. add_cells cells (record { value = v; count = pos m } ∷ runs)) (omega arith)

add_cells-decode_rle :
    (rest runs : List Run)
    → Canonical rest
    → joins rest runs ≡ true
    → add_cells (decode_rle rest) runs ≡ reverse_aux rest runs
unfolding decode_rle add_cells add_cell
add_cells-decode_rle [] runs c j = refl
add_cells-decode_rle (r ∷ rest) runs ((n, e), d, c) j =
    ap (λ t. add_cells (t ++ decode_rle rest) runs) (ap (λ k. times k r.value) e)
    ∙ ap (λ t. add_cells (repeat n r.value ++ decode_rle rest) t) (opens r.value runs j)
    ∙ add_cells-repeat n 1 r.value (decode_rle rest) runs
    ∙ ap (λ k. add_cells (decode_rle rest) (record { value = r.value; count = k } ∷ runs))
        (rw e (one_and n))
    ∙ add_cells-decode_rle rest (r ∷ runs) c (joins_next r rest runs d)

-- Encoding the cells of canonical runs gives the runs back, so that each grid has one encoding.
pub encode_rle-decode_rle : (runs : List Run) → Canonical runs → encode_rle (decode_rle runs) ≡ runs
unfolding encode_rle
encode_rle-decode_rle runs c =
    ap reverse (add_cells-decode_rle runs [] c (joins_none runs)) ∙ reverse-reverse runs
