-- ===== src/Protocol/Rle.antt =====
-- Run lengths of map cells, `encode_rle` and `decode_rle` of server/app/protocol/messages.py.
use patrolbot_dashboard.Base.{
  ℕ, zero, suc, ℤ, pos, negsuc, eqb_ℤ, ◌+ℤ◌, List, [], ◌∷◌, ◌++◌, reverse, if◌then◌else◌,
}

pub record Run : Type 0 where
  pub value : ℤ
  pub count : ℤ

-- One turn of the loop; the runs so far are kept last first.
unfoldable pub add_cell : ℤ → List Run → List Run
add_cell v [] = record { value = v; count = pos 1 } ∷ []
add_cell v (r ∷ runs) =
    if eqb_ℤ r.value v
    then record { value = v; count = r.count +ℤ pos 1 } ∷ runs
    else record { value = v; count = pos 1 } ∷ r ∷ runs

unfoldable pub add_cells : List ℤ → List Run → List Run
unfolding add_cell
add_cells [] runs = runs
add_cells (v ∷ cells) runs = add_cells cells (add_cell v runs)

unfoldable pub encode_rle : List ℤ → List Run
unfolding add_cells
encode_rle cells = reverse (add_cells cells [])

abbrev pub repeat : ℕ → ℤ → List ℤ
repeat zero v = []
repeat (suc n) v = v ∷ repeat n v

-- `[value] * count`, which is empty for a negative count.
abbrev pub times : ℤ → ℤ → List ℤ
times (pos n) v = repeat n v
times (negsuc n) v = []

unfoldable pub decode_rle : List Run → List ℤ
decode_rle [] = []
decode_rle (r ∷ runs) = times r.count r.value ++ decode_rle runs
