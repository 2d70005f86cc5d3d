-- ===== src/Queue/Distinct.antt =====
-- The primary key of the table: no two rows have the same id.
use cash_count.Base.{◌≡◌, refl, true, false, [], ◌∷◌, All, All-map}
use cash_count.Base.Text.{text_eq, text_eq_comm}
use cash_count.Queue.Job.{JobRow, JobTable}

abbrev pub HasDistinctIds : JobTable → Type 0
HasDistinctIds [] = Unit
HasDistinctIds (r ∷ rs) = All (λ s. text_eq r.id s.id ≡ false) rs × HasDistinctIds rs

-- `c` is the only row of its id.
abbrev pub IsSole : JobTable → JobRow → Type 0
IsSole jobs c = All (λ r. text_eq r.id c.id ≡ true → r ≡ c) jobs

IsSole-head : (c : JobRow) (rs : JobTable) → All (λ s. text_eq c.id s.id ≡ false) rs → IsSole rs c
IsSole-head c rs h = All-map (λ s e k. absurd (differ s e k)) rs h
  where
    differ : (s : JobRow) → text_eq c.id s.id ≡ false → text_eq s.id c.id ≡ true → ⊥
    differ s e k = cc (text_eq_comm s.id c.id)

IsSole-tail :
    (r : JobRow) (rs ss : JobTable)
    → All (λ s. text_eq r.id s.id ≡ false) ss
    → All (IsSole rs) ss
    → All (IsSole (r ∷ rs)) ss
IsSole-tail r rs [] h k = tt
IsSole-tail r rs (s ∷ ss) h k = ((λ e. absurd (cc), k.0), IsSole-tail r rs ss h.1 k.1)

-- Then every row is the only one of its id.
pub HasDistinctIds-IsSole : (jobs : JobTable) → HasDistinctIds jobs → All (IsSole jobs) jobs
HasDistinctIds-IsSole [] h = tt
HasDistinctIds-IsSole (r ∷ rs) h =
    ((λ e. refl, IsSole-head r rs h.0), IsSole-tail r rs rs h.0 (HasDistinctIds-IsSole rs h.1))
