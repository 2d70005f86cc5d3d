-- ===== src/Queue/Sql.antt =====
-- `update … set … where … returning …` on the table, and the selections that lock rows.
use cash_count.Base.{Bool, List, [], ◌∷◌, if◌then◌else◌}
use cash_count.Queue.Job.{JobRow, JobTable}

-- The table after the update.
unfoldable pub update : (JobRow → Bool) → (JobRow → JobRow) → JobTable → JobTable
update hit change [] = []
update hit change (r ∷ rs) = (if hit r then change r else r) ∷ update hit change rs

-- The rows that it changed, as they stand afterwards.
unfoldable pub returning : (JobRow → Bool) → (JobRow → JobRow) → JobTable → List JobRow
returning hit change [] = []
returning hit change (r ∷ rs) =
    let rest = returning hit change rs in if hit r then change r ∷ rest else rest
