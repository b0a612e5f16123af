-- ===== src/Provisioner/Tests/Models.antt =====
-- Stand-ins for what the provisioner takes from packages: a clock text of whole seconds.
use agentry.Base.{suc, ◌*◌, ◌/◌, refl, [], ◌∷◌, arith, Text, codes, is_empty, Result, ok, err, ap}
use agentry.Base.Int.{ℤ, pos, negsuc}
use agentry.Provisioner.Expiry.{second, IsRfc3339}

-- One byte beyond any text of the program, the seconds from the zero time on.
abbrev pub format : ℤ → Text
format (pos t) = suc (t / second) ∷ []
format (negsuc t) = []

abbrev pub parse : Text → Result ℤ
parse (suc k ∷ []) = ok (pos (k * second))
parse _ = err (codes "no time")

pub rfc : IsRfc3339 format parse
unfolding is_empty
rfc = record { reads_back = λ t h. ap (λ k. ok (pos k)) (omega arith); writes = λ t h. refl }
