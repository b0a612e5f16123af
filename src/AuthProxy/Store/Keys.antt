-- ===== src/AuthProxy/Store/Keys.antt =====
-- The keys of the table of cmd/authproxy/store.go, and the statements that keep them.
use agentry.Base.{
  ℕ, ◌≡◌, refl, inl, inr, Bool, false, ◌||◌, List, [], ◌∷◌, ◌++◌, arith, if◌then◌else◌, Text,
  str_eq, str_eq_iff, Bool-cases, if_both,
}
use agentry.AuthProxy.Store.Statements.{
  User, Db, Outcome, set_rows, update_users, clashes, insert_user,
}

-- No two rows have the same id or the same email.
abbrev pub Keyed : List User → Type 0
Keyed [] = Unit
Keyed (u ∷ us) = (clashes u us ≡ false) × Keyed us

-- `g` changes neither.
abbrev pub KeepsKeys : (User → User) → Type 0
KeepsKeys g = (u : User) → ((g u).id ≡ u.id) × ((g u).email ≡ u.email)

clashes-set_rows :
    (g : User → User) (uid : Text) (u : User) (us : List User)
    → KeepsKeys g
    → clashes u (set_rows uid g us) ≡ clashes u us
unfolding clashes set_rows
clashes-set_rows g uid u [] k = refl
clashes-set_rows g uid u (v ∷ us) k = ground (arith, clashes-set_rows g uid u us k, k v)

clashes_same :
    (u v : User) (us : List User) → u.id ≡ v.id → u.email ≡ v.email → clashes u us ≡ clashes v us
unfolding clashes
clashes_same u v [] i e = refl
clashes_same u v (w ∷ us) i e = ground (arith, clashes_same u v us i e, i, e)

pub set_rows-Keyed :
    (g : User → User) (uid : Text) (us : List User)
    → KeepsKeys g
    → Keyed us
    → Keyed (set_rows uid g us)
unfolding set_rows
set_rows-Keyed g uid [] k h = tt
set_rows-Keyed g uid (u ∷ us) k h =
    let head : clashes (if str_eq u.id uid then g u else u) (set_rows uid g us) ≡ false = ground (
      arith,
      clashes-set_rows g uid (g u) us k,
      clashes-set_rows g uid u us k,
      clashes_same (g u) u us (k u).0 (k u).1,
      h.0,
    ) in
    (head, set_rows-Keyed g uid us k h.1)

clashes-snoc :
    (u v : User) (us : List User)
    → clashes u (us ++ (v ∷ [])) ≡ (clashes u us || (str_eq v.id u.id || str_eq v.email u.email))
unfolding clashes
clashes-snoc u v [] = ground arith
clashes-snoc u v (w ∷ us) = ground (arith, clashes-snoc u v us)

snoc-Keyed : (u : User) (us : List User) → clashes u us ≡ false → Keyed us → Keyed (us ++ (u ∷ []))
unfolding clashes
snoc-Keyed u [] c h = (refl, tt)
snoc-Keyed u (v ∷ us) c h =
    let head : clashes v (us ++ (u ∷ [])) ≡ false = ground (
      arith,
      clashes-snoc v u us,
      h.0,
      str_eq_iff u.id v.id,
      str_eq_iff v.id u.id,
      str_eq_iff u.email v.email,
      str_eq_iff v.email u.email,
    ) in
    (head, snoc-Keyed u us (ground arith) h.1)

pub insert_user-Keyed :
    (fails : Bool) (u : User) (db : Db) → Keyed db.users → Keyed (insert_user fails u db).1.users
unfolding insert_user
insert_user-Keyed fails u db h = elim (Bool-cases (clashes u db.users)) [
  | inl taken ↦ rw taken (if_both (λ (x : Outcome User × Db). Keyed x.1.users) fails h h)
  | inr free ↦
      rw free (
        if_both (λ (x : Outcome User × Db). Keyed x.1.users) fails h (snoc-Keyed u db.users free h))
]

pub update_users-Keyed :
    (fails : Bool) (uid : Text) (g : User → User) (db : Db)
    → KeepsKeys g
    → Keyed db.users
    → Keyed (update_users fails uid g db).1.users
unfolding update_users
update_users-Keyed fails uid g db k h =
    if_both (λ (x : Outcome ℕ × Db). Keyed x.1.users) fails h (set_rows-Keyed g uid db.users k h)
