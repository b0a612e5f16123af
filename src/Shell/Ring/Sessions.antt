-- ===== src/Shell/Ring/Sessions.antt =====
-- Whole sessions with the ring of pkg/shell/ring.go: a writer, and a client that polls.
use mathlib.Core.List.{append-nil, append_assoc}
use agentry.Base.{
  ℕ, ◌+◌, ◌-◌, ◌≤◌, ◌<◌, max, ◌≡◌, refl, inr, ◌∙◌, ap, some, List, [], ◌∷◌, ◌++◌, arith, length,
  drop, length-append,
}
use agentry.Base.Int.{ℤ, pos, int64_bound}
use agentry.Shell.Ring.{Ring, empty_ring, new_ring, write, read, snapshot}
use agentry.Shell.Ring.Log.{Holds, write-Holds, write-cap}
use agentry.Shell.Ring.Reading.{read-log}

unfoldable pub concat : List (List ℕ) → List ℕ
concat [] = []
concat (p ∷ ps) = p ++ concat ps

-- The ring after a list of writes.
unfoldable pub writes : Ring → List (List ℕ) → Ring
writes r [] = r
writes r (p ∷ ps) = writes (write r p).0 ps

-- What a client collects that reads once after each write, from the cursor of the last read.
unfoldable pub follow : Ring → ℤ → List (List ℕ) → List ℕ
follow r c [] = []
follow r c (p ∷ ps) =
    let r1 = (write r p).0 in let (seen, next, lost) = read r1 c in seen ++ follow r1 next ps

abbrev pub Each : (List ℕ → Type 0) → List (List ℕ) → Type 0
Each P [] = Unit
Each P (p ∷ ps) = P p × Each P ps

pub empty_ring-Holds : (limit : ℕ) → 0 < limit → Holds (empty_ring limit) []
unfolding empty_ring
empty_ring-Holds limit p = record {
  cap_pos = p;
  head_lt = p;
  size_eq = omega arith;
  log_lt = omega arith;
  written_eq = refl;
  dropped_eq = refl;
  buf_len = inr (refl, refl);
  held = λ i h. absurd (omega arith);
}

new_ring_inv :
    (limit : ℕ) (r : Ring) → new_ring limit ≡ some r → (0 < limit) × (r ≡ empty_ring limit)
unfolding new_ring empty_ring
new_ring_inv limit r e = ground arith

writes-Holds_from :
    (r : Ring) (log : List ℕ) (ps : List (List ℕ))
    → Holds r log
    → length log + length (concat ps) < int64_bound
    → Holds (writes r ps) (log ++ concat ps)
unfolding writes concat
writes-Holds_from r log [] h l = rw append-nil h
writes-Holds_from r log (p ∷ ps) h l = rw (← append_assoc) (
    writes-Holds_from (write r p).0 (log ++ p) ps
      (write-Holds r log p h (omega (arith, length-append p (concat ps)))).0
      (omega (arith, length-append p (concat ps), length-append log p)))

cap-writes : (r : Ring) (ps : List (List ℕ)) → (writes r ps).cap ≡ r.cap
unfolding writes
cap-writes r [] = refl
cap-writes r (p ∷ ps) = cap-writes (write r p).0 ps ∙ write-cap r p

-- After any writes to a new ring, fewer than 2 ^ 63 bytes in all, `Read` at any cursor returns the
-- written bytes from the cursor on, less the evicted ones, which are all but the last `limit`.
pub read-writes :
    (limit : ℕ) (r : Ring) (ps : List (List ℕ)) (c : ℕ)
    → new_ring limit ≡ some r
    → length (concat ps) < int64_bound
    → c < int64_bound
    → read (writes r ps) (pos c) ≡ (
      drop (max c (length (concat ps) - limit)) (concat ps),
      pos (length (concat ps)),
      pos (length (concat ps) - limit - c),
    )
unfolding empty_ring
read-writes limit r ps c e l k =
    let (c_pos, is_empty) = new_ring_inv limit r e in
    rw is_empty (
      ground (
        arith,
        read-log (writes (empty_ring limit) ps) (concat ps) c
            (writes-Holds_from (empty_ring limit) [] ps (empty_ring-Holds limit c_pos)
              (omega arith))
            k,
        (writes-Holds_from (empty_ring limit) [] ps (empty_ring-Holds limit c_pos)
            (omega arith)).size_eq,
        cap-writes (empty_ring limit) ps,
      ))

-- `Snapshot` reports as dropped what the ring counted as evicted, and returns all else.
pub snapshot-log :
    (r : Ring) (log : List ℕ)
    → Holds r log
    → snapshot r ≡ (drop (length log - r.size) log, r.written, r.dropped)
unfolding snapshot
snapshot-log r log h = ground (arith, read-log r log 0 h, h.written_eq, h.dropped_eq)

drop-length : (xs ys : List ℕ) → drop (length xs) (xs ++ ys) ≡ ys
drop-length [] ys = refl
drop-length (x ∷ xs) ys = drop-length xs ys

-- A client that has seen all reads exactly the chunk that is written next.
read-write :
    (r : Ring) (log p : List ℕ)
    → Holds r log
    → length log + length p < int64_bound
    → length p ≤ r.cap
    → read (write r p).0 (pos (length log)) ≡ (p, pos (length (log ++ p)), pos 0)
read-write r log p h l k =
    let h1 = (write-Holds r log p h l).0 in
    ground (
      arith,
      read-log (write r p).0 (log ++ p) (length log) h1,
      h1.size_eq,
      write-cap r p,
      length-append log p,
      drop-length log p,
    )

-- A client that polls after each write, starting with all seen, collects every byte that is written
-- from then on, if no write is longer than the capacity.
pub follow-concat :
    (r : Ring) (log : List ℕ) (ps : List (List ℕ))
    → Holds r log
    → length log + length (concat ps) < int64_bound
    → Each (λ p. length p ≤ r.cap) ps
    → follow r (pos (length log)) ps ≡ concat ps
unfolding follow concat
follow-concat r log [] h l k = refl
follow-concat r log (p ∷ ps) h l k =
    let fits : length log + length p < int64_bound = omega (arith, length-append p (concat ps)) in
    rw (read-write r log p h fits k.0) (
      ap (λ l. p ++ l)
        (follow-concat (write r p).0 (log ++ p) ps (write-Holds r log p h fits).0
          (omega (arith, length-append p (concat ps), length-append log p))
          (rw (write-cap r p) k.1)))
