-- ===== src/Shell/Ring/Log.antt =====
-- The ring of pkg/shell/ring.go holds the tail of the log of all bytes written.
use mathlib.Core.List.{append-nil}
use agentry.Base.{
  ℕ, ◌+◌, ◌-◌, ◌%◌, ◌≤◌, ◌<◌, min, ◌≡◌, refl, ◌⊎◌, inl, inr, List, [], ◌∷◌, ◌++◌, arith, leb,
  leb→le, length, get_elem?, length-append, length-replicate, Bool-cases,
}
use agentry.Base.Int.{pos, add64-pos, int64_bound}
use agentry.Shell.Ring.{Ring, write, write_all, evict, append_chunk, allocated, start_write}
use agentry.Shell.Ring.Window.{
  Window, evict-size, evict-Window, append_chunk-Window, write_all-Window,
}

-- `r` is a ring after the bytes of `log`, oldest first, were written to it.
pub record Holds (r : Ring) (log : List ℕ) : Type 0 where
  pub cap_pos : 0 < r.cap
  pub head_lt : r.head < r.cap
  pub size_eq : r.size ≡ min r.cap (length log)
  pub log_lt : length log < int64_bound
  pub written_eq : r.written ≡ pos (length log)
  pub dropped_eq : r.dropped ≡ pos (length log - r.size)
  pub buf_len : (length r.buf ≡ r.cap) ⊎ ((length r.buf ≡ 0) × (r.size ≡ 0))
  pub held :
      (i : ℕ)
      → i < r.size
      → get_elem? r.buf ((r.head + i) % r.cap) ≡ get_elem? log (length log - r.size + i)

length-allocated :
    (buf : List ℕ) (limit : ℕ)
    → (length buf ≡ limit) ⊎ (length buf ≡ 0)
    → length (allocated buf limit) ≡ limit
length-allocated [] limit h = length-replicate limit 0
length-allocated (b ∷ buf) limit h = ground arith

-- A ring that holds a byte is allocated already.
allocated_self :
    (buf : List ℕ) (c s : ℕ)
    → (length buf ≡ c) ⊎ ((length buf ≡ 0) × (s ≡ 0))
    → 0 < c
    → 0 < s
    → allocated buf c ≡ buf
allocated_self [] c s h k l = absurd (omega arith)
allocated_self (b ∷ buf) c s h k l = refl

start_write-Window : (r : Ring) (log : List ℕ) (n : ℕ) → Holds r log → Window (start_write r n) log
unfolding start_write
start_write-Window r log n h = record {
  cap_pos = h.cap_pos;
  head_lt = h.head_lt;
  size_le = omega (arith, h.size_eq);
  fits = omega (arith, h.size_eq);
  dropped_eq = h.dropped_eq;
  buf_len = length-allocated r.buf r.cap (ground (arith, h.buf_len));
  held =
      λ i p. rw (allocated_self r.buf r.cap r.size h.buf_len h.cap_pos (omega arith)) (h.held i p);
}

Window-Holds :
    (r : Ring) (log : List ℕ)
    → Window r log
    → r.size ≡ min r.cap (length log)
    → r.written ≡ pos (length log)
    → length log < int64_bound
    → Holds r log
Window-Holds r log w s e l = record {
  cap_pos = w.cap_pos;
  head_lt = w.head_lt;
  size_eq = s;
  log_lt = l;
  written_eq = e;
  dropped_eq = w.dropped_eq;
  buf_len = inl w.buf_len;
  held = w.held;
}

-- A chunk that is not empty, behind either branch of `Write`.
module _ (r : Ring) (log p : List ℕ) (h : Holds r log)
    (l : length log + length p < int64_bound) where
  start : Ring
  start = start_write r (length p)

  write_all-Holds : r.cap ≤ length p → Holds (write_all start p) (log ++ p)
  unfolding start write_all start_write
  write_all-Holds big =
      Window-Holds (write_all start p) (log ++ p)
        (write_all-Window start log p (start_write-Window r log (length p) h) big l)
        (omega (arith, length-append log p))
        (ground (arith, length-append log p, add64-pos (length log) (length p), h.written_eq))
        (omega (arith, length-append log p))

  append_chunk-Holds : length p < r.cap → Holds (append_chunk (evict start (length p)) p) (log ++ p)
  unfolding start append_chunk evict start_write
  append_chunk-Holds small =
      let w = start_write-Window r log (length p) h in
      let v = evict-Window start log w (length p) small h.log_lt in
      let s = evict-size start (length p) small in
      Window-Holds (append_chunk (evict start (length p)) p) (log ++ p)
        (append_chunk-Window (evict start (length p)) log p v (ground (arith, s)))
        (ground (arith, length-append log p, s, h.size_eq))
        (ground (arith, length-append log p, add64-pos (length log) (length p), h.written_eq))
        (omega (arith, length-append log p))

-- Every write keeps the ring on the log, extended by the chunk, and returns the chunk's length.
pub write-Holds :
    (r : Ring) (log p : List ℕ)
    → Holds r log
    → length log + length p < int64_bound
    → Holds (write r p).0 (log ++ p) × ((write r p).1 ≡ length p)
unfolding write start start_write
write-Holds r log [] h l = (rw append-nil h, refl)
write-Holds r log (b ∷ bs) h l = elim (Bool-cases (leb r.cap (length (b ∷ bs)))) [
  | inl big ↦ rw big (write_all-Holds r log (b ∷ bs) h l (omega (arith, leb→le _ _ big)), refl)
  | inr small ↦ rw small (append_chunk-Holds r log (b ∷ bs) h l (ground arith), refl)
]

pub write-cap : (r : Ring) (p : List ℕ) → (write r p).0.cap ≡ r.cap
unfolding write start_write write_all append_chunk evict
write-cap r [] = refl
write-cap r (b ∷ bs) = ground arith
