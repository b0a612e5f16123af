-- ===== src/Shell/Ring/Reading.antt =====
-- Reads of the ring of pkg/shell/ring.go against the log of all bytes written.
use agentry.Base.{
  ℕ, zero, suc, ◌+◌, ◌-◌, ◌%◌, ◌≤◌, ◌<◌, max, ◌≡◌, refl, ◌∙◌, ap, List, [], ◌∷◌, arith, length,
  take, drop, get_elem?, length-append, length-take, length-drop, get_elem?-append, get_elem?-drop,
  get_elem?-take, list_ext,
}
use agentry.Base.Int.{pos, sub64-pos, int64_bound}
use agentry.Shell.Ring.{Ring, read, copy_out}
use agentry.Shell.Ring.Window.{rotate}
use agentry.Shell.Ring.Log.{Holds}

-- The part of the ring that `Read` copies, in physical indices.
module _ (r : Ring) (log : List ℕ) (h : Holds r log) (i n : ℕ) (fits : i + n ≤ r.size)
    (some_bytes : 0 < n) where
  idx : ℕ
  idx = (r.head + i) % r.cap

  length-copy_out : length (copy_out r idx n) ≡ n
  unfolding copy_out idx
  length-copy_out = ground (
    arith,
    rotate r.head i r.cap h.head_lt (omega (arith, h.size_eq)),
    length-take n (drop idx r.buf),
    length-drop idx r.buf,
    length-append (drop idx r.buf) (take (n - (r.cap - idx)) r.buf),
    length-take (n - (r.cap - idx)) r.buf,
    h.buf_len,
    h.size_eq,
  )

  get_elem?-copy_out :
      (k : ℕ)
      → k < n
      → get_elem? (copy_out r idx n) k ≡ get_elem? r.buf ((r.head + (i + k)) % r.cap)
  unfolding copy_out idx
  get_elem?-copy_out k p = ground (
    arith,
    rotate r.head i r.cap h.head_lt (omega (arith, h.size_eq)),
    rotate r.head (i + k) r.cap h.head_lt (omega (arith, h.size_eq)),
    get_elem?-take n (drop idx r.buf) k,
    get_elem?-drop idx r.buf k,
    length-drop idx r.buf,
    get_elem?-append (drop idx r.buf) (take (n - (r.cap - idx)) r.buf) k,
    get_elem?-take (n - (r.cap - idx)) r.buf (k - (r.cap - idx)),
    h.buf_len,
    h.size_eq,
  )

  copy_out-eq-take : copy_out r idx n ≡ take n (drop (length log - r.size + i) log)
  copy_out-eq-take =
      list_ext (copy_out r idx n) (take n (drop (length log - r.size + i) log))
        (ground (
          arith,
          length-copy_out,
          length-take n (drop (length log - r.size + i) log),
          length-drop (length log - r.size + i) log,
          h.size_eq,
        ))
        λ k p.
          let p' : k < n = omega (arith, length-copy_out) in
          get_elem?-copy_out k p'
          ∙ h.held (i + k) (omega arith)
          ∙ ground (
            arith,
            get_elem?-take n (drop (length log - r.size + i) log) k,
            get_elem?-drop (length log - r.size + i) log k,
          )

take_all : (n : ℕ) (xs : List ℕ) → length xs ≤ n → take n xs ≡ xs
take_all zero [] h = refl
take_all zero (x ∷ xs) h = absurd (omega arith)
take_all (suc n) [] h = refl
take_all (suc n) (x ∷ xs) h = ap (λ l. x ∷ l) (take_all n xs (omega arith))

drop_all : (n : ℕ) (xs : List ℕ) → length xs ≤ n → drop n xs ≡ []
drop_all zero [] h = refl
drop_all zero (x ∷ xs) h = absurd (omega arith)
drop_all (suc n) [] h = refl
drop_all (suc n) (x ∷ xs) h = drop_all n xs (omega arith)

-- The copy of all that the ring holds from the `i`-th byte on.
copy_out-tail :
    (r : Ring) (log : List ℕ)
    → Holds r log
    → (i : ℕ) → i < r.size
    → copy_out r ((r.head + i) % r.cap) (r.size - i) ≡ drop (length log - r.size + i) log
unfolding idx
copy_out-tail r log h i p =
    copy_out-eq-take r log h i (r.size - i) (omega arith) (omega arith)
    ∙ take_all (r.size - i) (drop (length log - r.size + i) log)
        (omega (arith, length-drop (length log - r.size + i) log, h.size_eq))

-- A read at cursor `c` returns the bytes of the log from `c` on, less those that are evicted, which
-- it counts, and the number of all bytes ever written as the new cursor.
pub read-log :
    (r : Ring) (log : List ℕ) (c : ℕ)
    → Holds r log
    → c < int64_bound
    → read r (pos c)
      ≡ (drop (max c (length log - r.size)) log, pos (length log), pos (length log - r.size - c))
unfolding read
read-log r log c h l =
    let o = length log - r.size in
    ground (
      arith,
      h.written_eq,
      h.size_eq,
      sub64-pos (length log) r.size,
      sub64-pos o c,
      sub64-pos c o,
      sub64-pos o o,
      sub64-pos (length log) o,
      sub64-pos (length log) c,
      copy_out-tail r log h 0,
      copy_out-tail r log h (c - o),
      drop_all (max c o) log,
    )
