-- ===== src/Shell/Ring.antt =====
-- pkg/shell/ring.go: the bounded log buffer. `int` fields stay below twice the capacity; the two
-- `int64` counters wrap as Go's do.
pub mod Copy
pub mod Window
pub mod Log
pub mod Reading
pub mod Sessions
use agentry.Base.{
  ℕ, ◌+◌, ◌-◌, ◌%◌, Bool, true, false, Option, none, some, List, [], ◌∷◌, ltb, leb, ◌==◌,
  if◌then◌else◌, length, take, drop, replicate, ◌++◌,
}
use agentry.Base.Int.{ℤ, pos, ltb_ℤ, leb_ℤ, add64, sub64, pos_part}
use Copy.{copy_at}

pub record Ring : Type 0 where
  pub buf : List ℕ  -- [] is Go's nil
  pub head : ℕ
  pub size : ℕ
  pub cap : ℕ
  pub written : ℤ
  pub dropped : ℤ

unfoldable pub empty_ring : ℕ → Ring
empty_ring limit = record {
  buf = [];
  head = 0;
  size = 0;
  cap = limit;
  written = pos 0;
  dropped = pos 0;
}

-- `NewRing`; `none` is the panic.
unfoldable pub new_ring : ℕ → Option Ring
new_ring limit = if limit == 0 then none else some (empty_ring limit)

-- `if r.buf == nil { r.buf = make([]byte, r.cap) }`
abbrev pub allocated : List ℕ → ℕ → List ℕ
allocated [] limit = replicate limit 0
allocated (b ∷ buf) limit = b ∷ buf

-- The start of `Write`: count the bytes, allocate the backing array if there is none.
unfoldable pub start_write : Ring → ℕ → Ring
start_write r n = record r { written = add64 r.written (pos n); buf = allocated r.buf r.cap }

-- The branch of `Write` for a chunk that fills the ring.
unfoldable pub write_all : Ring → List ℕ → Ring
write_all r p = record r {
  buf = copy_at r.buf 0 (drop (length p - r.cap) p);
  head = 0;
  size = r.cap;
  dropped = add64 r.dropped (add64 (pos r.size) (pos (length p - r.cap)));
}

-- Drops just enough bytes from the front to make room for `n`.
unfoldable pub evict : Ring → ℕ → Ring
evict r n =
    let overflow = r.size + n - r.cap in
    if ltb r.cap (r.size + n)
    then record r {
      dropped = add64 r.dropped (pos overflow);
      head = (r.head + overflow) % r.cap;
      size = r.size - overflow;
    }
    else r

-- Stores `p` behind the last byte, in one piece or wrapped round the end.
unfoldable pub append_chunk : Ring → List ℕ → Ring
append_chunk r p =
    let tail = (r.head + r.size) % r.cap in
    let first = r.cap - tail in
    let buf =
      if leb (length p) first
      then copy_at r.buf tail p
      else copy_at (copy_at r.buf tail (take first p)) 0 (drop first p) in
    record r { buf = buf; size = r.size + length p }

-- `Write`; the result is the new ring and the count that `Write` returns (its error is nil).
unfoldable pub write : Ring → List ℕ → Ring × ℕ
write r [] = (r, 0)
write r (b ∷ bs) =
    let p = b ∷ bs in
    let r1 = start_write r (length p) in
    (
      if leb r1.cap (length p) then write_all r1 p else append_chunk (evict r1 (length p)) p,
      length p,
    )

-- `buf[from:to]`
unfoldable pub slice : List ℕ → ℕ → ℕ → List ℕ
slice buf from to = take (to - from) (drop from buf)

-- The copy out of the ring in `Read`: `n` bytes from physical index `idx`.
unfoldable pub copy_out : Ring → ℕ → ℕ → List ℕ
unfolding slice
copy_out r idx n =
    let first = r.cap - idx in
    if leb n first then slice r.buf idx (idx + n) else drop idx r.buf ++ slice r.buf 0 (n - first)

-- `Read`: the data, the new cursor, and the bytes that were lost before the read.
unfoldable pub read : Ring → ℤ → List ℕ × ℤ × ℤ
read r cursor =
    let oldest = sub64 r.written (pos r.size) in
    let gap = ltb_ℤ cursor oldest in
    let dropped = if gap then sub64 oldest cursor else pos 0 in
    let start = if gap then oldest else cursor in
    if leb_ℤ r.written start then ([], r.written, dropped) else (
      copy_out r ((r.head + pos_part (sub64 start oldest)) % r.cap)
          (pos_part (sub64 r.written start)),
      r.written,
      dropped,
    )

unfoldable pub snapshot : Ring → List ℕ × ℤ × ℤ
snapshot r = read r (pos 0)
