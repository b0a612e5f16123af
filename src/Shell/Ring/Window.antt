-- ===== src/Shell/Ring/Window.antt =====
-- The steps of a write to the ring of pkg/shell/ring.go keep the window of the buffer in use.
use native.Mathlib.Nat.{mod-lt, mod-eq_of_lt, mod-eq-sub-mod, mod-add-mod}
use native.Mathlib.Decide.{dec_lt}
use agentry.Base.{
  ℕ, ◌+◌, ◌-◌, ◌%◌, ◌≤◌, ◌<◌, min, ◌≡◌, ◌∙◌, List, ◌++◌, arith, ltb, if◌then◌else◌, length, take,
  drop, get_elem?, length-append, length-take, length-drop, get_elem?-append, get_elem?-drop,
  get_elem?-take,
}
use agentry.Base.Int.{pos, add64-pos, int64_bound}
use agentry.Shell.Ring.{Ring, write_all, evict, append_chunk}
use agentry.Shell.Ring.Copy.{copy_at, length-copy_at, get_elem?-copy_at}

-- What the steps of a write keep: the buffer is allocated, and a window of it is the log's tail.
pub record Window (r : Ring) (log : List ℕ) : Type 0 where
  pub cap_pos : 0 < r.cap
  pub head_lt : r.head < r.cap
  pub size_le : r.size ≤ r.cap
  pub fits : r.size ≤ length log
  pub dropped_eq : r.dropped ≡ pos (length log - r.size)
  pub buf_len : length r.buf ≡ r.cap
  pub held :
      (i : ℕ)
      → i < r.size
      → get_elem? r.buf ((r.head + i) % r.cap) ≡ get_elem? log (length log - r.size + i)

-- An index that runs past the end at most once.
pub rotate :
    (h i c : ℕ) → h < c → i ≤ c → (h + i) % c ≡ (if ltb (h + i) c then h + i else h + i - c)
rotate h i c p q = elim (dec_lt (h + i) c) [
  | yes l ↦ ground (arith, mod-eq_of_lt l)
  | no l ↦
      let m : c ≤ h + i = omega arith in
      let k : h + i - c < c = omega arith in ground (arith, mod-eq-sub-mod m, mod-eq_of_lt k)
]

pub evict-size : (r : Ring) (n : ℕ) → n < r.cap → (evict r n).size ≡ min r.size (r.cap - n)
unfolding evict
evict-size r n h = ground arith

module _ (r : Ring) (log : List ℕ) (w : Window r log) where
  evict-held :
      (n i : ℕ)
      → i < (evict r n).size
      → get_elem? (evict r n).buf (((evict r n).head + i) % (evict r n).cap)
        ≡ get_elem? log (length log - (evict r n).size + i)
  unfolding evict
  evict-held n i h =
      let ov = r.size + n - r.cap in
      ground (arith, mod-add-mod (r.head + ov) r.cap i, w.held (ov + i), w.held i)

  pub evict-Window : (n : ℕ) → n < r.cap → length log < int64_bound → Window (evict r n) log
  unfolding evict
  evict-Window n h l = record {
    cap_pos = ground arith;
    head_lt = ground (arith, mod-lt (r.head + (r.size + n - r.cap)) w.cap_pos);
    size_le = ground arith;
    fits = ground arith;
    dropped_eq = ground (arith, add64-pos (length log - r.size) (r.size + n - r.cap), w.dropped_eq);
    buf_len = ground arith;
    held = evict-held n;
  }

-- The cells behind the window take the chunk, the window's cells keep their bytes.
module _ (r : Ring) (log p : List ℕ) (w : Window r log) (room : r.size + length p ≤ r.cap) where
  append_chunk-old :
      (i : ℕ)
      → i < r.size
      → get_elem? (append_chunk r p).buf ((r.head + i) % r.cap)
        ≡ get_elem? r.buf ((r.head + i) % r.cap)
  unfolding append_chunk
  append_chunk-old i h =
      let t = (r.head + r.size) % r.cap in
      let f = r.cap - t in
      let j = (r.head + i) % r.cap in
      ground (
        arith,
        rotate r.head r.size r.cap w.head_lt w.size_le,
        rotate r.head i r.cap w.head_lt (omega (arith, w.size_le)),
        get_elem?-copy_at r.buf t p j,
        get_elem?-copy_at r.buf t (take f p) j,
        get_elem?-copy_at (copy_at r.buf t (take f p)) 0 (drop f p) j,
        length-copy_at r.buf t (take f p),
        length-take f p,
        length-drop f p,
        w.buf_len,
        w.size_le,
      )

  append_chunk-new :
      (k : ℕ)
      → k < length p
      → get_elem? (append_chunk r p).buf ((r.head + (r.size + k)) % r.cap) ≡ get_elem? p k
  unfolding append_chunk
  append_chunk-new k h =
      let t = (r.head + r.size) % r.cap in
      let f = r.cap - t in
      let j = (r.head + (r.size + k)) % r.cap in
      ground (
        arith,
        rotate r.head r.size r.cap w.head_lt w.size_le,
        rotate r.head (r.size + k) r.cap w.head_lt (omega (arith, room)),
        get_elem?-copy_at r.buf t p j,
        get_elem?-copy_at r.buf t (take f p) j,
        get_elem?-copy_at (copy_at r.buf t (take f p)) 0 (drop f p) j,
        length-copy_at r.buf t (take f p),
        length-take f p,
        length-drop f p,
        get_elem?-take f p k,
        get_elem?-drop f p (k - f),
        w.buf_len,
      )

  append_chunk-held :
      (i : ℕ)
      → i < r.size + length p
      → get_elem? (append_chunk r p).buf ((r.head + i) % r.cap)
        ≡ get_elem? (log ++ p) (length log - r.size + i)
  append_chunk-held i h = elim (dec_lt i r.size) [
    | yes l ↦
        append_chunk-old i l
        ∙ w.held i l
        ∙ ground (arith, get_elem?-append log p (length log - r.size + i), w.fits)
    | no l ↦
        let k = i - r.size in
        let e : r.size + k ≡ i = omega arith in
        rw (← e) (
          append_chunk-new k (omega arith)
          ∙ ground (arith, get_elem?-append log p (length log - r.size + (r.size + k)), w.fits))
  ]

  length-append_chunk : length (append_chunk r p).buf ≡ r.cap
  unfolding append_chunk
  length-append_chunk =
      let t = (r.head + r.size) % r.cap in
      let f = r.cap - t in
      ground (
        arith,
        length-copy_at r.buf t p,
        length-copy_at r.buf t (take f p),
        length-copy_at (copy_at r.buf t (take f p)) 0 (drop f p),
        w.buf_len,
      )

  pub append_chunk-Window : Window (append_chunk r p) (log ++ p)
  unfolding append_chunk
  append_chunk-Window = record {
    cap_pos = w.cap_pos;
    head_lt = w.head_lt;
    size_le = room;
    fits = omega (arith, length-append log p, w.fits);
    dropped_eq = ground (arith, length-append log p, w.dropped_eq, w.fits);
    buf_len = length-append_chunk;
    held = λ i h.
        let e : length (log ++ p) - (r.size + length p) ≡ length log - r.size =
          omega (arith, length-append log p, w.fits) in
        rw e (append_chunk-held i h);
  }

module _ (r : Ring) (log p : List ℕ) (w : Window r log) (big : r.cap ≤ length p) where
  write_all-held :
      (i : ℕ)
      → i < r.cap
      → get_elem? (write_all r p).buf ((0 + i) % r.cap)
        ≡ get_elem? (log ++ p) (length (log ++ p) - r.cap + i)
  unfolding write_all
  write_all-held i h = ground (
    arith,
    mod-eq_of_lt h,
    get_elem?-copy_at r.buf 0 (drop (length p - r.cap) p) i,
    get_elem?-drop (length p - r.cap) p i,
    length-drop (length p - r.cap) p,
    length-append log p,
    get_elem?-append log p (length (log ++ p) - r.cap + i),
    w.buf_len,
  )

  pub write_all-Window : length log + length p < int64_bound → Window (write_all r p) (log ++ p)
  unfolding write_all
  write_all-Window l = record {
    cap_pos = w.cap_pos;
    head_lt = w.cap_pos;
    size_le = omega arith;
    fits = omega (arith, length-append log p);
    dropped_eq = ground (
      arith,
      length-append log p,
      add64-pos r.size (length p - r.cap),
      add64-pos (length log - r.size) (r.size + (length p - r.cap)),
      w.dropped_eq,
      w.fits,
    );
    buf_len = ground (arith, length-copy_at r.buf 0 (drop (length p - r.cap) p), w.buf_len);
    held = write_all-held;
  }
