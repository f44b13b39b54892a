-- ===== src/Splitter/Rolling.antt =====
-- repo/splitter/splitter_buzhash32.go and splitter_rabinkarp64.go: content-defined splitters over a
-- rolling hash with a window of 64 bytes. Both files have the same text over two hashes of the
-- package github.com/chmduquesne/rollinghash, which is a parameter here.
-- A byte slice is a list of numbers, and the result -1 of NextSplitPoint is `none`.
pub mod Scan
pub mod Refinement
pub mod Segments
pub mod Streaming
use kopia.Prelude.{
  ℕ, zero, suc, ◌+◌, ◌-◌, ◌*◌, ◌/◌, ◌%◌, ◌^◌, ◌≡◌, Bool, List, [], ◌∷◌, Option, none, some, length,
  take, drop, ltb, leb, ◌==◌, if◌then◌else◌, bit_and,
}

-- splitterSlidingWindowSize
abbrev pub sliding_window_size : ℕ
sliding_window_size = 64

-- A rolling hash whose window is loaded with `sliding_window_size` bytes.
pub record RollingHash : Type 1 where
  pub Hash : Type 0
  -- New(), then Write(make([]byte, splitterSlidingWindowSize))
  pub new_window : Hash
  -- Reset(), then the same Write
  pub reset_window : Hash → Hash
  -- Roll(b)
  pub roll : Hash → ℕ → Hash
  -- Sum32() or Sum64()
  pub sum : Hash → ℕ

module _ (r : RollingHash) where
  open r use {Hash, roll, sum}

  -- Roll(b) for every b of a slice
  unfoldable pub roll_all : Hash → List ℕ → Hash
  roll_all h [] = h
  roll_all h (b ∷ bs) = roll_all (roll h b) bs

  pub record RollingSplitter : Type 0 where
    pub rh : Hash
    pub mask : ℕ
    pub count : ℕ
    pub min_size : ℕ
    pub max_size : ℕ

-- What the package documents of a rolling hash: the sum is that of the bytes in the window.
pub record IsWindowed (r : RollingHash) : Type 0 where
  pub forgets :
      (g h : r.Hash) (w : List ℕ)
      → length w ≡ sliding_window_size
      → r.sum (roll_all r g w) ≡ r.sum (roll_all r h w)

module _ (r : RollingHash) where
  open r use {Hash, new_window, reset_window, roll, sum}

  -- rs.rh.Sum32() & rs.mask == 0
  abbrev pub hits : ℕ → Hash → Bool
  hits mask h = bit_and (sum h) mask == 0

  -- newBuzHash32SplitterFactory(avgSize), at a hash of `width` bits
  unfoldable pub new_splitter : ℕ → ℕ → RollingSplitter r
  new_splitter width avg_size = record {
    rh = new_window;
    mask = (avg_size - 1) % 2 ^ width;
    count = 0;
    min_size = avg_size / 2;
    max_size = avg_size * 2;
  }

  pub reset : RollingSplitter r → RollingSplitter r
  reset s = record s { rh = reset_window s.rh; count = 0 }

  unfoldable pub max_segment_size : RollingSplitter r → ℕ
  max_segment_size s = s.max_size

  -- "until minSize, only hash the last splitterSlidingWindowSize bytes": the bytes passed over, and
  -- the state behind them. `left > 0` on int is `0 < left` on ℕ, and `i < 0` sets i to 0.
  unfoldable pub fast_path : RollingSplitter r → List ℕ → ℕ × RollingSplitter r
  fast_path s b =
      let left = s.min_size - s.count - 1 in
      let n = (if ltb (length b) left then length b else left) in
      if ltb 0 left
      then (
        n,
        record s {
          rh = roll_all r s.rh (drop (n - sliding_window_size) (take n b));
          count = s.count + n;
        },
      )
      else (0, s)

  -- `for i, b := range b[0:fp]`, from index i on; the result is that index + 1.
  unfoldable pub split_loop : RollingSplitter r → ℕ → List ℕ → Option ℕ × RollingSplitter r
  split_loop s i [] = (none, s)
  split_loop s i (b ∷ bs) =
      let s' : RollingSplitter r = record s { rh = roll s.rh b; count = s.count + 1 } in
      let rest = split_loop s' (i + 1) bs in
      if hits s'.mask s'.rh then (some (i + 1), record s' { count = 0 }) else rest

  -- "if we're over the max size, split"
  unfoldable pub split_over_max : ℕ → RollingSplitter r → Option ℕ × RollingSplitter r
  split_over_max n s =
      if leb s.max_size s.count then (some n, record s { count = 0 }) else (none, s)

  unfoldable pub finish_loop : ℕ → ℕ → Option ℕ × RollingSplitter r → Option ℕ × RollingSplitter r
  finish_loop fast_path_bytes fp (some i, s) = (some (fast_path_bytes + i), s)
  finish_loop fast_path_bytes fp (none, s) = split_over_max (fast_path_bytes + fp) s

  unfoldable pub next_split_point : RollingSplitter r → List ℕ → Option ℕ × RollingSplitter r
  next_split_point s b =
      let (fast_path_bytes, s1) = fast_path s b in
      let rest = drop fast_path_bytes b in
      let left = s1.max_size - s1.count in
      let fp = (if leb (length rest) left then length rest else left) in
      if ltb 0 left
      then finish_loop fast_path_bytes fp (split_loop s1 0 (take fp rest))
      else split_over_max fast_path_bytes s1
