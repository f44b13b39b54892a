-- ===== src/Splitter/RollingLaws.antt =====
-- The rolling splitters of repo/splitter behind the interface Splitter, and their factories.
use mathlib.Core.Option
use kopia.Prelude.{ℕ, ◌+◌, ◌≤◌, ◌<◌, ◌≡◌, ◌∙◌, List, ◌++◌, Option, none, some, length, arith}
use kopia.Splitter.{Splitter, IsSplitter}
use kopia.Splitter.Rolling.{
  RollingHash, IsWindowed, RollingSplitter, next_split_point, max_segment_size, reset, new_splitter,
}
use kopia.Splitter.Rolling.Scan.{Alike, Alike-refl, Alike-sym, Alike-trans, IsReady, SameResult}
use kopia.Splitter.Rolling.Segments.{next_split_point-IsReady, next_split_point-Cut}
use kopia.Splitter.Rolling.Streaming.{
  next_split_point-Alike, next_split_point-append, and_then, IsReady-Alike,
}

abbrev pub rolling_splitter : RollingHash → Splitter
rolling_splitter r = record {
  State = RollingSplitter r;
  next_split_point = next_split_point r;
  max_segment_size = max_segment_size r;
  reset = reset r;
}

-- newRabinKarp64SplitterFactory(avgSize), and the methods of rabinKarp64Splitter: the text of
-- splitter_rabinkarp64.go is that of splitter_buzhash32.go, over a hash of 64 bits.
abbrev pub new_rabin_karp64_splitter : (r : RollingHash) → ℕ → RollingSplitter r
new_rabin_karp64_splitter r avg_size = new_splitter r 64 avg_size

abbrev pub rabin_karp64_splitter : RollingHash → Splitter
rabin_karp64_splitter r = rolling_splitter r

-- A new splitter of a positive average size is ready for its first slice.
pub new_splitter-IsReady :
    (r : RollingHash) (width avg_size : ℕ)
    → 0 < avg_size
    → IsReady r (new_splitter r width avg_size)
unfolding new_splitter
new_splitter-IsReady r width avg_size h = omega arith

module _ (r : RollingHash) (w : IsWindowed r) where
  pub next_bounds :
      (s : RollingSplitter r) (b : List ℕ) (n : ℕ)
      → IsReady r s
      → (next_split_point r s b).0 ≡ some n
      → (0 < n) × (n ≤ length b)
  next_bounds s b n h e = let cut = rw e at (next_split_point-Cut r w s b h) in ground arith

  pub next-append_some :
      (s : RollingSplitter r) (a b : List ℕ) (n : ℕ)
      → IsReady r s
      → (next_split_point r s a).0 ≡ some n
      → ((next_split_point r s (a ++ b)).0 ≡ some n)
        × Alike r (next_split_point r s (a ++ b)).1 (next_split_point r s a).1
  next-append_some s a b n h e =
      and_then_some (next_split_point r s a) _ e (next_split_point-append r w s a b h)
    where
      and_then_some :
          (x y : Option ℕ × RollingSplitter r)
          → x.0 ≡ some n
          → SameResult r y (and_then r x (length a) (λ t. next_split_point r t b))
          → (y.0 ≡ some n) × Alike r y.1 x.1
      and_then_some (some k, t) y p q = (q.0 ∙ p, q.1)
      and_then_some (none, t) y p q = absurd (ground (arith, p))

  pub next-append_none :
      (s : RollingSplitter r) (a b : List ℕ)
      → IsReady r s
      → (next_split_point r s a).0 ≡ none
      → ((next_split_point r s (a ++ b)).0
          ≡ Option.map (λ n. length a + n) (next_split_point r (next_split_point r s a).1 b).0)
        × Alike r
            (next_split_point r s (a ++ b)).1
            (next_split_point r (next_split_point r s a).1 b).1
  next-append_none s a b h e =
      and_then_none (next_split_point r s a) _ e (next_split_point-append r w s a b h)
    where
      and_then_none :
          (x y : Option ℕ × RollingSplitter r)
          → x.0 ≡ none
          → SameResult r y (and_then r x (length a) (λ t. next_split_point r t b))
          → (y.0 ≡ Option.map (λ n. length a + n) (next_split_point r x.1 b).0)
            × Alike r y.1 (next_split_point r x.1 b).1
      and_then_none (some k, t) y p q = absurd (ground (arith, p))
      and_then_none (none, t) y p q = q

  -- A splitter over a windowed hash keeps the promises of a splitter.
  abbrev pub rolling_splitter-IsSplitter : IsSplitter (rolling_splitter r)
  rolling_splitter-IsSplitter = record {
    Ready = IsReady r;
    Alike = Alike r;
    Alike-refl = Alike-refl r;
    Alike-sym = Alike-sym r;
    Alike-trans = Alike-trans r;
    Ready-Alike = IsReady-Alike r;
    next-Ready = next_split_point-IsReady r w;
    next_bounds = next_bounds;
    next-Alike = next_split_point-Alike r w;
    next-append_some = next-append_some;
    next-append_none = next-append_none;
  }
