-- ===== src/Splitter/Fixed.antt =====
-- repo/splitter/splitter_fixed.go: chunks of one length.
use mathlib.Core.Option
use kopia.Prelude.{
  ℕ, ◌+◌, ◌-◌, ◌≤◌, ◌<◌, ◌≡◌, refl, sym, ◌∙◌, List, ◌++◌, Option, none, some, length, ltb,
  if◌then◌else◌, arith, length-append, ap,
}
use kopia.Splitter.{Splitter, IsSplitter}

pub record FixedSplitter : Type 0 where
  pub cur : ℕ
  pub chunk_length : ℕ

-- Fixed(length)
unfoldable pub new_fixed : ℕ → FixedSplitter
new_fixed length = record { cur = 0; chunk_length = length }

pub reset : FixedSplitter → FixedSplitter
reset s = record s { cur = 0 }

-- `cur` is at most `chunk_length` (IsReady), so the difference is never negative.
unfoldable pub next_split_point : FixedSplitter → List ℕ → Option ℕ × FixedSplitter
next_split_point s b =
    let n = s.chunk_length - s.cur in
    if ltb (length b) n
    then (none, record s { cur = s.cur + length b })
    else (some n, record s { cur = 0 })

unfoldable pub max_segment_size : FixedSplitter → ℕ
max_segment_size s = s.chunk_length

abbrev pub fixed_splitter : Splitter
fixed_splitter = record {
  State = FixedSplitter;
  next_split_point = next_split_point;
  max_segment_size = max_segment_size;
  reset = reset;
}

abbrev pub IsReady : FixedSplitter → Type 0
IsReady s = s.cur < s.chunk_length

pub next_bounds :
    (s : FixedSplitter) (b : List ℕ) (n : ℕ)
    → IsReady s
    → (next_split_point s b).0 ≡ some n
    → (0 < n) × (n ≤ length b)
unfolding next_split_point
next_bounds s b n h e = ground arith

pub next-IsReady : (s : FixedSplitter) (b : List ℕ) → IsReady s → IsReady (next_split_point s b).1
unfolding next_split_point
next-IsReady s b h = ground arith

pub next-append_some :
    (s : FixedSplitter) (a b : List ℕ) (n : ℕ)
    → IsReady s
    → (next_split_point s a).0 ≡ some n
    → ((next_split_point s (a ++ b)).0 ≡ some n)
      × ((next_split_point s (a ++ b)).1 ≡ (next_split_point s a).1)
unfolding next_split_point
next-append_some s a b n h e = ground (arith, length-append a b)

pub next-append_none :
    (s : FixedSplitter) (a b : List ℕ)
    → IsReady s
    → (next_split_point s a).0 ≡ none
    → ((next_split_point s (a ++ b)).0
        ≡ Option.map (λ n. length a + n) (next_split_point (next_split_point s a).1 b).0)
      × ((next_split_point s (a ++ b)).1 ≡ (next_split_point (next_split_point s a).1 b).1)
unfolding next_split_point
next-append_none s a b h e = ground (arith, length-append a b)

-- The fixed splitter keeps the promises of a splitter: split points lie within the slice, every state
-- that is ready stays ready, and slices may be cut anywhere.
abbrev pub fixed_splitter-IsSplitter : IsSplitter fixed_splitter
fixed_splitter-IsSplitter = record {
  Ready = IsReady;
  Alike = λ s t. s ≡ t;
  Alike-refl = λ s. refl;
  Alike-sym = λ s t e. sym e;
  Alike-trans = λ s t u d e. d ∙ e;
  Ready-Alike = λ s t e h. rw (← e) h;
  next-Ready = next-IsReady;
  next_bounds = next_bounds;
  next-Alike =
      λ s t b h e. (ap (λ u. (next_split_point u b).0) e, ap (λ u. (next_split_point u b).1) e);
  next-append_some = next-append_some;
  next-append_none = next-append_none;
}
