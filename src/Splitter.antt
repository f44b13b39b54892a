-- ===== src/Splitter.antt =====
-- repo/splitter/splitter.go: the interface of the splitters, and what the object writer relies on.
pub mod Fixed
pub mod Rolling
pub mod RollingLaws
pub mod Factories
use mathlib.Core.Option
use kopia.Prelude.{ℕ, ◌+◌, ◌≤◌, ◌<◌, ◌≡◌, List, ◌++◌, Option, none, some, length}

-- The interface Splitter. The result -1 of NextSplitPoint is `none`, and the object that it changes
-- comes back beside the result. Close does nothing in every splitter.
pub record Splitter : Type 1 where
  pub State : Type 0
  pub next_split_point : State → List ℕ → Option ℕ × State
  pub max_segment_size : State → ℕ
  pub reset : State → State

-- What a splitter promises: the comment on NextSplitPoint, and that the split points do not depend
-- on how the bytes are cut into slices.
pub record IsSplitter (S : Splitter) : Type 1 where
  -- the states in which a call may find the splitter
  pub Ready : S.State → Type 0
  -- states that no caller can tell apart
  pub Alike : S.State → S.State → Type 0
  pub Alike-refl : (s : S.State) → Alike s s
  pub Alike-sym : (s t : S.State) → Alike s t → Alike t s
  pub Alike-trans : (s t u : S.State) → Alike s t → Alike t u → Alike s u
  pub Ready-Alike : (s t : S.State) → Alike s t → Ready s → Ready t
  pub next-Ready : (s : S.State) (b : List ℕ) → Ready s → Ready (S.next_split_point s b).1
  pub next_bounds :
      (s : S.State) (b : List ℕ) (n : ℕ)
      → Ready s
      → (S.next_split_point s b).0 ≡ some n
      → (0 < n) × (n ≤ length b)
  pub next-Alike :
      (s t : S.State) (b : List ℕ)
      → Ready s
      → Alike s t
      → ((S.next_split_point s b).0 ≡ (S.next_split_point t b).0)
        × Alike (S.next_split_point s b).1 (S.next_split_point t b).1
  pub next-append_some :
      (s : S.State) (a b : List ℕ) (n : ℕ)
      → Ready s
      → (S.next_split_point s a).0 ≡ some n
      → ((S.next_split_point s (a ++ b)).0 ≡ some n)
        × Alike (S.next_split_point s (a ++ b)).1 (S.next_split_point s a).1
  pub next-append_none :
      (s : S.State) (a b : List ℕ)
      → Ready s
      → (S.next_split_point s a).0 ≡ none
      → ((S.next_split_point s (a ++ b)).0
          ≡ Option.map (λ n. length a + n) (S.next_split_point (S.next_split_point s a).1 b).0)
        × Alike
            (S.next_split_point s (a ++ b)).1
            (S.next_split_point (S.next_split_point s a).1 b).1
