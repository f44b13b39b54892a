-- ===== src/Splitter/Factories.antt =====
-- repo/splitter/splitter.go: the registered splitters, by name. The rolling hashes buzhash32 and
-- rabinkarp64 of the package rollinghash are parameters.
use Prim.Native.String.{String}
use text.Mathlib.Text.{◌==◌}
use kopia.Prelude.{ℕ, ◌*◌, ◌^◌, ◌≤◌, List, [], ◌∷◌, Option, none, some, if◌then◌else◌}
use kopia.Splitter.{Splitter, IsSplitter}
use kopia.Splitter.Fixed.{fixed_splitter, new_fixed}
use kopia.Splitter.Fixed
use kopia.Splitter.Rolling.{RollingHash, new_splitter}
use kopia.Splitter.Rolling
use kopia.Splitter.RollingLaws.{rolling_splitter, rabin_karp64_splitter, new_rabin_karp64_splitter}

-- A Factory makes a new splitter of a kind.
pub record Factory : Type 1 where
  pub splitter : Splitter
  pub make : splitter.State

-- Fixed(length)
abbrev pub fixed : ℕ → Factory
fixed n = record { splitter = fixed_splitter; make = new_fixed n }

abbrev kb : ℕ
kb = 2 ^ 10

abbrev mb : ℕ
mb = 2 ^ 20

-- What a factory makes keeps the promises of a splitter and is ready for a first slice, and its segments have
-- at most max_segment_size bytes, which is from 128 KB to 16 MB.
pub record Works (f : Factory) : Type 1 where
  pub promises : IsSplitter f.splitter
  pub ready : promises.Ready f.make
  pub least : 128 * kb ≤ f.splitter.max_segment_size f.make
  pub most : f.splitter.max_segment_size f.make ≤ 16 * mb

module _ (buz rabin : RollingHash) where
  -- newBuzHash32SplitterFactory(avgSize) and newRabinKarp64SplitterFactory(avgSize)
  abbrev pub buz_hash32 : ℕ → Factory
  buz_hash32 n = record { splitter = rolling_splitter buz; make = new_splitter buz 32 n }

  abbrev pub rabin_karp64 : ℕ → Factory
  rabin_karp64 n = record {
    splitter = rabin_karp64_splitter rabin;
    make = new_rabin_karp64_splitter rabin n;
  }

  abbrev pub splitter_factories : List (String × Factory)
  splitter_factories =
      ("FIXED-128K", fixed (128 * kb))
      ∷ ("FIXED-256K", fixed (256 * kb))
      ∷ ("FIXED-512K", fixed (512 * kb))
      ∷ ("FIXED-1M", fixed mb)
      ∷ ("FIXED-2M", fixed (2 * mb))
      ∷ ("FIXED-4M", fixed (4 * mb))
      ∷ ("FIXED-8M", fixed (8 * mb))
      ∷ ("DYNAMIC-128K-BUZHASH", buz_hash32 (128 * kb))
      ∷ ("DYNAMIC-256K-BUZHASH", buz_hash32 (256 * kb))
      ∷ ("DYNAMIC-512K-BUZHASH", buz_hash32 (512 * kb))
      ∷ ("DYNAMIC-1M-BUZHASH", buz_hash32 mb)
      ∷ ("DYNAMIC-2M-BUZHASH", buz_hash32 (2 * mb))
      ∷ ("DYNAMIC-4M-BUZHASH", buz_hash32 (4 * mb))
      ∷ ("DYNAMIC-8M-BUZHASH", buz_hash32 (8 * mb))
      ∷ ("DYNAMIC-128K-RABINKARP", rabin_karp64 (128 * kb))
      ∷ ("DYNAMIC-256K-RABINKARP", rabin_karp64 (256 * kb))
      ∷ ("DYNAMIC-512K-RABINKARP", rabin_karp64 (512 * kb))
      ∷ ("DYNAMIC-1M-RABINKARP", rabin_karp64 mb)
      ∷ ("DYNAMIC-2M-RABINKARP", rabin_karp64 (2 * mb))
      ∷ ("DYNAMIC-4M-RABINKARP", rabin_karp64 (4 * mb))
      ∷ ("DYNAMIC-8M-RABINKARP", rabin_karp64 (8 * mb))
      ∷ ("FIXED", fixed (4 * mb))
      ∷ ("DYNAMIC", buz_hash32 (4 * mb))
      ∷ []

find_factory : List (String × Factory) → String → Option Factory
find_factory [] name = none
find_factory ((n, f) ∷ fs) name = if n == name then some f else find_factory fs name

module _ (buz rabin : RollingHash) where
  -- GetFactory(name)
  unfoldable pub get_factory : String → Option Factory
  unfolding find_factory
  get_factory name = find_factory (splitter_factories buz rabin) name
