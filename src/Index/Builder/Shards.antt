-- ===== src/Index/Builder/Shards.antt =====
-- shard of repo/content/index/index_builder.go. The hash of a text, fnv.New32a of hash/fnv, is a parameter.
use kopia.Prelude.{
  ℕ, zero, suc, ◌+◌, ◌-◌, ◌/◌, ◌%◌, ◌≤◌, ◌<◌, ◌≡◌, refl, ap, ◌∙◌, inl, inr, true, false, List, [],
  ◌∷◌, ◌==◌, ==_iff, leb, if◌then◌else◌, length, get_elem?, Option, none, some, ◌*◌, sym, arith,
  All, Bool-cases,
}
use kopia.Index.ContentId.{to_string}
use kopia.Index.Info.{Info}
use kopia.Index.Builder.Members.{Place, Place-All}

module _ (hash : List ℕ → ℕ) where
  -- the shard of a content
  abbrev pub shard_of : ℕ → Info → ℕ
  shard_of num_shards v = hash (to_string v.content_id) % num_shards

  -- the contents of one shard
  unfoldable pub in_shard : ℕ → ℕ → List Info → List Info
  in_shard num_shards n [] = []
  in_shard num_shards n (v ∷ vs) =
      let rest = in_shard num_shards n vs in if shard_of num_shards v == n then v ∷ rest else rest

  -- the shards from a number on that are not empty
  unfoldable pub non_empty_from : ℕ → ℕ → ℕ → List Info → List (List Info)
  unfolding in_shard
  non_empty_from num_shards n zero b = []
  non_empty_from num_shards n (suc count) b =
      let r = in_shard num_shards n b in
      let rest = non_empty_from num_shards (suc n) count b in
      if length r == 0 then rest else r ∷ rest

  abbrev pub shards_needed : List Info → ℕ → ℕ
  shards_needed b max_shard_size = (length b + max_shard_size - 1) / max_shard_size

  -- shard(maxShardSize); `none` is the panic of the division by 0
  unfoldable pub shard : List Info → ℕ → Option (List (List Info))
  unfolding non_empty_from
  shard b zero = none
  shard b (suc n) =
      let num_shards = shards_needed b (suc n) in
      some (
        if leb num_shards 1
        then (if length b == 0 then [] else b ∷ [])
        else non_empty_from num_shards 0 num_shards b)

  -- a shard that has a content
  abbrev pub Holds : List (List Info) → Info → Type 0
  Holds shards it = (j : ℕ) × (sh : List Info) × (get_elem? shards j ≡ some sh) × Place sh it

  in_shard-Place :
      (m n : ℕ) (it : Info) (vs : List Info)
      → shard_of m it ≡ n
      → Place vs it
      → Place (in_shard m n vs) it
  unfolding in_shard
  in_shard-Place m n it [] e p = p
  in_shard-Place m n it (v ∷ vs) e (zero, q) =
      let same : v ≡ it = cc in
      let here : (shard_of m v == n) ≡ true =
        (==_iff (shard_of m v) n).1 (ap (shard_of m) same ∙ e) in
      rw here (0, q)
  in_shard-Place m n it (v ∷ vs) e (suc i, q) = elim (Bool-cases (shard_of m v == n)) [
    | inl h ↦ let (j, f) = in_shard-Place m n it vs e (i, q) in rw h (suc j, f)
    | inr h ↦ rw h (in_shard-Place m n it vs e (i, q))
  ]

  not_empty : (vs : List Info) (it : Info) → Place vs it → (length vs == 0) ≡ false
  not_empty [] it (i, e) = absurd (ground (arith, e))
  not_empty (v ∷ vs) it p = ground arith

  Holds-cons :
      (sh : List Info) (shards : List (List Info)) (it : Info)
      → Holds shards it
      → Holds (sh ∷ shards) it
  Holds-cons sh shards it (j, x, e, p) = (suc j, x, e, p)

  non_empty_from-Holds :
      (m n count : ℕ) (b : List Info) (it : Info)
      → n ≤ shard_of m it
      → shard_of m it < n + count
      → Place b it
      → Holds (non_empty_from m n count b) it
  unfolding non_empty_from
  non_empty_from-Holds m n zero b it lo hi p = absurd (omega (arith, lo, hi))
  non_empty_from-Holds m n (suc count) b it lo hi p = elim (Bool-cases (shard_of m it == n)) [
    | inl e ↦
        let here = in_shard-Place m n it b (ground (arith, e)) p in
        rw (not_empty (in_shard m n b) it here) (0, in_shard m n b, refl, here)
    | inr e ↦
        let later =
          non_empty_from-Holds m (suc n) count b it (ground (arith, e, lo)) (omega (arith, hi)) p in
        elim (Bool-cases (length (in_shard m n b) == 0)) [
          | inl z ↦ rw z later
          | inr z ↦ rw z (Holds-cons (in_shard m n b) (non_empty_from m (suc n) count b) it later)
        ]
  ]

  -- all are contents of the builder, with the hash that has this remainder
  abbrev IsPart : ℕ → List Info → ℕ → List Info → Type 0
  IsPart m b n sh = All (λ v. Place b v × (shard_of m v ≡ n)) sh

  -- A shard is not empty, and its contents are contents of the builder with hashes of one remainder.
  abbrev pub IsShard : ℕ → List Info → List Info → Type 0
  IsShard m b sh = (0 < length sh) × (n : ℕ) × All (λ v. Place b v × (shard_of m v ≡ n)) sh

  in_shard-IsPart : (m n : ℕ) (b vs : List Info) → All (Place b) vs → IsPart m b n (in_shard m n vs)
  unfolding in_shard
  in_shard-IsPart m n b [] a = tt
  in_shard-IsPart m n b (v ∷ vs) a = elim (Bool-cases (shard_of m v == n)) [
    | inl e ↦ rw e ((a.0, ground (arith, e)), in_shard-IsPart m n b vs a.1)
    | inr e ↦ rw e (in_shard-IsPart m n b vs a.1)
  ]

  non_empty_from-IsShard :
      (m n count : ℕ) (b : List Info)
      → All (IsShard m b) (non_empty_from m n count b)
        × (length (non_empty_from m n count b) ≤ count)
  unfolding non_empty_from
  non_empty_from-IsShard m n zero b = (tt, omega arith)
  non_empty_from-IsShard m n (suc count) b =
      let rest = non_empty_from-IsShard m (suc n) count b in
      elim (Bool-cases (length (in_shard m n b) == 0)) [
        | inl z ↦ rw z (rest.0, omega (arith, rest.1))
        | inr z ↦ rw z (
          (
            (ground (arith, z), n, in_shard-IsPart m n b b (Place-All (Place b) b (λ it p. p))),
            rest.0,
          ),
          omega (arith, rest.1),
        )
      ]

  -- the number of all contents
  abbrev pub total : List (List Info) → ℕ
  total [] = 0
  total (sh ∷ shards) = length sh + total shards

  -- the number of contents whose shard is one of those from a number on
  abbrev from_on : ℕ → ℕ → List Info → ℕ
  from_on m n [] = 0
  from_on m n (v ∷ vs) = (if leb n (shard_of m v) then 1 else 0) + from_on m n vs

  from_on-suc :
      (m n : ℕ) (vs : List Info) → from_on m n vs ≡ length (in_shard m n vs) + from_on m (suc n) vs
  unfolding in_shard
  from_on-suc m n [] = omega arith
  from_on-suc m n (v ∷ vs) = ground (arith, from_on-suc m n vs)

  from_on-all : (m : ℕ) (vs : List Info) → from_on m 0 vs ≡ length vs
  from_on-all m [] = refl
  from_on-all m (v ∷ vs) = ground (arith, from_on-all m vs)

  remainder_lt : (m h : ℕ) → 0 < m → h % m < m
  remainder_lt m h pos = omega (arith, pos)

  from_on-none : (m : ℕ) (vs : List Info) → 0 < m → from_on m m vs ≡ 0
  from_on-none m [] pos = refl
  from_on-none m (v ∷ vs) pos =
      ground (arith, from_on-none m vs pos, remainder_lt m (hash (to_string v.content_id)) pos)

  non_empty_from-total :
      (m n count : ℕ) (b : List Info)
      → 0 < m
      → n + count ≡ m
      → total (non_empty_from m n count b) ≡ from_on m n b
  unfolding non_empty_from
  non_empty_from-total m n zero b pos e =
      let same : n ≡ m = omega (arith, e) in rw same (sym (from_on-none m b pos))
  non_empty_from-total m n (suc count) b pos e =
      ground
        (arith, non_empty_from-total m (suc n) count b pos (omega (arith, e)), from_on-suc m n b)

  -- The contents of a builder in shards, for a size: as many shards are provided for as the size needs, not
  -- more are given, each content is in a shard, and the shards have as many contents as the builder.
  pub record IsSharded (b : List Info) (size : ℕ) (shards : List (List Info)) : Type 0 where
    pub num_shards : ℕ
    pub enough : length b ≤ num_shards * size
    pub needed : num_shards * size < length b + size
    pub few : length shards ≤ num_shards
    pub parts : All (IsShard num_shards b) shards
    pub holds : (it : Info) → Place b it → Holds shards it
    pub once : total shards ≡ length b

  divides :
      (l n : ℕ)
      → (l ≤ (l + suc n - 1) / suc n * suc n) × ((l + suc n - 1) / suc n * suc n < l + suc n)
  divides l n = (omega arith, omega arith)

  positive : (q l n : ℕ) → q ≤ 1 → l ≤ q * suc n → 0 < l → q ≡ 1
  positive zero l n few size pos = absurd (omega (arith, size, pos))
  positive (suc q) l n few size pos = omega (arith, few)

  same_remainder : (m : ℕ) (b vs : List Info) → m ≡ 1 → All (Place b) vs → IsPart m b 0 vs
  same_remainder m b [] e a = tt
  same_remainder m b (v ∷ vs) e a = ((a.0, rw e (omega arith)), same_remainder m b vs e a.1)

  in_one :
      (b : List Info) (n : ℕ)
      → leb (shards_needed b (suc n)) 1 ≡ true
      → IsSharded b (suc n) (if length b == 0 then [] else b ∷ [])
  in_one b n e =
      let m = shards_needed b (suc n) in
      let size = divides (length b) n in
      elim (Bool-cases (length b == 0)) [
        | inl z ↦
            let empty : length b ≡ 0 = ground (arith, z) in
            rw z (record {
              num_shards = m;
              enough = size.0;
              needed = size.1;
              few = omega arith;
              parts = tt;
              holds = λ it p. absurd (ground (arith, z, not_empty b it p));
              once = sym empty;
            })
        | inr z ↦
            let one : m ≡ 1 = one_needed (length b) n (ground (arith, z)) e in
            rw z (record {
              num_shards = m;
              enough = size.0;
              needed = size.1;
              few = omega (arith, one);
              parts = (
                (
                  ground (arith, z),
                  0,
                  same_remainder m b b one (Place-All (Place b) b (λ it p. p)),
                ),
                tt,
              );
              holds = λ it p. (0, b, refl, p);
              once = omega arith;
            })
      ]
    where
      one_needed :
          (l n : ℕ) → 0 < l → leb ((l + suc n - 1) / suc n) 1 ≡ true → (l + suc n - 1) / suc n ≡ 1
      one_needed l n pos e =
          positive ((l + suc n - 1) / suc n) l n (ground (arith, e)) (divides l n).0 pos

  -- For a size that is not 0, shard gives the contents of a builder in shards: with the number of shards that
  -- the size needs (the contents by the size, rounded up), there are at most as many shards; none is empty;
  -- all contents of one are contents of the builder whose hashes have the same remainder by that number;
  -- each content of the builder is in a shard, and the shards have as many contents together as the builder.
  pub shard-IsSharded :
      (b : List Info) (size : ℕ)
      → 0 < size
      → (shards : List (List Info)) × (shard b size ≡ some shards) × IsSharded b size shards
  unfolding shard
  shard-IsSharded b zero pos = absurd (omega (arith, pos))
  shard-IsSharded b (suc n) pos =
      let m = shards_needed b (suc n) in
      let size = divides (length b) n in
      elim (Bool-cases (leb m 1)) [
        | inl e ↦ rw e ((if length b == 0 then [] else b ∷ []), refl, in_one b n e)
        | inr e ↦
            let more : 1 < m = ground (arith, e) in
            let shards = non_empty_from m 0 m b in
            let found = non_empty_from-IsShard m 0 m b in
            rw e (
              shards,
              refl,
              record {
                num_shards = m;
                enough = size.0;
                needed = size.1;
                few = found.1;
                parts = found.0;
                holds = λ it p.
                    non_empty_from-Holds m 0 m b it (omega arith)
                      (omega (
                        arith,
                        remainder_lt m (hash (to_string it.content_id)) (omega (arith, more)),
                      ))
                      p;
                once =
                    non_empty_from-total m 0 m b (omega (arith, more)) (omega arith)
                    ∙ from_on-all m b;
              },
            )
      ]
