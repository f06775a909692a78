-- ===== src/Sequence.antt =====
-- `Sequence`, `BoundedSequence` and `SequenceIterator` of rosidl_runtime_rs/src/sequence.rs. The
-- memory of a sequence is the list of its `size` elements; `capacity` is the allocator's business.
pub mod Copying
pub mod Extension
pub mod Bounded
pub mod Iteration
use ros2_rust.Prelude.{
  ℕ, zero, suc, ◌+◌, ◌-◌, ◌*◌, ◌^◌, ◌≤◌, ◌<◌, ◌≡◌, min, Bool, true, false, Option, none, some, List,
  [], ◌∷◌, length, get_elem?, set, take, Outcome, returns, fails, panics, Result, ok, err, ◌>>=◌,
  unwrap, ltb, leb, ◌==◌, if◌then◌else◌,
}

-- The trait `SequenceAlloc`, whose functions are C code: `init n` makes `n` elements, or fails, and
-- `zero` is the element with all bytes zero.
pub record SequenceAlloc (T : Type 0) : Type 0 where
  pub zero : T
  pub init : ℕ → Option (List T)
  pub sized : (n : ℕ) (l : List T) → init n ≡ some l → length l ≡ n

pub record Sequence (T : Type 0) : Type 0 where
  pub elements : List T

pub record SequenceIterator (T : Type 0) : Type 0 where
  pub seq : Sequence T
  pub idx : ℕ

abbrev pub usize_max : ℕ
usize_max = 18446744073709551615

abbrev pub size : {T : Type 0} → Sequence T → ℕ
size s = length s.elements

-- `usize::next_power_of_two`, which panics where the power exceeds `usize::MAX`.
power_from : ℕ → ℕ → ℕ → Outcome ⊥ ℕ
power_from zero p n = panics
power_from (suc f) p n = let rest = power_from f (p * 2) n in if leb n p then returns p else rest

unfoldable pub next_power_of_two : ℕ → Outcome ⊥ ℕ
unfolding power_from
next_power_of_two n = power_from 64 1 n

-- `usize::saturating_add`
abbrev pub saturating_add : ℕ → ℕ → ℕ
saturating_add a b = min (a + b) usize_max

module _ {T : Type 0} ⦃a : SequenceAlloc T⦄ where
  -- `Sequence::new`
  unfoldable pub new : ℕ → Outcome ⊥ (Sequence T)
  new len = do l ← unwrap (a.init len); returns (record { elements = l })

  -- `SequenceIterator::next`: at an index that is not below the size there is nothing to read; else the
  -- element is moved out, and zeros are left in its place
  unfoldable pub next : SequenceIterator T → Option (T × SequenceIterator T)
  next it = elim (get_elem? it.seq.elements it.idx) [
    | none ↦ none
    | some elem ↦ some (
      elem,
      record { seq = record { elements = set it.seq.elements it.idx a.zero }; idx = it.idx + 1 },
    )
  ]

-- `seq[i] = elem`
abbrev pub put_at : {T : Type 0} → Sequence T → ℕ → T → Outcome ⊥ (Sequence T)
put_at s i x = if ltb i (size s) then returns (record { elements = set s.elements i x }) else panics

abbrev pub into_iter : {T : Type 0} → Sequence T → SequenceIterator T
into_iter s = record { seq = s; idx = 0 }

-- `SequenceIterator::size_hint` and `ExactSizeIterator::len`
unfoldable pub size_hint : {T : Type 0} → SequenceIterator T → ℕ
size_hint it = size it.seq + 1 - it.idx

module _ {T : Type 0} ⦃a : SequenceAlloc T⦄ where
  -- `for (i, elem) in old_seq.into_iter().enumerate().take(n) { seq[i] = elem; }` from index `i` on
  unfoldable pub copy_into : ℕ → SequenceIterator T → ℕ → Sequence T → Outcome ⊥ (Sequence T)
  unfolding next
  copy_into zero it i s = returns s
  copy_into (suc n) it i s = elim (next it) [
    | none ↦ returns s
    | some step ↦ do s' ← put_at s i step.0; copy_into n step.1 (i + 1) s'
  ]

  -- the closure `resize`
  unfoldable pub resize : Sequence T → ℕ → Outcome ⊥ (Sequence T)
  unfolding new copy_into
  resize s new_size = do fresh ← new new_size; copy_into new_size (into_iter s) 0 fresh

  -- `if cur_idx == self.size { .. resize .. }`
  unfoldable pub make_room : Sequence T → ℕ → Outcome ⊥ (Sequence T)
  unfolding resize next_power_of_two
  make_room s cur =
      if cur == size s then (do n ← next_power_of_two (size s + 1); resize s n) else returns s

  -- the loop over the items
  unfoldable pub push_all : List T → Sequence T → ℕ → Outcome ⊥ (Sequence T × ℕ)
  unfolding make_room
  push_all [] s cur = returns (s, cur)
  push_all (x ∷ xs) s cur = do
    s' ← make_room s cur
    s'' ← put_at s' cur x
    push_all xs s'' (cur + 1)

  -- `Extend::extend`, for an iterator that yields `items` and whose `size_hint().0` is `hint`
  unfoldable pub extend : ℕ → List T → Sequence T → Outcome ⊥ (Sequence T)
  unfolding push_all resize
  extend hint items s = do
    roomy ← if ltb 0 hint then resize s (saturating_add (size s) hint) else returns s
    filled ← push_all items roomy (size s)
    if ltb filled.1 (size filled.0) then resize filled.0 filled.1 else returns filled.0

  -- `FromIterator` and `From<Vec<T>>`, whose iterator knows its length
  unfoldable pub from_iter : ℕ → List T → Outcome ⊥ (Sequence T)
  unfolding new extend
  from_iter hint items = do s ← new 0; extend hint items s

  unfoldable pub from_vec : List T → Outcome ⊥ (Sequence T)
  unfolding from_iter
  from_vec v = from_iter (length v) v
