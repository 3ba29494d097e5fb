-- ===== src/Correlation/Context/Slices.antt =====
-- correlation/correlation.go: Child over shared memory. The identity attributes of a Context are a
-- slice, so two values of type Context can share a backing array; Child copies the slice.
pub mod Laws
use gklog.Base.{
  ℕ, zero, suc, ◌≤◌, ◌<◌, List, [], ◌∷◌, ◌++◌, false, ◌≡◌, ◌≢◌, refl, sym, ap, ◌∙◌, arith,
  if◌then◌else◌, is_empty, length, take, ltb, Bool-cases, inl, inr,
}
use gklog.Correlation.Ident.{Draw, new_span_id}
use gklog.Correlation.Context.{IdentityAttribute, Context, child_parent, child_trace, child}

-- The backing arrays that were allocated, each at its address.
abbrev pub Memory : Type 0
Memory = List (List IdentityAttribute)

-- A slice from the start of an array; a nil slice is one of length 0.
pub record Slice : Type 0 where
  pub array : ℕ
  pub len : ℕ

unfoldable pub array_at : Memory → ℕ → List IdentityAttribute
array_at [] a = []
array_at (items ∷ memory) zero = items
array_at (items ∷ memory) (suc a) = array_at memory a

pub read : Memory → Slice → List IdentityAttribute
unfolding array_at
read memory s = take s.len (array_at memory s.array)

-- `items[i] = v`
put : List IdentityAttribute → ℕ → IdentityAttribute → List IdentityAttribute
put [] i v = []
put (x ∷ items) zero v = v ∷ items
put (x ∷ items) (suc i) v = x ∷ put items i v

put_at : Memory → (a i : ℕ) → IdentityAttribute → Memory
put_at [] a i v = []
put_at (items ∷ memory) zero i v = put items i v ∷ memory
put_at (items ∷ memory) (suc a) i v = items ∷ put_at memory a i v

-- An assignment through a slice; out of range it panics and writes nothing.
write : Memory → Slice → ℕ → IdentityAttribute → Memory
unfolding put_at
write memory s i v = if ltb i s.len then put_at memory s.array i v else memory

pub write_all : Memory → Slice → List (ℕ × IdentityAttribute) → Memory
unfolding write
write_all memory s [] = memory
write_all memory s ((i, v) ∷ writes) = write_all (write memory s i v) s writes

-- A Context whose identity attributes are the slice.
pub record SharedContext : Type 0 where
  pub ids : Context
  pub attrs : Slice

abbrev pub view : Memory → SharedContext → Context
view memory c = record c.ids { identity_attributes = read memory c.attrs }

-- `if len(c.IdentityAttributes) > 0 { make, copy }`
pub copy_slice : Memory → Slice → Slice × Memory
unfolding read
copy_slice memory s =
    if ltb 0 s.len
    then (record { array = length memory; len = s.len }, memory ++ read memory s ∷ [])
    else (s, memory)

pub child_shared : Draw → SharedContext → ℕ → Memory → (SharedContext × Memory) × ℕ
unfolding copy_slice
child_shared draw c k memory =
    let (ids, k') = child draw c.ids k in
    let (s, memory') = copy_slice memory c.attrs in ((record { ids = ids; attrs = s }, memory'), k')

-- A slice is no longer than its array.
abbrev pub Fits : Memory → Slice → Type 0
Fits memory s = s.len ≤ length (array_at memory s.array)
