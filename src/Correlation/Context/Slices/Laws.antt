-- ===== src/Correlation/Context/Slices/Laws.antt =====
-- What Child over shared memory builds, and that parent and child do not see each other's assignments.
use gklog.Base.{
  ℕ, zero, suc, ◌<◌, List, [], ◌∷◌, ◌++◌, false, ◌≡◌, ◌≢◌, refl, sym, ap, ◌∙◌, arith, is_empty,
  length, take, ltb, Bool-cases, inl, inr,
}
use gklog.Correlation.Ident.{Draw, new_span_id}
use gklog.Correlation.Context.{IdentityAttribute, Context, child_parent, child_trace, child}
use gklog.Correlation.Context.Slices.{
  Memory, Slice, SharedContext, Fits, array_at, read, put_at, write, write_all, view, copy_slice,
  child_shared,
}

array_at-old :
    (memory : Memory) (items : List IdentityAttribute) (a : ℕ)
    → a < length memory
    → array_at (memory ++ items ∷ []) a ≡ array_at memory a
unfolding array_at
array_at-old [] items a h = absurd (omega arith)
array_at-old (x ∷ memory) items zero h = refl
array_at-old (x ∷ memory) items (suc a) h = array_at-old memory items a (omega arith)

array_at-new :
    (memory : Memory) (items : List IdentityAttribute)
    → array_at (memory ++ items ∷ []) (length memory) ≡ items
unfolding array_at
array_at-new [] items = refl
array_at-new (x ∷ memory) items = array_at-new memory items

array_at-put_at :
    (memory : Memory) (a b i : ℕ) (v : IdentityAttribute)
    → a ≢ b
    → array_at (put_at memory b i v) a ≡ array_at memory a
unfolding array_at put_at
array_at-put_at [] a b i v h = refl
array_at-put_at (x ∷ memory) zero zero i v h = absurd (h refl)
array_at-put_at (x ∷ memory) zero (suc b) i v h = refl
array_at-put_at (x ∷ memory) (suc a) zero i v h = refl
array_at-put_at (x ∷ memory) (suc a) (suc b) i v h = array_at-put_at memory a b i v (omega arith)

-- Writes through one slice are not seen in another array.
array_at-write :
    (memory : Memory) (s : Slice) (i : ℕ) (v : IdentityAttribute) (a : ℕ)
    → a ≢ s.array
    → array_at (write memory s i v) a ≡ array_at memory a
unfolding write
array_at-write memory s i v a h = elim (Bool-cases (ltb i s.len)) [
  | inl e ↦ rw e (array_at-put_at memory a s.array i v h)
  | inr e ↦ rw e refl
]

array_at-write_all :
    (memory : Memory) (s : Slice) (writes : List (ℕ × IdentityAttribute)) (a : ℕ)
    → a ≢ s.array
    → array_at (write_all memory s writes) a ≡ array_at memory a
unfolding write_all
array_at-write_all memory s [] a h = refl
array_at-write_all memory s ((i, v) ∷ writes) a h =
    array_at-write_all (write memory s i v) s writes a h ∙ array_at-write memory s i v a h

read-write_all :
    (memory : Memory) (s t : Slice) (writes : List (ℕ × IdentityAttribute))
    → t.array ≢ s.array
    → read (write_all memory s writes) t ≡ read memory t
unfolding read
read-write_all memory s t writes h =
    ap (λ x. take t.len x) (array_at-write_all memory s writes t.array h)

read-empty : (memory : Memory) (s : Slice) → ltb 0 s.len ≡ false → read memory s ≡ []
unfolding read
read-empty memory s e = let z : s.len ≡ 0 = ground arith in rw z refl

take-take : (n : ℕ) (xs : List IdentityAttribute) → take n (take n xs) ≡ take n xs
take-take zero xs = refl
take-take (suc n) [] = refl
take-take (suc n) (x ∷ xs) = ap (λ t. x ∷ t) (take-take n xs)

array_in_range : (memory : Memory) (a : ℕ) → 0 < length (array_at memory a) → a < length memory
unfolding array_at
array_in_range [] a h = absurd (omega arith)
array_in_range (x ∷ memory) zero h = omega arith
array_in_range (x ∷ memory) (suc a) h = omega (arith, array_in_range memory a h)

-- What copying a slice promises: both slices hold what the first one held, and go on to do so
-- whatever is written through the other.
record Copies (memory : Memory) (s : Slice) (copied : Slice × Memory) : Type 0 where
  same : read copied.1 copied.0 ≡ read memory s
  old_kept :
      (writes : List (ℕ × IdentityAttribute))
      → read (write_all copied.1 copied.0 writes) s ≡ read memory s
  new_kept :
      (writes : List (ℕ × IdentityAttribute))
      → read (write_all copied.1 s writes) copied.0 ≡ read memory s

module _ (memory : Memory) (s : Slice) where
  empty-Copies : ltb 0 s.len ≡ false → Copies memory s (s, memory)
  empty-Copies e = record {
    same = refl;
    old_kept = λ writes. read-empty _ s e ∙ sym (read-empty memory s e);
    new_kept = λ writes. read-empty _ s e ∙ sym (read-empty memory s e);
  }

  fresh : Slice
  fresh = record { array = length memory; len = s.len }

  read-fresh : read (memory ++ read memory s ∷ []) fresh ≡ read memory s
  unfolding read fresh
  read-fresh =
      ap (λ x. take s.len x) (array_at-new memory (take s.len (array_at memory s.array)))
      ∙ take-take s.len (array_at memory s.array)

  read-old : s.array < length memory → read (memory ++ read memory s ∷ []) s ≡ read memory s
  unfolding read
  read-old h = ap (λ x. take s.len x) (array_at-old memory _ s.array h)

  fresh-Copies : s.array < length memory → Copies memory s (fresh, memory ++ read memory s ∷ [])
  unfolding fresh
  fresh-Copies h = record {
    same = unfold fresh in read-fresh;
    old_kept = λ writes. read-write_all _ fresh s writes (omega arith) ∙ read-old h;
    new_kept = λ writes. read-write_all _ s fresh writes (omega arith) ∙ read-fresh;
  }

  copy_slice-Copies : Fits memory s → Copies memory s (copy_slice memory s)
  unfolding copy_slice fresh
  copy_slice-Copies fits = elim (Bool-cases (ltb 0 s.len)) [
    | inl e ↦
        let positive : 0 < s.len = ground arith in
        let inside = array_in_range memory s.array (omega arith) in rw e (fresh-Copies inside)
    | inr e ↦ rw e (empty-Copies e)
  ]

-- What Child does to the identifiers does not depend on the attributes.
abbrev with_items : Context → List IdentityAttribute → Context
with_items c items = record c { identity_attributes = items }

child_trace-with_items :
    (draw : Draw) (c : Context) (items : List IdentityAttribute) (k : ℕ)
    → child_trace draw (with_items c items) k
      ≡ (with_items (child_trace draw c k).0 items, (child_trace draw c k).1)
unfolding child_trace
child_trace-with_items draw c items k = elim (Bool-cases (is_empty c.trace_id)) [
  | inl e ↦ rw e refl
  | inr e ↦ rw e refl
]

child_parent-with_items :
    (c : Context) (items : List IdentityAttribute)
    → child_parent (with_items c items) ≡ with_items (child_parent c) items
unfolding child_parent
child_parent-with_items c items = elim (Bool-cases (is_empty c.span_id)) [
  | inl e ↦ rw e refl
  | inr e ↦ rw e refl
]

child-with_items :
    (draw : Draw) (c : Context) (items : List IdentityAttribute) (k : ℕ)
    → child draw (with_items c items) k ≡ (with_items (child draw c k).0 items, (child draw c k).1)
unfolding child
child-with_items draw c items k =
    ap
      (λ (st : Context × ℕ). (
        record (child_parent st.0) { span_id = (new_span_id draw st.1).0 },
        (new_span_id draw st.1).1,
      ))
      (child_trace-with_items draw c items k)
    ∙ ap
        (λ (p : Context). (
          record p { span_id = (new_span_id draw (child_trace draw c k).1).0 },
          (new_span_id draw (child_trace draw c k).1).1,
        ))
        (child_parent-with_items (child_trace draw c k).0 items)

-- Child over shared memory builds the value that Child builds, and the child's identity attributes
-- are its own: whatever is assigned through the child's slice, the parent reads as before, and
-- whatever is assigned through the parent's, the child does.
pub child_shared-isolated :
    (draw : Draw) (c : SharedContext) (k : ℕ) (memory : Memory)
    (writes : List (ℕ × IdentityAttribute))
    → Fits memory c.attrs
    → let ((c', memory'), k') = child_shared draw c k memory in
      let pure = child draw (view memory c) k in
      (view memory' c' ≡ pure.0)
      × (k' ≡ pure.1)
      × (view (write_all memory' c'.attrs writes) c ≡ view memory c)
      × (view (write_all memory' c.attrs writes) c' ≡ pure.0)
unfolding child_shared
child_shared-isolated draw c k memory writes fits =
    let copies = copy_slice-Copies memory c.attrs fits in
    let built = child-with_items draw c.ids (read memory c.attrs) k in
    let with_child = λ (items : List IdentityAttribute). with_items (child draw c.ids k).0 items in
    (
      ap with_child copies.same ∙ sym (ap (λ st. st.0) built),
      sym (ap (λ st. st.1) built),
      ap (λ items. with_items c.ids items) (copies.old_kept writes),
      ap with_child (copies.new_kept writes) ∙ sym (ap (λ st. st.0) built),
    )
