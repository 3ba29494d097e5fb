-- ===== src/Correlation/Handler/Laws.antt =====
-- What the next handler receives.
use gklog.Base.{
  List, [], ◌∷◌, ◌++◌, Bool, true, not, ◌&&◌, ◌||◌, ◌≡◌, refl, sym, ap, arith, if◌then◌else◌,
  is_empty, all, append_assoc, append-nil, map-append,
}
use gklog.Text.{Bytes, same_iff}
use gklog.Text.Keys.{has, distinct, apart, has-append, distinct-append}
use gklog.Slog.{Attr, keys, Record, add_attrs}
use gklog.Correlation.Context.{Context}
use gklog.Correlation.Attrs.{attrs_of}
use gklog.Correlation.Attrs.Laws.{attrs_of-distinct}
use gklog.Correlation.Attrs.Plain.{is_plain, kept-of_plain, attrs_of-plain}
use gklog.Correlation.Handler.{SlogHandler, attr_key_set, missing_from, enhance}

module _ (existing : List Bytes) where
  missing_from-plain :
      (attrs : List Attr)
      → all is_plain attrs ≡ true
      → all is_plain (missing_from existing attrs) ≡ true
  unfolding missing_from
  missing_from-plain [] h = refl
  missing_from-plain (a ∷ attrs) h = ground (arith, missing_from-plain attrs)

  pub has-missing_from :
      (k : Bytes) (attrs : List Attr)
      → has k (keys (missing_from existing attrs)) ≡ (has k (keys attrs) && not (has k existing))
  unfolding missing_from
  has-missing_from k [] = refl
  has-missing_from k (a ∷ attrs) = ground (arith, has-missing_from k attrs, same_iff a.key k)

  missing_from-apart :
      (attrs : List Attr) → apart existing (keys (missing_from existing attrs)) ≡ true
  unfolding missing_from
  missing_from-apart [] = refl
  missing_from-apart (a ∷ attrs) = ground (arith, missing_from-apart attrs)

  missing_from-distinct :
      (attrs : List Attr)
      → distinct (keys attrs) ≡ true
      → distinct (keys (missing_from existing attrs)) ≡ true
  unfolding missing_from
  missing_from-distinct [] h = refl
  missing_from-distinct (a ∷ attrs) h =
      ground (arith, missing_from-distinct attrs, has-missing_from a.key attrs)

add_or_keep :
    (r : Record) (attrs : List Attr)
    → all is_plain attrs ≡ true
    → (if not (is_empty attrs) then add_attrs r attrs else r)
      ≡ record r { attrs = r.attrs ++ attrs }
unfolding add_attrs
add_or_keep r [] h = ap (λ t. record r { attrs = t }) (sym (append-nil r.attrs))
add_or_keep r (a ∷ attrs) h =
    ap (λ t. record r { attrs = r.attrs ++ t }) (kept-of_plain (a ∷ attrs) h)

and_true : (b : Bool) → (b && true && true) ≡ b
and_true b = ground arith

or_both : (a b : Bool) → (a || (b && not a)) ≡ (a || b)
or_both a b = ground arith

-- The handed-on record: everything of the source record, and the missing attributes behind its own.
pub record Completes {H : Type 0} (h : SlogHandler H) (c : Context) (r e : Record) : Type 0 where
  pub time : e.time ≡ r.time
  pub level : e.level ≡ r.level
  pub message : e.message ≡ r.message
  pub pc : e.pc ≡ r.pc
  pub added : List Attr
  pub behind : e.attrs ≡ r.attrs ++ added
  -- Each key of the correlation is on the record or on the handler, and no other key is new.
  pub all_there :
      (k : Bytes)
      → has k (keys h.attrs ++ keys e.attrs)
        ≡ (has k (keys h.attrs ++ keys r.attrs) || has k (keys (attrs_of c)))
  -- A key is repeated only if it was repeated before.
  pub once : distinct (keys h.attrs ++ keys e.attrs) ≡ distinct (keys h.attrs ++ keys r.attrs)

module _ {H : Type 0} (h : SlogHandler H) (c : Context) (r : Record) where
  pub missing : List Attr
  unfolding attr_key_set
  missing = missing_from (attr_key_set h r) (attrs_of c)

  pub enhance-missing : enhance h c r ≡ record r { attrs = r.attrs ++ missing }
  unfolding enhance missing
  enhance-missing = add_or_keep r missing (missing_from-plain _ (attrs_of c) (attrs_of-plain c))

  keys_behind :
      keys h.attrs ++ keys (r.attrs ++ missing) ≡ (keys h.attrs ++ keys r.attrs) ++ keys missing
  keys_behind = rw (map-append, append_assoc)

  pub has-missing :
      (k : Bytes)
      → has k (keys missing)
        ≡ (has k (keys (attrs_of c)) && not (has k (keys h.attrs ++ keys r.attrs)))
  unfolding missing
  has-missing k = has-missing_from (keys h.attrs ++ keys r.attrs) k (attrs_of c)

  missing-once :
      distinct ((keys h.attrs ++ keys r.attrs) ++ keys missing)
      ≡ distinct (keys h.attrs ++ keys r.attrs)
  unfolding missing
  missing-once =
      rw
        (
          distinct-append (keys h.attrs ++ keys r.attrs),
          missing_from-distinct (keys h.attrs ++ keys r.attrs) (attrs_of c) (attrs_of-distinct c),
          missing_from-apart (keys h.attrs ++ keys r.attrs) (attrs_of c),
        )
        (and_true _)

  -- The record that is handed on keeps all that the source record has, with attributes added behind;
  -- together with the attributes of the handler it has the keys it had before and every key of the
  -- correlation, and no key is repeated unless one was repeated before.
  pub enhance-Completes : Completes h c r (enhance h c r)
  enhance-Completes = rw enhance-missing (record {
    time = refl;
    level = refl;
    message = refl;
    pc = refl;
    added = missing;
    behind = refl;
    all_there = λ k.
        rw (keys_behind, has-append k (keys h.attrs ++ keys r.attrs) (keys missing), has-missing k)
          (or_both (has k (keys h.attrs ++ keys r.attrs)) (has k (keys (attrs_of c))));
    once = rw keys_behind missing-once;
  })

empty_list : {A : Type 0} (xs : List A) → is_empty xs ≡ true → xs ≡ []
empty_list [] h = refl
empty_list (x ∷ xs) h = cc

-- With no correlation the record is handed on as it came.
pub enhance-bare :
    {H : Type 0} (h : SlogHandler H) (c : Context) (r : Record)
    → is_empty (attrs_of c) ≡ true
    → enhance h c r ≡ r
unfolding enhance missing_from
enhance-bare h c r e = rw (empty_list (attrs_of c) e, enhance) refl
