-- ===== src/TextHandler/Laws.antt =====
-- What a handler writes that any chain of WithAttrs and WithGroup made: every attribute stands under
-- the groups that were open when it was bound.
use gklog.Base.{
  ℕ, List, [], ◌∷◌, ◌++◌, true, not, ◌≡◌, refl, sym, ap, ◌∙◌, if◌then◌else◌, is_empty, append_assoc,
  append-nil, all-append,
}
use gklog.Text.{Bytes, codes}
use gklog.Slog.Steps.{Step, bind, enter}
use gklog.Slog.{Attr, Record, level_string}
use gklog.TextHandler.{
  TextHandler, new_text_handler, write_attrs, wrap_groups, group_prefix, with_attrs, with_group,
  line_of,
}
use gklog.TextHandler.Fields.{
  opened, own_fields, fields, write_attrs-append, nest, write_attrs-wrap_groups, nest-append,
  all_named, group_prefix-nest,
}

unfoldable pub derive : TextHandler → Step → TextHandler
derive h (bind attrs) = with_attrs h attrs
derive h (enter name) = with_group h name

unfoldable pub derive_all : TextHandler → List Step → TextHandler
derive_all h [] = h
derive_all h (s ∷ steps) = derive_all (derive h s) steps

-- The fields of a line: those bound to the handler, and those of the record.
fields_of : TextHandler → List Attr → Bytes
fields_of h attrs = write_attrs [] h.attrs ++ write_attrs (group_prefix h.groups) attrs

-- The front of a line, in which the handler's label is all that matters.
pub front_of : (ℕ → Bytes) → Bytes → Record → Bytes
front_of stamp label r =
    stamp r.time
    ++ (codes " "
        ++ ((if is_empty label then [] else label ++ codes " ")
            ++ (level_string r.level ++ (codes " " ++ r.message))))

-- What a step leaves a handler with: its groups named, its label, and what it writes in front.
record Follows (h : TextHandler) (s : Step) : Type 0 where
  label : (derive h s).label ≡ h.label
  named : all_named (derive h s).groups ≡ true
  written :
      write_attrs [] (derive h s).attrs ≡ write_attrs [] h.attrs ++ own_fields (nest [] h.groups) s
  now_open : nest [] (derive h s).groups ≡ opened (nest [] h.groups) s

derive-Follows : (h : TextHandler) (s : Step) → all_named h.groups ≡ true → Follows h s
unfolding derive
derive-Follows h (bind []) n = record {
  label = unfold with_attrs in refl;
  named = unfold with_attrs in n;
  written = unfold with_attrs write_attrs in sym (append-nil (write_attrs [] h.attrs));
  now_open = unfold with_attrs in refl;
}
derive-Follows h (bind (a ∷ attrs)) n = record {
  label = unfold with_attrs in refl;
  named = unfold with_attrs in n;
  written =
      unfold with_attrs in
      write_attrs-append [] h.attrs (wrap_groups h.groups (a ∷ attrs))
      ∙ ap (λ t. write_attrs [] h.attrs ++ t) (write_attrs-wrap_groups [] h.groups (a ∷ attrs));
  now_open = unfold with_attrs in refl;
}
derive-Follows h (enter []) n = record {
  label = unfold with_group in refl;
  named = unfold with_group in n;
  written = unfold with_group in sym (append-nil (write_attrs [] h.attrs));
  now_open = unfold with_group in refl;
}
derive-Follows h (enter (c ∷ name)) n = record {
  label = unfold with_group in refl;
  named =
      unfold with_group in
      all-append (λ g. not (is_empty g)) h.groups ((c ∷ name) ∷ []) ∙ rw n refl;
  written = unfold with_group in sym (append-nil (write_attrs [] h.attrs));
  now_open = unfold with_group in nest-append [] h.groups (c ∷ name);
}

-- What a chain of steps leaves to be written, from any handler whose groups are named.
derive_all-fields :
    (h : TextHandler) (steps : List Step) (attrs : List Attr)
    → all_named h.groups ≡ true
    → fields_of (derive_all h steps) attrs
      ≡ write_attrs [] h.attrs ++ fields (nest [] h.groups) steps attrs
unfolding fields_of derive_all fields write_attrs
derive_all-fields h [] attrs n =
    ap (λ p. write_attrs [] h.attrs ++ write_attrs p attrs) (group_prefix-nest h.groups n)
derive_all-fields h (s ∷ steps) attrs n =
    let f = derive-Follows h s n in
    derive_all-fields (derive h s) steps attrs f.named
    ∙ ap (λ t. t ++ fields (nest [] (derive h s).groups) steps attrs) f.written
    ∙ ap (λ p. (write_attrs [] h.attrs ++ own_fields (nest [] h.groups) s) ++ fields p steps attrs)
        f.now_open
    ∙ append_assoc (write_attrs [] h.attrs) (own_fields (nest [] h.groups) s) _

derive_all-label :
    (h : TextHandler) (steps : List Step)
    → all_named h.groups ≡ true
    → (derive_all h steps).label ≡ h.label
unfolding derive_all
derive_all-label h [] n = refl
derive_all-label h (s ∷ steps) n =
    let f = derive-Follows h s n in derive_all-label (derive h s) steps f.named ∙ f.label

join_parts :
    (t l v m f g : Bytes)
    → t ++ (codes " " ++ (l ++ (v ++ (codes " " ++ (m ++ (f ++ (g ++ 10 ∷ [])))))))
      ≡ (t ++ (codes " " ++ (l ++ (v ++ (codes " " ++ m))))) ++ ((f ++ g) ++ 10 ∷ [])
join_parts t l v m f g = simp (append_assoc)

pub front_of-attrs :
    (stamp : ℕ → Bytes) (label : Bytes) (r : Record) (attrs : List Attr)
    → front_of stamp label (record r { attrs = attrs }) ≡ front_of stamp label r
unfolding front_of
front_of-attrs stamp label r attrs = refl

line_of-parts :
    (stamp : ℕ → Bytes) (h : TextHandler) (r : Record)
    → line_of stamp h r ≡ front_of stamp h.label r ++ (fields_of h r.attrs ++ 10 ∷ [])
unfolding line_of front_of fields_of
line_of-parts stamp h r =
    join_parts (stamp r.time) (if is_empty h.label then [] else h.label ++ codes " ")
      (level_string r.level) r.message (write_attrs [] h.attrs)
      (write_attrs (group_prefix h.groups) r.attrs)

new-all_named : (label : Bytes) → all_named (new_text_handler label).groups ≡ true
unfolding new_text_handler
new-all_named label = refl

new-label : (label : Bytes) → (new_text_handler label).label ≡ label
unfolding new_text_handler
new-label label = refl

new-fields :
    (label : Bytes) (steps : List Step) (attrs : List Attr)
    → write_attrs [] (new_text_handler label).attrs
        ++ fields (nest [] (new_text_handler label).groups) steps attrs
      ≡ fields [] steps attrs
unfolding new_text_handler write_attrs
new-fields label steps attrs = refl

-- A handler that any chain of WithAttrs and WithGroup made from a new one writes a line with the
-- time, the label if there is one, the level and the message, then the attributes of each WithAttrs
-- in the order of the calls, each with its key under the groups that were open when it was bound, and
-- last those of the record under all groups.
pub line_of-derive_all :
    (stamp : ℕ → Bytes) (label : Bytes) (steps : List Step) (r : Record)
    → line_of stamp (derive_all (new_text_handler label) steps) r
      ≡ front_of stamp label r ++ (fields [] steps r.attrs ++ 10 ∷ [])
line_of-derive_all stamp label steps r =
    let h = new_text_handler label in
    line_of-parts stamp (derive_all h steps) r
    ∙ ap (λ l. front_of stamp l r ++ (fields_of (derive_all h steps) r.attrs ++ 10 ∷ []))
        (derive_all-label h steps (new-all_named label) ∙ new-label label)
    ∙ ap (λ t. front_of stamp label r ++ (t ++ 10 ∷ []))
        (derive_all-fields h steps r.attrs (new-all_named label) ∙ new-fields label steps r.attrs)
