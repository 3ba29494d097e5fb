-- ===== src/Tee/Laws.antt =====
-- Every enabled child is given the record, whatever the children before it returned.
use gklog.Base.{
  List, [], ◌∷◌, ◌++◌, Option, none, some, true, false, not, ◌≡◌, refl, sym, ap, ◌∙◌, arith,
  if◌then◌else◌, is_empty, Bool-cases, inl, inr, append_assoc, append-nil,
}
use gklog.Errors.{Error, tee_child_error, of_list, to_list, unwrap}
use gklog.Slog.{Record, HandlerOps}
use gklog.Ctx.{Ctx}
use gklog.Tee.{TeeHandler, append_error, any_enabled, enabled, offer, offer_all, tee_result, handle}

-- No error, or the one that lists them all.
abbrev pub error_of : List Error → Option Error
error_of [] = none
error_of (e ∷ errs) = some (tee_child_error (of_list (e ∷ errs)))

module _ {H W : Type 0} (ops : HandlerOps H W) (ctx : Ctx) (r : Record) where
  -- The children that accept the level of the record.
  pub accepting : List H → List H
  accepting [] = []
  accepting (h ∷ children) =
      let rest = accepting children in if ops.enabled h ctx r.level then h ∷ rest else rest

  abbrev as_list : Option Error → List Error
  as_list none = []
  as_list (some e) = e ∷ []

  -- Handling by each child of a list in turn, each in the world that the one before it left.
  pub each : List H → W → List Error × W
  each [] w = ([], w)
  each (h ∷ children) w =
      let (e, w') = ops.handle h ctx r w in
      let (errs, w'') = each children w' in (as_list e ++ errs, w'')

  append_error-as_list :
      (errs : List Error) (e : Option Error) → append_error errs e ≡ errs ++ as_list e
  append_error-as_list errs none = sym (append-nil errs)
  append_error-as_list errs (some e) = refl

  offer-yes :
      (h : H) (errs : List Error) (w : W)
      → ops.enabled h ctx r.level ≡ true
      → offer ops ctx r h (errs, w)
        ≡ (errs ++ as_list (ops.handle h ctx r w).0, (ops.handle h ctx r w).1)
  unfolding offer
  offer-yes h errs w e =
      rw e (ap (λ x. (x, (ops.handle h ctx r w).1)) (append_error-as_list errs _))

  offer-no :
      (h : H) (errs : List Error) (w : W)
      → ops.enabled h ctx r.level ≡ false
      → offer ops ctx r h (errs, w) ≡ (errs, w)
  unfolding offer
  offer-no h errs w e = rw e

  offer_all-each :
      (children : List H) (errs : List Error) (w : W)
      → offer_all ops ctx r children (errs, w)
        ≡ (errs ++ (each (accepting children) w).0, (each (accepting children) w).1)
  unfolding offer_all accepting each
  offer_all-each [] errs w = ap (λ x. (x, w)) (sym (append-nil errs))
  offer_all-each (h ∷ children) errs w = elim (Bool-cases (ops.enabled h ctx r.level)) [
    | inl e ↦
        let (o, w') = ops.handle h ctx r w in
        rw e (
          ap (offer_all ops ctx r children) (offer-yes h errs w e)
          ∙ offer_all-each children (errs ++ as_list o) w'
          ∙ ap (λ x. (x, (each (accepting children) w').1))
              (append_assoc errs (as_list o) (each (accepting children) w').0))
    | inr e ↦
        rw e
          (ap (offer_all ops ctx r children) (offer-no h errs w e) ∙ offer_all-each children errs w)
  ]

  tee_result_lem : (errs : List Error) (w : W) → tee_result ops (errs, w) ≡ (error_of errs, w)
  unfolding tee_result
  tee_result_lem [] w = refl
  tee_result_lem (e ∷ errs) w = refl

  -- Handle gives the record to exactly the children that accept its level, in their order, going on
  -- after a failure, and reports all their errors in that order, or none if there was none.
  pub handle_each :
      (t : TeeHandler H) (w : W)
      → handle ops t ctx r w
        ≡ (error_of (each (accepting t.children) w).0, (each (accepting t.children) w).1)
  unfolding handle
  handle_each t w =
      ap (tee_result ops) (offer_all-each t.children [] w)
      ∙ tee_result_lem (each (accepting t.children) w).0 (each (accepting t.children) w).1

  to_list-of_list : (errs : List Error) → to_list (of_list errs) ≡ errs
  to_list-of_list [] = refl
  to_list-of_list (e ∷ errs) = rw (to_list-of_list errs)

  unwrap-error_of : (errs : List Error) (e : Error) → error_of errs ≡ some e → unwrap e ≡ errs
  unfolding unwrap
  unwrap-error_of [] e h = cc
  unwrap-error_of (x ∷ errs) e h =
      let q : tee_child_error (of_list (x ∷ errs)) ≡ e = cc in rw (← q) (to_list-of_list (x ∷ errs))

  -- The errors of the children are recovered from the error of Handle.
  pub unwrap-handle :
      (t : TeeHandler H) (w : W) (e : Error)
      → (handle ops t ctx r w).0 ≡ some e
      → unwrap e ≡ (each (accepting t.children) w).0
  unwrap-handle t w e h = unwrap-error_of _ e (ap (λ x. x.0) (sym (handle_each t w)) ∙ h)

  any_enabled-accepting :
      (children : List H)
      → any_enabled ops children ctx r.level ≡ not (is_empty (accepting children))
  unfolding any_enabled accepting
  any_enabled-accepting [] = refl
  any_enabled-accepting (h ∷ children) = ground (arith, any_enabled-accepting children)

  each-nil : (children : List H) (w : W) → is_empty children ≡ true → each children w ≡ ([], w)
  unfolding each
  each-nil [] w e = refl
  each-nil (h ∷ children) w e = cc

  -- A tee that is not enabled at the level of a record does nothing with it.
  pub handle_of_disabled :
      (t : TeeHandler H) (w : W)
      → enabled ops t ctx r.level ≡ false
      → handle ops t ctx r w ≡ (none, w)
  unfolding enabled
  handle_of_disabled t w e =
      handle_each t w
      ∙ rw (each-nil (accepting t.children) w (ground (arith, any_enabled-accepting t.children)))
          refl

  -- What a child does to the world.
  abbrev pub pass : H → W → W
  pass h w = if ops.enabled h ctx r.level then (ops.handle h ctx r w).1 else w

  abbrev pub pass_all : List H → W → W
  pass_all [] w = w
  pass_all (h ∷ children) w = pass_all children (pass h w)

  offer-world : (h : H) (st : List Error × W) → (offer ops ctx r h st).1 ≡ pass h st.1
  offer-world h (errs, w) = elim (Bool-cases (ops.enabled h ctx r.level)) [
    | inl e ↦ rw (offer-yes h errs w e, e) refl
    | inr e ↦ rw (offer-no h errs w e, e) refl
  ]

  offer_all-world :
      (children : List H) (st : List Error × W)
      → (offer_all ops ctx r children st).1 ≡ pass_all children st.1
  unfolding offer_all
  offer_all-world [] st = refl
  offer_all-world (h ∷ children) st =
      offer_all-world children (offer ops ctx r h st) ∙ ap (pass_all children) (offer-world h st)

  tee_result-world : (st : List Error × W) → (tee_result ops st).1 ≡ st.1
  unfolding tee_result
  tee_result-world ([], w) = refl
  tee_result-world (e ∷ errs, w) = refl

  -- On the world a tee acts as its enabled children, one after the other.
  pub handle-world : (t : TeeHandler H) (w : W) → (handle ops t ctx r w).1 ≡ pass_all t.children w
  unfolding handle
  handle-world t w = tee_result-world _ ∙ offer_all-world t.children ([], w)
