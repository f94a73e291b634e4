-- ===== src/Gateway/Header/Laws.antt =====
-- The values of a key after the methods of a header.
use forcefield.Base.{
  false, sym, true, append_assoc, append-nil, lookup, ◌∙◌, lookup-put, lookup-delete, bytes_eq_iff,
  Bool-cases, ap, bytes_eq, put, delete, ◌≡◌, Option, List, Bytes, Bool, refl, none, some, [], ◌∷◌,
  ◌++◌, inl, inr, if◌then◌else◌,
}
use forcefield.Gateway.Header.{values, or_empty, add_values, add_value, Header, values_at}
use forcefield.Library.{Http}

or_empty-if :
    (b : Bool) (vs : List Bytes) (o : Option (List Bytes))
    → or_empty (if b then some vs else o) ≡ (if b then vs else or_empty o)
or_empty-if true vs o = refl
or_empty-if false vs o = refl

pub values_at-put :
    (k j : Bytes) (vs : List Bytes) (h : Header)
    → values_at j (put k vs h) ≡ (if bytes_eq k j then vs else values_at j h)
unfolding values_at
values_at-put k j vs h =
    ap or_empty (lookup-put k j vs h) ∙ or_empty-if (bytes_eq k j) vs (lookup j h)

pub values_at-delete :
    (k j : Bytes) (h : Header)
    → values_at j (delete k h) ≡ (if bytes_eq k j then [] else values_at j h)
unfolding values_at
values_at-delete k j h = ap or_empty (lookup-delete k j h) ∙ gone (bytes_eq k j) (lookup j h)
  where
    gone :
        (b : Bool) (o : Option (List Bytes))
        → or_empty (if b then none else o) ≡ (if b then [] else or_empty o)
    gone true o = refl
    gone false o = refl

module _ (http : Http) (name : Bytes) (canonical : http.canonical_key name ≡ name) where
  values_at-add_value :
      (k v : Bytes) (h : Header)
      → values_at k (add_value http name v h)
        ≡ (if bytes_eq name k then values_at k h ++ v ∷ [] else values_at k h)
  unfolding add_value values
  values_at-add_value k v h =
      rw (canonical, values_at-put name k (values_at name h ++ v ∷ []) h)
        (elim (Bool-cases (bytes_eq name k)) [
          | inl e ↦ rw (e, (bytes_eq_iff name k).0 e) refl
          | inr e ↦ rw e refl
        ])

  pub values_at-add_values :
      (k : Bytes) (vs : List Bytes) (h : Header)
      → values_at k (add_values http name vs h)
        ≡ (if bytes_eq name k then values_at k h ++ vs else values_at k h)
  unfolding add_values
  values_at-add_values k [] h = elim (Bool-cases (bytes_eq name k)) [
    | inl e ↦ rw e (sym (append-nil (values_at k h)))
    | inr e ↦ rw e refl
  ]
  values_at-add_values k (v ∷ vs) h =
      values_at-add_values k vs (add_value http name v h) ∙ elim (Bool-cases (bytes_eq name k)) [
        | inl e ↦ rw (values_at-add_value k v h, e) (append_assoc (values_at k h) (v ∷ []) vs)
        | inr e ↦ rw (values_at-add_value k v h, e) refl
      ]
