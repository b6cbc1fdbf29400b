-- ===== src/Node/Projection/Entrainable.antt =====
-- crates/node/src/projection.rs and entrain.rs: the gate of entrainments and the projection agree.
use rsntr.Base.{
  ◌≡◌, refl, ap, sym, ◌∙◌, inl, inr, Bool, true, false, Option, none, some, List, [], ◌∷◌, all, not,
  In, here, there, Str, codes, ◌=s◌, =s_iff, Bool-cases, arith,
}
use rsntr.Authenticator.Db.{Db}
use rsntr.Node.ModInstall.{peer_known}
use rsntr.Node.Fields.{JsonValue}
use rsntr.Node.Projection.{
  PointRow, Point, sympathetic, Projection, built, visible, row_to_point, projection_changed,
  parse_kind, build_projection, find_point, gate_entrain, allowed, shown,
}
use rsntr.Node.Projection.Offers.{build_projection_offers}

-- PRIMARY KEY of `_projection`
abbrev pub IrisDistinct : List PointRow → Type 0
IrisDistinct [] = Unit
IrisDistinct (r ∷ rows) =
    (all (λ q. not (q.point_iri =s r.point_iri)) rows ≡ true) × IrisDistinct rows

parse_kind-sympathetic :
    (kind : Str) → parse_kind kind ≡ sympathetic → (kind =s codes "sympathetic") ≡ true
unfolding parse_kind
parse_kind-sympathetic kind = elim (Bool-cases (kind =s codes "sympathetic")) [
  | inl same ↦ λ e. same
  | inr other ↦ rw other (ground arith)
]

all-In : {A : Type 0} (p : A → Bool) (x : A) (xs : List A) → all p xs ≡ true → In x xs → p x ≡ true
all-In p x (y ∷ xs) h (here e) = rw e (ground arith)
all-In p x (y ∷ xs) h (there i) = all-In p x xs (ground arith) i
all-In p x [] h i = elim i [ ]

find_point-In :
    (table : List PointRow) (r : PointRow)
    → IrisDistinct table
    → In r table
    → find_point r.point_iri (some table) ≡ some r
unfolding find_point
find_point-In [] r h i = elim i [ ]
find_point-In (q ∷ table) r h (here e) =
    let same : (q.point_iri =s r.point_iri) ≡ true =
      (=s_iff q.point_iri r.point_iri).1 (ap (λ y. y.point_iri) (sym e)) in
    rw same (ap some (sym e))
find_point-In (q ∷ table) r (fresh, h) (there i) =
    let other : not (r.point_iri =s q.point_iri) ≡ true =
      all-In (λ y. not (y.point_iri =s q.point_iri)) r table fresh i in
    let apart : (q.point_iri =s r.point_iri) ≡ false =
      elim (Bool-cases (q.point_iri =s r.point_iri)) [
        | inr f ↦ f
        | inl t ↦ absurd (
            let e : (r.point_iri =s q.point_iri) ≡ true =
              (=s_iff r.point_iri q.point_iri).1 (sym ((=s_iff q.point_iri r.point_iri).0 t)) in
            ground arith)
      ] in
    rw apart (find_point-In table r h i)

module _ {Json : Type 0} (error : Str) (db : Db Json) (table : List PointRow) (peer : Str) where
  visible-gate_entrain :
      (r : PointRow)
      → IrisDistinct table
      → peer_known db peer ≡ true
      → In r table
      → (r.kind =s codes "sympathetic") ≡ true
      → visible db.policy peer r.kind r.modulation r.resource ≡ some true
      → (t : Option Str) × (gate_entrain error db (some table) peer r.point_iri ≡ allowed t)
  unfolding gate_entrain
  visible-gate_entrain r h known i kind seen =
      elim (Bool-cases (r.point_iri =s projection_changed)) [
        | inl changed ↦ (none, rw known (rw changed refl))
        | inr other ↦ (
          r.resource,
          rw known (rw other (rw (find_point-In table r h i) (rw kind (rw seen refl)))),
        )
      ]

  gate_entrain_changed :
      peer_known db peer ≡ true
      → gate_entrain error db (some table) peer projection_changed ≡ allowed none
  unfolding gate_entrain
  gate_entrain_changed known = rw known refl

  -- Every sympathetic point that a projection offers to a known peer passes the gate of entrainments for
  -- that peer, if the rows have distinct IRIs.
  pub build_projection-gate_entrain :
      {Real : Type 0} (d : Str → Option (JsonValue Real)) (id path : Str) (proj : Projection Real)
      (p : Point Real)
      → IrisDistinct table
      → peer_known db peer ≡ true
      → build_projection d (some table) db.policy peer id path false ≡ some (built proj)
      → In p proj.offers
      → p.kind ≡ sympathetic
      → (t : Option Str) × (gate_entrain error db (some table) peer p.iri ≡ allowed t)
  unfolding row_to_point shown
  build_projection-gate_entrain d id path proj p h known b i kind =
      elim ((build_projection_offers d db.policy peer false table id path proj p b).0 i) [
        | inl (r, j, at_path, seen, e) ↦
            let sym_kind = parse_kind-sympathetic r.kind (sym (ap (λ q. q.kind) e) ∙ kind) in
            let (t, g) = visible-gate_entrain r h known j sym_kind seen in
            (t, ap (λ q. gate_entrain error db (some table) peer q.iri) e ∙ g)
        | inr (root, e) ↦ (
          none,
          ap (λ q. gate_entrain error db (some table) peer q.iri) e ∙ gate_entrain_changed known,
        )
      ]
